-- ===== src/Mcs51/Serial.antt =====
-- The rings of the UART are queues of at most 31 bytes: what the host pushes is what the program
-- reads from SBUF, in order.
use uc_vm.Common.{
  update_self, ℕ, zero, suc, ◌+◌, ◌-◌, ◌%◌, ◌≤◌, ◌≡◌, refl, ap, ◌∙◌, arith, true, Mem8,
  if◌then◌else◌, inl, inr, Bool-cases, ap₂, ◌==◌, List, [], ◌∷◌, ◌++◌, length, Option, none, some,
  update, leb, ◌<◌, ◌≢◌, ◌⊎◌, false, nonzero, bit_and, bit_or, bit_at, bit_at-lt, nonzero-bit_and,
  bit_at-u8, bit_at-set,
}
use uc_vm.Mcs51.Cpu.{Cpu, Uart, sfr_scon, sfr_sbuf, set_uart, set_sfr}
use uc_vm.Mcs51.Uart.{
  ring_next, ring_empty, ring_full, tx_put, rx_put, sbuf_read_hook, uart_rx_push, uart_tx_pop,
}
use uc_vm.Mcs51.Evolve.{IsUart}

-- `n` bytes of a ring from index `t` on, going round at 32.
abbrev window : Mem8 → ℕ → ℕ → List ℕ
window buf t zero = []
window buf t (suc n) = buf t ∷ window buf (ring_next t) n

-- How many bytes a ring holds, and which, oldest first.
abbrev pub ring_count : ℕ → ℕ → ℕ
ring_count h t = (h + 32 - t) % 32

abbrev pub rx_queue : Uart → List ℕ
rx_queue u = window u.rx_buf u.rx_tail (ring_count u.rx_head u.rx_tail)

abbrev pub tx_queue : Uart → List ℕ
tx_queue u = window u.tx_buf u.tx_tail (ring_count u.tx_head u.tx_tail)

-- A queue that refuses a byte when it holds 31.
abbrev pub enqueue : List ℕ → ℕ → List ℕ
enqueue q x = if leb 31 (length q) then q else q ++ (x ∷ [])

length-window : (buf : Mem8) (t n : ℕ) → length (window buf t n) ≡ n
length-window buf t zero = refl
length-window buf t (suc n) = ap suc (length-window buf (ring_next t) n)

-- A write at index `h` is not seen by a window that ends before it.
window-update :
    (buf : Mem8) (h x t n : ℕ)
    → t < 32
    → h < 32
    → n ≤ ring_count h t
    → window (update buf h x) t n ≡ window buf t n
window-update buf h x t zero a b c = refl
window-update buf h x t (suc n) a b c =
    ap₂ ◌∷◌ (ground arith) (window-update buf h x (ring_next t) n (omega arith) b (omega arith))

-- One more byte at the end of a window.
window-suc :
    (buf : Mem8) (t n : ℕ)
    → t < 32
    → window buf t (suc n) ≡ window buf t n ++ (buf ((t + n) % 32) ∷ [])
window-suc buf t zero a = ap (λ i. buf i ∷ []) (omega arith)
window-suc buf t (suc n) a =
    ap (λ w. buf t ∷ w)
      (window-suc buf (ring_next t) n (omega arith)
        ∙ ap (λ i. window buf (ring_next t) n ++ (buf i ∷ [])) (omega arith))

grown :
    (buf : Mem8) (h t x n : ℕ)
    → t < 32
    → h < 32
    → n ≡ ring_count h t
    → window (update buf h x) t (suc n) ≡ window buf t n ++ (x ∷ [])
grown buf h t x n a b e =
    let at_head : (t + n) % 32 ≡ h = omega arith in
    window-suc (update buf h x) t n a
    ∙ ap₂ (λ w i. w ++ (update buf h x i ∷ [])) (window-update buf h x t n a b (omega arith))
        at_head
    ∙ ap (λ v. window buf t n ++ (v ∷ [])) (update_self buf h x)

-- The ring after a byte is written at its head is the queue with the byte behind.
put_refines :
    (buf : Mem8) (h t x : ℕ)
    → t < 32
    → h < 32
    → (if ring_full h t
        then window buf t (ring_count h t)
        else window (update buf h x) t (ring_count (ring_next h) t))
      ≡ enqueue (window buf t (ring_count h t)) x
unfolding ring_full
put_refines buf h t x a b = elim (Bool-cases (ring_next h == t)) [
  | inl full ↦ rw full (ground (arith, length-window buf t (ring_count h t)))
  | inr room ↦ rw room (
      let more : ring_count (ring_next h) t ≡ suc (ring_count h t) = ground arith in
      rw more (
        ground
          (arith, length-window buf t (ring_count h t), grown buf h t x (ring_count h t) a b refl)))
]

rx_put_refines : (u : Uart) (x : ℕ) → IsUart u → rx_queue (rx_put u x) ≡ enqueue (rx_queue u) x
unfolding rx_put
rx_put_refines u x v =
    let put = put_refines u.rx_buf u.rx_head u.rx_tail x v.rx_tail_in v.rx_head_in in
    elim (Bool-cases (ring_full u.rx_head u.rx_tail)) [
      | inl e ↦ rw e (rw e at put)
      | inr e ↦ rw e (rw e at put)
    ]

-- `d` is `c` with the byte `x` received: queued, shown in SBUF, and announced by RI, bit 0 of SCON.
pub record IsReceived (c d : Cpu) (x : ℕ) : Type 0 where
  pub queued : rx_queue d.uart_state ≡ enqueue (rx_queue c.uart_state) x
  pub shown : d.sfr sfr_sbuf ≡ x
  pub announced :
      (j : ℕ)
      → j < 8
      → bit_at j (d.sfr sfr_scon) ≡ (if j == 0 then 1 else bit_at j (c.sfr sfr_scon))
  pub same_sfr : (i : ℕ) → i ≢ sfr_sbuf → i ≢ sfr_scon → d.sfr i ≡ c.sfr i
  pub same_tx : tx_queue d.uart_state ≡ tx_queue c.uart_state

tx_queue-rx_put : (u : Uart) (x : ℕ) → tx_queue (rx_put u x) ≡ tx_queue u
unfolding rx_put
tx_queue-rx_put u x = elim (Bool-cases (ring_full u.rx_head u.rx_tail)) [
  | inl e ↦ rw e refl
  | inr e ↦ rw e refl
]

received :
    (c : Cpu) (x : ℕ)
    → IsUart c.uart_state
    → x < 256
    → bit_at 4 (c.sfr sfr_scon) ≡ 1
    → IsReceived c (uart_rx_push c x) x
unfolding uart_rx_push set_uart set_sfr
received c x v hx e =
    let on : nonzero (bit_and (c.sfr sfr_scon) 0x10) ≡ true =
      nonzero-bit_and 4 (c.sfr sfr_scon) ∙ ap (λ b. b == 1) e in
    rw on (record {
      queued = rx_put_refines c.uart_state x v;
      shown = omega (arith, hx);
      announced = λ j h.
          bit_at-u8 j (bit_or (c.sfr sfr_scon) 1) h
          ∙ bit_at-set 0 j (c.sfr sfr_scon) (omega arith) h;
      same_sfr = λ i p q. ground (arith, p, q);
      same_tx = tx_queue-rx_put c.uart_state x;
    })

-- With the ring indices of the UART below 32 and its buffers and x bytes, the byte x that
-- arrives at the UART changes nothing when REN is clear; when REN is set it is put behind those
-- that wait, or is lost from the queue when 31 wait, and in either case SBUF is x, RI is set,
-- and no other bit of SCON, no other SFR and no byte to be sent changes.
pub uart_rx_push_refines :
    (c : Cpu) (x : ℕ)
    → IsUart c.uart_state
    → x < 256
    → ((bit_at 4 (c.sfr sfr_scon) ≡ 0) × (uart_rx_push c x ≡ c))
      ⊎ ((bit_at 4 (c.sfr sfr_scon) ≡ 1) × IsReceived c (uart_rx_push c x) x)
unfolding uart_rx_push
uart_rx_push_refines c x v hx = elim (Bool-cases (bit_at 4 (c.sfr sfr_scon) == 1)) [
  | inl e ↦
      let one : bit_at 4 (c.sfr sfr_scon) ≡ 1 = ground (arith, e) in
      inr (one, received c x v hx one)
  | inr e ↦
      let off : nonzero (bit_and (c.sfr sfr_scon) 0x10) ≡ false =
        nonzero-bit_and 4 (c.sfr sfr_scon) ∙ e in
      inl (ground (arith, e, bit_at-lt 4 (c.sfr sfr_scon)), rw off refl)
]

-- With ring indices below 32 and buffers of bytes, a byte written to SBUF is put behind those not
-- yet sent, lost when 31 wait, and the transmitter is active.
pub tx_put_refines :
    (u : Uart) (x : ℕ)
    → IsUart u
    → (tx_queue (tx_put u x) ≡ enqueue (tx_queue u) x) × ((tx_put u x).tx_active ≡ true)
unfolding tx_put
tx_put_refines u x v =
    let put = put_refines u.tx_buf u.tx_head u.tx_tail x v.tx_tail_in v.tx_head_in in
    elim (Bool-cases (ring_full u.tx_head u.tx_tail)) [
      | inl e ↦ rw e (rw e at put, refl)
      | inr e ↦ rw e (rw e at put, refl)
    ]

abbrev pub get_or : Option ℕ → ℕ → ℕ
get_or none d = d
get_or (some x) d = x

-- What a read takes from a queue: its oldest byte, if there is one.
abbrev pub dequeue : List ℕ → Option ℕ × List ℕ
dequeue [] = (none, [])
dequeue (x ∷ q) = (some x, q)

get_refines :
    (buf : Mem8) (h t : ℕ)
    → t < 32
    → h < 32
    → (if ring_empty h t
        then (none, window buf t (ring_count h t))
        else (some (buf t), window buf (ring_next t) (ring_count h (ring_next t))))
      ≡ dequeue (window buf t (ring_count h t))
unfolding ring_empty
get_refines buf h t a b = elim (Bool-cases (h == t)) [
  | inl e ↦ rw e (let none_held : ring_count h t ≡ 0 = ground arith in rw none_held refl)
  | inr e ↦
      rw e (
        let held : ring_count h t ≡ suc (ring_count h (ring_next t)) = ground arith in rw held refl)
]

-- With ring indices below 32 and buffers of bytes, the host takes the bytes that the program wrote
-- to SBUF, oldest first.
pub uart_tx_pop_refines :
    (u : Uart)
    → IsUart u
    → let (out, u') = uart_tx_pop u in (out, tx_queue u') ≡ dequeue (tx_queue u)
unfolding uart_tx_pop
uart_tx_pop_refines u v =
    let get = get_refines u.tx_buf u.tx_head u.tx_tail v.tx_tail_in v.tx_head_in in
    elim (Bool-cases (ring_empty u.tx_head u.tx_tail)) [
      | inl e ↦ rw e (rw e at get)
      | inr e ↦ rw e (rw e at get)
    ]

-- With the ring indices of the UART below 32 and its buffers bytes, a read of SBUF gives the
-- oldest byte received and takes it off the queue, or gives 0 when none waits.
pub sbuf_read_hook_refines :
    (c : Cpu)
    → IsUart c.uart_state
    → let (out, d) = sbuf_read_hook c in
      (out ≡ get_or (dequeue (rx_queue c.uart_state)).0 0)
      × (rx_queue d.uart_state ≡ (dequeue (rx_queue c.uart_state)).1)
unfolding sbuf_read_hook set_uart
sbuf_read_hook_refines c v =
    let u = c.uart_state in
    let get = get_refines u.rx_buf u.rx_head u.rx_tail v.rx_tail_in v.rx_head_in in
    elim (Bool-cases (ring_empty u.rx_head u.rx_tail)) [
      | inl e ↦ rw e (ap (λ r. get_or r.0 0) (rw e at get), ap (λ r. r.1) (rw e at get))
      | inr e ↦ rw e (ap (λ r. get_or r.0 0) (rw e at get), ap (λ r. r.1) (rw e at get))
    ]

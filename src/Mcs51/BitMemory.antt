-- ===== src/Mcs51/BitMemory.antt =====
-- The bit-addressable RAM of the 8051, and its ports.
use uc_vm.Common.{
  ℕ, ◌+◌, ◌/◌, ◌%◌, ◌^◌, ◌<◌, ◌≡◌, refl, arith, Bool, true, false, ◌&&◌, if◌then◌else◌, ◌==◌,
  ==_iff, all_below, all_below_sound, some, ltb, bit_and, Bool-cases, inl, inr, u8, ◌-◌, ◌∙◌, ap,
  bit_or, bit_at, bit_at-lt, bit_at-u8, bit_at-set, bit_at-clear, bit_at-bit_and,
}
use uc_vm.Mcs51.Cpu.{
  IoPeriph, gpio, Cpu, sfr_p1, set_sfr, set_iram, call_bridge, port_read, port_write,
}
use uc_vm.Mcs51.Gpio.{port_id, port_read_hook, port_write_hook}
use uc_vm.Mcs51.Memory.{
  put_bit, bit_read, bit_write, direct_read, direct_write, run_read_hook, run_write_hook,
}
use uc_vm.Mcs51.Evolve.{IsValid}
use uc_vm.Mcs51.Alu.Psw.{to_bit}

bit_agrees : ℕ → ℕ → ℕ → Bool → Bool
unfolding put_bit
bit_agrees k j x v = u8 (put_bit x k v) / 2 ^ j % 2 == (if j == k then to_bit v else x / 2 ^ j % 2)

bit_table :
    all_below 8
      (λ k. all_below 8 (λ j. all_below 256 (λ x. bit_agrees k j x true && bit_agrees k j x false)))
    ≡ true
unfolding all_below bit_agrees put_bit
bit_table = refl

both_values :
    (x k j : ℕ) (v : Bool)
    → bit_agrees k j x true && bit_agrees k j x false ≡ true
    → u8 (put_bit x k v) / 2 ^ j % 2 ≡ (if j == k then to_bit v else x / 2 ^ j % 2)
unfolding bit_agrees
both_values x k j true h = ground (arith, h)
both_values x k j false h = ground (arith, h)

put_bit_lem :
    (x k j : ℕ) (v : Bool)
    → x < 256
    → k < 8
    → j < 8
    → u8 (put_bit x k v) / 2 ^ j % 2 ≡ (if j == k then to_bit v else x / 2 ^ j % 2)
unfolding bit_agrees
put_bit_lem x k j v hx hk hj =
    let at_k =
      all_below_sound 8
        (λ k.
          all_below 8 (λ j. all_below 256 (λ x. bit_agrees k j x true && bit_agrees k j x false)))
        k bit_table hk in
    let at_j =
      all_below_sound 8 (λ j. all_below 256 (λ x. bit_agrees k j x true && bit_agrees k j x false))
        j at_k hj in
    both_values x k j v
      (all_below_sound 256 (λ x. bit_agrees k j x true && bit_agrees k j x false) x at_j hx)

-- In a valid state, a bit of the bit-addressable RAM that was written is read back, and every
-- other bit there is read as before.
pub bit_read-bit_write :
    (c : Cpu) (a b : ℕ) (v : Bool)
    → IsValid c
    → a < 128
    → b < 128
    → (bit_read (bit_write c a v) b).0 ≡ (if b == a then to_bit v else (bit_read c b).0)
unfolding bit_read bit_write set_iram
bit_read-bit_write c a b v w ha hb = ground (
  arith,
  ha,
  hb,
  put_bit_lem (c.iram (0x20 + a / 8)) (a % 8) (b % 8) v (w.iram_bytes (0x20 + a / 8)) (omega arith)
      (omega arith),
)

sfr-call_bridge : (c : Cpu) (p : IoPeriph) (r v i : ℕ) → (call_bridge c p r v).sfr i ≡ c.sfr i
unfolding call_bridge
sfr-call_bridge c p r v i = elim (Bool-cases c.bridge_cb) [ inl e ↦ rw e refl | inr e ↦ rw e refl ]

port_table : all_below 8 (λ j. bit_and (0x90 + j) 0xF8 == 0x90) ≡ true
unfolding all_below
port_table = refl

p1-bit_write :
    (c : Cpu) (k : ℕ) (v : Bool)
    → k < 8
    → c.sfr_read sfr_p1 ≡ some port_read
    → c.sfr_write sfr_p1 ≡ some port_write
    → (bit_write c (0x90 + k) v).sfr sfr_p1
      ≡ u8 (put_bit (bit_and (c.sfr sfr_p1) (c.gpio_state.ext_pins 1)) k v)
unfolding bit_write direct_read direct_write run_read_hook run_write_hook port_read_hook
    port_write_hook port_id set_sfr call_bridge
p1-bit_write c k v h r w =
    let in_sfr : ltb (0x90 + k) 0x80 ≡ false = ground arith in
    let at_p1 : bit_and (0x90 + k) 0xF8 ≡ 0x90 =
      (==_iff _ _).0 (all_below_sound 8 (λ j. bit_and (0x90 + j) 0xF8 == 0x90) k port_table h) in
    let at_k : (0x90 + k) % 8 ≡ k = omega (arith, h) in
    let new = put_bit (bit_and (c.sfr sfr_p1) (c.gpio_state.ext_pins 1)) k v in
    rw (bit_write, in_sfr, at_p1, at_k)
      (rw (direct_read, direct_write, r, w)
        (sfr-call_bridge (set_sfr c sfr_p1 new) gpio 1 (u8 new) sfr_p1))

put_bit_at :
    (x k j : ℕ) (v : Bool)
    → k < 8
    → j < 8
    → bit_at j (u8 (put_bit x k v)) ≡ (if j == k then to_bit v else bit_at j x)
unfolding put_bit
put_bit_at x k j true hk hj = bit_at-u8 j (bit_or x (2 ^ k)) hj ∙ bit_at-set k j x hk hj
put_bit_at x k j false hk hj = bit_at-u8 j (bit_and x (255 - 2 ^ k)) hj ∙ bit_at-clear k j x hk hj

-- Where the hooks of the ports are registered, a write of bit k of port 1, below 8, stores the
-- given bit at k, and at every other place the bit of the latch if the pin there is high and 0
-- if it is low: read-modify-write takes the levels of the pins, not the latch.
pub bit_write_port :
    (c : Cpu) (k : ℕ) (v : Bool)
    → k < 8
    → c.sfr_read sfr_p1 ≡ some port_read
    → c.sfr_write sfr_p1 ≡ some port_write
    → (j : ℕ) → j < 8
    → bit_at j ((bit_write c (0x90 + k) v).sfr sfr_p1) ≡ (
        if j == k
        then to_bit v
        else if bit_at j (c.gpio_state.ext_pins 1) == 1
        then bit_at j (c.sfr sfr_p1)
        else 0)
bit_write_port c k v h r w j hj =
    let pins = bit_at-bit_and j (c.sfr sfr_p1) (c.gpio_state.ext_pins 1) in
    ap (bit_at j) (p1-bit_write c k v h r w)
    ∙ put_bit_at (bit_and (c.sfr sfr_p1) (c.gpio_state.ext_pins 1)) k j v h hj
    ∙ ground (arith, pins, bit_at-lt j (c.sfr sfr_p1), bit_at-lt j (c.gpio_state.ext_pins 1))

-- ===== src/Mcs51/Requests.antt =====
-- Interrupts of the 8051 by the bits of its registers: which one `mcs51_cpu_check_irq` of
-- src/mcs51/mcs51_cpu.c serves, and when it serves none.
pub mod Entries
use uc_vm.Common.{
  ℕ, zero, suc, ◌+◌, ◌-◌, ◌*◌, ◌/◌, ◌%◌, ◌^◌, ◌<◌, ◌≡◌, ◌≢◌, ◌∙◌, refl, ap, sym, arith, true, false,
  ◌&&◌, if◌then◌else◌, ltb, ◌==◌, nonzero, ◌⊎◌, inl, inr, Bool-cases, bit_and, bit_at,
  nonzero-bit_and, bit_at-u8, bit_at-clear, u8,
}
use uc_vm.Mcs51.Cpu.{
  Cpu, sp, sfr_tcon, sfr_ie, sfr_ip, sfr_sp, set_state, set_sfr, set_iram, add_cycles, set_pc,
  set_int_active,
}
use uc_vm.Mcs51.Memory.{push}
use uc_vm.Mcs51.Decode.Branch.{push_ret}
use uc_vm.Mcs51.Evolve.{IsValid}
use uc_vm.Mcs51.Irq.{is_high, is_blocked, is_ready, accept, check_irq}
use uc_vm.Mcs51.Requests.Entries.{
  tcon_flag, at_high_level, is_due, entry, poll_entries, is_ready-entry, high_level-entry,
}

-- Interrupt `n` is due, and none before it in the order of polling.
pub record IsFirstDue (c : Cpu) (n : ℕ) : Type 0 where
  pub in_table : n < 6
  pub due : is_due c n ≡ true
  pub none_before : (k : ℕ) → k < n → is_due c k ≡ false

-- `d` is `c` with interrupt `n` served.
pub record IsServed (c d : Cpu) (n : ℕ) : Type 0 where
  pub at_vector : d.pc ≡ 3 + 8 * n
  pub low_byte : d.iram (u8 (sp c + 1)) ≡ c.pc % 256
  pub high_byte : d.iram (u8 (sp c + 2)) ≡ c.pc / 256
  pub same_iram : (a : ℕ) → a ≢ u8 (sp c + 1) → a ≢ u8 (sp c + 2) → d.iram a ≡ c.iram a
  pub stacked : sp d ≡ u8 (sp c + 2)
  pub acknowledged :
      (j : ℕ)
      → j < 8
      → bit_at j (d.sfr sfr_tcon)
        ≡ (if ltb n 4 && (j == tcon_flag n) then 0 else bit_at j (c.sfr sfr_tcon))
  pub same_sfr : (i : ℕ) → i ≢ sfr_tcon → i ≢ sfr_sp → d.sfr i ≡ c.sfr i
  pub active :
      (l : ℕ)
      → d.int_active l
        ≡ (if l == (if at_high_level c n then 1 else 0) then true else c.int_active l)
  pub two_cycles : d.cycles ≡ (c.cycles + 2) % 2 ^ 64

tcon_flag-lt : (n : ℕ) → tcon_flag n < 8
tcon_flag-lt n = ground arith

-- TCON once interrupt `n` was acknowledged.
acknowledged_tcon :
    (n j x : ℕ)
    → j < 8
    → bit_at j (if ltb n 4 then u8 (bit_and x (255 - 2 ^ tcon_flag n)) else x)
      ≡ (if ltb n 4 && (j == tcon_flag n) then 0 else bit_at j x)
acknowledged_tcon n j x h = elim (Bool-cases (ltb n 4)) [
  | inl e ↦ rw e (
      bit_at-u8 j (bit_and x (255 - 2 ^ tcon_flag n)) h
      ∙ bit_at-clear (tcon_flag n) j x (tcon_flag-lt n) h)
  | inr e ↦ rw e refl
]

tcon-accept :
    (c : Cpu) (n : ℕ)
    → n < 6
    → (accept c (entry n)).sfr sfr_tcon
      ≡ (if ltb n 4 then u8 (bit_and (c.sfr sfr_tcon) (255 - 2 ^ tcon_flag n)) else c.sfr sfr_tcon)
unfolding accept push_ret push set_sfr set_iram set_pc set_state set_int_active add_cycles
tcon-accept c n h = ground arith

accept-IsServed : (c : Cpu) (n : ℕ) → IsValid c → n < 6 → IsServed c (accept c (entry n)) n
unfolding accept push_ret push set_sfr set_iram set_pc set_state set_int_active add_cycles
accept-IsServed c n v h = record {
  at_vector = omega (arith, h);
  low_byte = ground (arith, v.sfr_bytes sfr_sp, v.pc_word, h);
  high_byte = ground (arith, v.sfr_bytes sfr_sp, v.pc_word, h);
  same_iram = λ a p q. ground (arith, v.sfr_bytes sfr_sp);
  stacked = ground (arith, v.sfr_bytes sfr_sp);
  acknowledged =
      λ j p. ap (bit_at j) (tcon-accept c n h) ∙ acknowledged_tcon n j (c.sfr sfr_tcon) p;
  same_sfr = λ i p q. ground (arith, p, q);
  active = λ l. ground (arith, high_level-entry c n);
  two_cycles = ground arith;
}

-- In a valid state with EA set, either no interrupt is due, that is enabled in IE, requested by
-- its flags and admitted by the levels that are active, and mcs51_cpu_check_irq changes nothing;
-- or the first one that is due, in the order INT0, Timer 0, INT1, Timer 1, serial port, Timer 2
-- and whatever their levels, is served: PC is its vector, the return address is on the stack
-- with SP moved, only its own flag in TCON is cleared if it is one of the first four, its level
-- is active, two cycles are counted, and the rest of the RAM and of the SFRs is kept.
pub check_irq-IsServed :
    (c : Cpu)
    → IsValid c
    → bit_at 7 (c.sfr sfr_ie) ≡ 1
    → (((n : ℕ) → n < 6 → is_due c n ≡ false) × (check_irq c ≡ c))
      ⊎ ((n : ℕ) × IsFirstDue c n × IsServed c (check_irq c) n)
unfolding check_irq
check_irq-IsServed c v ea =
    let on : nonzero (bit_and (c.sfr sfr_ie) 0x80) ≡ true =
      nonzero-bit_and 7 (c.sfr sfr_ie) ∙ ap (λ b. b == 1) ea in
    elim (poll_entries c 6 0) [
      | inl (n, low, ready, before, same) ↦ inr (
        n,
        record {
          in_table = omega (arith, low);
          due = sym (is_ready-entry c n v (omega (arith, low))) ∙ ready;
          none_before =
              λ k p. sym (is_ready-entry c k v (omega (arith, low, p))) ∙ before k (omega arith) p;
        },
        rw (on, same) (accept-IsServed c n v (omega (arith, low))),
      )
      | inr (missed, same) ↦ inl (
        λ n p. sym (is_ready-entry c n v p) ∙ missed n (omega arith) (omega (arith, p)),
        rw (on, same) refl,
      )
    ]

-- What keeps every source waiting: EA clear, an active interrupt of the high level, or one of the
-- low level while none of the six sources has the high level.
abbrev pub AllMasked : Cpu → Type 0
AllMasked c =
    (bit_at 7 (c.sfr sfr_ie) ≡ 0)
    ⊎ (c.int_active 1 ≡ true)
    ⊎ ((c.int_active 0 ≡ true) × (c.sfr sfr_ip % 64 ≡ 0))

low_levels : (x n : ℕ) → x % 64 ≡ 0 → n < 6 → bit_at n x ≡ 0
unfolding bit_at
low_levels x zero e h = omega (arith, e)
low_levels x (suc zero) e h = omega (arith, e)
low_levels x (suc (suc zero)) e h = omega (arith, e)
low_levels x (suc (suc (suc zero))) e h = omega (arith, e)
low_levels x (suc (suc (suc (suc zero)))) e h = omega (arith, e)
low_levels x (suc (suc (suc (suc (suc zero))))) e h = omega (arith, e)
low_levels x (suc (suc (suc (suc (suc (suc n)))))) e h = absurd (omega (arith, h))

blocked_waits :
    (c : Cpu) (n : ℕ) → is_blocked c (is_high c (entry n)) ≡ true → is_ready c n (entry n) ≡ false
unfolding is_ready
blocked_waits c n b = ground arith

all_blocked :
    (c : Cpu) → ((n : ℕ) → n < 6 → is_blocked c (is_high c (entry n)) ≡ true) → check_irq c ≡ c
unfolding check_irq
all_blocked c b = elim (poll_entries c 6 0) [
  | inl (n, low, ready, before, same) ↦
      absurd (ground (arith, ready, blocked_waits c n (b n (omega (arith, low)))))
  | inr (missed, same) ↦ rw same (ground arith)
]

-- When EA is clear, or an interrupt of the high level is active, or one of the low level is
-- active and none of the six sources has the high level in IP, mcs51_cpu_check_irq changes
-- nothing.
pub check_irq_masked : (c : Cpu) → AllMasked c → check_irq c ≡ c
unfolding check_irq is_blocked
check_irq_masked c (inl ea) =
    let off : nonzero (bit_and (c.sfr sfr_ie) 0x80) ≡ false =
      nonzero-bit_and 7 (c.sfr sfr_ie) ∙ ap (λ b. b == 1) ea in
    rw off refl
check_irq_masked c (inr (inl high)) = all_blocked c (λ n p. rw high refl)
check_irq_masked c (inr (inr (low, levels))) =
    all_blocked c
      (λ n p. ground (arith, low, high_level-entry c n, low_levels (c.sfr sfr_ip) n levels p))

-- ===== src/Mcs51/Requests/Entries.antt =====
-- When an interrupt of the 8051 is due, by the bits of its registers, and the table of
-- `mcs51_cpu_check_irq` of src/mcs51/mcs51_cpu.c by the numbers of its entries.
use uc_vm.Common.{
  ℕ, zero, suc, ◌+◌, ◌*◌, ◌/◌, ◌%◌, ◌^◌, ◌≤◌, ◌<◌, ◌≡◌, ◌∙◌, refl, ap, arith, Bool, true, false,
  not, ◌&&◌, ◌||◌, if◌then◌else◌, ltb, ◌==◌, nonzero, List, [], ◌∷◌, ◌⊎◌, inl, inr, Bool-cases,
  bit_and, bit_at, nonzero-bit_and, bit_at_lem, all_below, all_below_sound,
}
use uc_vm.Mcs51.Cpu.{Cpu, sfr_tcon, sfr_scon, sfr_t2con, sfr_ie, sfr_ip}
use uc_vm.Mcs51.Evolve.{IsValid}
use uc_vm.Mcs51.Irq.{
  IntSource, source, int_sources, flag_set, is_high, is_blocked, is_ready, accept, poll_sources,
}

-- Interrupts 0 to 5 are INT0, Timer 0, INT1, Timer 1, the serial port and Timer 2. The bit of TCON
-- that one of the first four raises.
abbrev pub tcon_flag : ℕ → ℕ
tcon_flag n = if n == 0 then 1 else if n == 1 then 5 else if n == 2 then 3 else 7

-- IE0, TF0, IE1, TF1 of TCON, RI or TI of SCON, TF2 or EXF2 of T2CON.
abbrev pub requested : Cpu → ℕ → Bool
requested c n =
    if ltb n 4
    then bit_at (tcon_flag n) (c.sfr sfr_tcon) == 1
    else if n == 4
    then (bit_at 0 (c.sfr sfr_scon) == 1) || (bit_at 1 (c.sfr sfr_scon) == 1)
    else (bit_at 6 (c.sfr sfr_t2con) == 1) || (bit_at 7 (c.sfr sfr_t2con) == 1)

-- The level of an interrupt is its bit of IP.
abbrev pub at_high_level : Cpu → ℕ → Bool
at_high_level c n = bit_at n (c.sfr sfr_ip) == 1

-- No interrupt of the high level is active, and none of the low level but for one of the high.
abbrev pub admitted : Cpu → ℕ → Bool
admitted c n = not (c.int_active 1) && (not (c.int_active 0) || at_high_level c n)

-- The interrupt is enabled by its bit of IE, requested, and admitted.
abbrev pub is_due : Cpu → ℕ → Bool
is_due c n = (bit_at n (c.sfr sfr_ie) == 1) && (requested c n && admitted c n)

-- Entry `n` of `int_sources`, and the entries from there on.
abbrev pub entry : ℕ → IntSource
entry n =
    source (3 + 8 * n) (2 ^ n) (2 ^ n)
      (if ltb n 4 then sfr_tcon else if n == 4 then sfr_scon else sfr_t2con)
      (if ltb n 4 then tcon_flag n else if n == 4 then 0 else 7) (ltb n 4)

abbrev pub entries_from : ℕ → ℕ → List IntSource
entries_from i zero = []
entries_from i (suc m) = entry i ∷ entries_from (i + 1) m

pub int_sources-entries_from : int_sources ≡ entries_from 0 6
int_sources-entries_from = refl

at_or_after :
    (c : Cpu) (i k : ℕ)
    → is_ready c i (entry i) ≡ false
    → i ≤ k
    → (i + 1 ≤ k → is_ready c k (entry k) ≡ false)
    → is_ready c k (entry k) ≡ false
at_or_after c i k here low later = elim (Bool-cases (k == i)) [
  | inl e ↦ let same : k ≡ i = ground (arith, e) in ap (λ n. is_ready c n (entry n)) same ∙ here
  | inr e ↦ later (ground (arith, e, low))
]

-- The loop takes the first entry that is ready.
pub poll_entries :
    (c : Cpu) (m i : ℕ)
    → ((n : ℕ) × (n < i + m)
        × (is_ready c n (entry n) ≡ true)
        × ((k : ℕ) → i ≤ k → k < n → is_ready c k (entry k) ≡ false)
        × (poll_sources c i (entries_from i m) ≡ accept c (entry n)))
      ⊎ (((k : ℕ) → i ≤ k → k < i + m → is_ready c k (entry k) ≡ false)
          × (poll_sources c i (entries_from i m) ≡ c))
unfolding poll_sources
poll_entries c zero i = inr (λ k p q. absurd (omega arith), refl)
poll_entries c (suc m) i = elim (Bool-cases (is_ready c i (entry i))) [
  | inl r ↦ inl (i, omega arith, r, λ k p q. absurd (omega arith), rw r refl)
  | inr r ↦ elim (poll_entries c m (i + 1)) [
    | inl (n, low, ready, before, same) ↦ inl (
      n,
      omega (arith, low),
      ready,
      λ k p q. at_or_after c i k r p (λ h. before k h q),
      rw r same,
    )
    | inr (missed, same) ↦
        inr (λ k p q. at_or_after c i k r p (λ h. missed k h (omega (arith, q))), rw r same)
  ]
]

digit_at : (k x : ℕ) → k < 8 → nonzero (x / 2 ^ k % 2) ≡ (bit_at k x == 1)
digit_at k x h = ground (arith, bit_at_lem k x)

low_mask_table : all_below 256 (λ x. bit_and x 0x03 == x % 4) ≡ true
unfolding all_below
low_mask_table = refl

high_mask_table : all_below 256 (λ x. bit_and x 0xC0 == x / 64 * 64) ≡ true
unfolding all_below
high_mask_table = refl

low_pair : (x : ℕ) → x < 256 → nonzero (bit_and x 0x03) ≡ (bit_at 0 x == 1) || (bit_at 1 x == 1)
unfolding bit_at
low_pair x h = ground (arith, all_below_sound 256 _ x low_mask_table h)

high_pair : (x : ℕ) → x < 256 → nonzero (bit_and x 0xC0) ≡ (bit_at 6 x == 1) || (bit_at 7 x == 1)
unfolding bit_at
high_pair x h = ground (arith, all_below_sound 256 _ x high_mask_table h)

flag_set-entry : (c : Cpu) (n : ℕ) → IsValid c → n < 6 → flag_set c n (entry n) ≡ requested c n
unfolding flag_set
flag_set-entry c zero v h = digit_at 1 (c.sfr sfr_tcon) (omega arith)
flag_set-entry c (suc zero) v h = digit_at 5 (c.sfr sfr_tcon) (omega arith)
flag_set-entry c (suc (suc zero)) v h = digit_at 3 (c.sfr sfr_tcon) (omega arith)
flag_set-entry c (suc (suc (suc zero))) v h = digit_at 7 (c.sfr sfr_tcon) (omega arith)
flag_set-entry c (suc (suc (suc (suc zero)))) v h = low_pair (c.sfr sfr_scon) (v.sfr_bytes sfr_scon)
flag_set-entry c (suc (suc (suc (suc (suc zero))))) v h =
    high_pair (c.sfr sfr_t2con) (v.sfr_bytes sfr_t2con)
flag_set-entry c (suc (suc (suc (suc (suc (suc n)))))) v h = absurd (omega (arith, h))

pub is_ready-entry : (c : Cpu) (n : ℕ) → IsValid c → n < 6 → is_ready c n (entry n) ≡ is_due c n
unfolding is_ready is_blocked is_high
is_ready-entry c n v h = grind (
  arith,
  nonzero-bit_and n (c.sfr sfr_ie),
  nonzero-bit_and n (c.sfr sfr_ip),
  flag_set-entry c n v h,
)

pub high_level-entry : (c : Cpu) (n : ℕ) → is_high c (entry n) ≡ at_high_level c n
unfolding is_high
high_level-entry c n = nonzero-bit_and n (c.sfr sfr_ip)

-- ===== src/Avr/Sreg/Fields.antt =====
-- The digits of the status register that the flag helpers of src/avr/avr_decode.c build.
use uc_vm.Common.{
  ℕ, ◌+◌, ◌*◌, ◌/◌, ◌%◌, ◌<◌, ◌≡◌, ◌∙◌, refl, ap, arith, Bool, true, xor, bit_and, if◌then◌else◌,
  ◌==◌, ==_iff, bit_at, all_below, all_below_sound,
}
use uc_vm.Avr.Flags.{flag, hvnzcs}

keep_ti_table : all_below 256 (λ x. bit_and x 0xC0 == x / 64 * 64) ≡ true
unfolding all_below
keep_ti_table = refl

-- `sreg & (SREG_T | SREG_I)`.
pub bit_and_ti : (x : ℕ) → x < 256 → bit_and x 0xC0 ≡ x / 64 * 64
bit_and_ti x h = (==_iff _ _).0 (all_below_sound 256 _ x keep_ti_table h)

-- C's truth value.
abbrev pub bit : Bool → ℕ
bit b = if b then 1 else 0

-- What the flags of an operation are, T and I being those of `old`.
pub record FlagsAre (old sreg : ℕ) (h s v n z cy : Bool) : Type 0 where
  pub flag_c : bit_at 0 sreg ≡ bit cy
  pub flag_z : bit_at 1 sreg ≡ bit z
  pub flag_n : bit_at 2 sreg ≡ bit n
  pub flag_v : bit_at 3 sreg ≡ bit v
  pub flag_s : bit_at 4 sreg ≡ bit s
  pub flag_h : bit_at 5 sreg ≡ bit h
  pub flag_t : bit_at 6 sreg ≡ bit_at 6 old
  pub flag_i : bit_at 7 sreg ≡ bit_at 7 old

pub hvnzcs-FlagsAre :
    (old : ℕ) (h v n z cy : Bool)
    → old < 256
    → FlagsAre old ((bit_and old 0xC0 + hvnzcs h v n z cy) % 256) h (xor n v) v n z cy
unfolding hvnzcs flag bit_at
hvnzcs-FlagsAre old h v n z cy lt = record {
  flag_c = ground (arith, bit_and_ti old lt);
  flag_z = ground (arith, bit_and_ti old lt);
  flag_n = ground (arith, bit_and_ti old lt);
  flag_v = ground (arith, bit_and_ti old lt);
  flag_s = ground (arith, bit_and_ti old lt);
  flag_h = ground (arith, bit_and_ti old lt);
  flag_t = ground (arith, bit_and_ti old lt);
  flag_i = ground (arith, bit_and_ti old lt);
}

pub FlagsAre-cong :
    {old sreg : ℕ} {h s v n z cy h' s' v' z' cy' : Bool}
    → h ≡ h'
    → s ≡ s'
    → v ≡ v'
    → z ≡ z'
    → cy ≡ cy'
    → FlagsAre old sreg h s v n z cy
    → FlagsAre old sreg h' s' v' n z' cy'
FlagsAre-cong eh es ev ez ec f = record {
  flag_c = f.flag_c ∙ ap bit ec;
  flag_z = f.flag_z ∙ ap bit ez;
  flag_n = f.flag_n;
  flag_v = f.flag_v ∙ ap bit ev;
  flag_s = f.flag_s ∙ ap bit es;
  flag_h = f.flag_h ∙ ap bit eh;
  flag_t = f.flag_t;
  flag_i = f.flag_i;
}

-- The flags make up the register.
pub FlagsAre-value :
    {old sreg : ℕ} {h s v n z cy : Bool}
    → old < 256
    → sreg < 256
    → FlagsAre old sreg h s v n z cy
    → sreg ≡ old / 64 * 64 + bit cy + bit z * 2 + bit n * 4 + bit v * 8 + bit s * 16 + bit h * 32
unfolding bit_at
FlagsAre-value ho hs f =
    omega (
      arith, ho, hs, f.flag_c, f.flag_z, f.flag_n, f.flag_v, f.flag_s, f.flag_h, f.flag_t, f.flag_i,
    )

-- T and I alone.
pub FlagsAre-high :
    {old sreg : ℕ} {h s v n z cy : Bool}
    → old < 256
    → sreg < 256
    → FlagsAre old sreg h s v n z cy
    → sreg / 64 ≡ old / 64
unfolding bit_at
FlagsAre-high ho hs f = omega (arith, ho, hs, f.flag_t, f.flag_i)

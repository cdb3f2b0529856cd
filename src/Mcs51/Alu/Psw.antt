-- ===== src/Mcs51/Alu/Psw.antt =====
-- The program status word as a number: what the setters of a flag make of it.
use uc_vm.Common.{
  ℕ, ◌+◌, ◌*◌, ◌/◌, ◌%◌, ◌^◌, ◌<◌, ◌≡◌, arith, Bool, true, false, if◌then◌else◌, bit_or-pow,
  bit_and-clear, bit_and-pow, above, below,
}
use uc_vm.Mcs51.Cpu.{Cpu, psw, set_sfr}
use uc_vm.Mcs51.Decode.Flags.{
  put_mask, set_cy, set_ac, set_ov, get_cy, do_add, do_subb, add_cy, add_ac, add_ov, sub_cy, sub_ac,
  sub_ov,
}

-- A truth value as a bit.
abbrev pub to_bit : Bool → ℕ
to_bit b = if b then 1 else 0

pub put_mask-pow :
    (x k : ℕ) (v : Bool)
    → x < 256
    → k < 8
    → put_mask x (2 ^ k) v ≡ above x k + to_bit v * 2 ^ k + below x k
unfolding put_mask
put_mask-pow x k true hx hk = omega (arith, bit_or-pow x k hx hk)
put_mask-pow x k false hx hk = omega (arith, bit_and-clear x k hx hk)

-- The flags of PSW, as bits.
abbrev pub cy : Cpu → ℕ
cy c = psw c / 128

abbrev pub ac : Cpu → ℕ
ac c = psw c / 64 % 2

abbrev pub ov : Cpu → ℕ
ov c = psw c / 4 % 2

pub psw-set_cy :
    (c : Cpu) (v : Bool) → psw c < 256 → psw (set_cy c v) ≡ to_bit v * 128 + psw c % 128
unfolding set_cy set_sfr
psw-set_cy c v h = ground (arith, put_mask-pow (psw c) 7 v)

pub psw-set_ac :
    (c : Cpu) (v : Bool)
    → psw c < 256
    → psw (set_ac c v) ≡ psw c / 128 * 128 + to_bit v * 64 + psw c % 64
unfolding set_ac set_sfr
psw-set_ac c v h = ground (arith, put_mask-pow (psw c) 6 v)

pub psw-set_ov :
    (c : Cpu) (v : Bool) → psw c < 256 → psw (set_ov c v) ≡ psw c / 8 * 8 + to_bit v * 4 + psw c % 4
unfolding set_ov set_sfr
psw-set_ov c v h = ground (arith, put_mask-pow (psw c) 2 v)

pub get_cy_lem : (c : Cpu) → psw c < 256 → get_cy c ≡ cy c
unfolding get_cy
get_cy_lem c h = ground (arith, bit_and-pow (psw c) 7)

-- Three flags set together.
abbrev pub with_flags : ℕ → Bool → Bool → Bool → ℕ
with_flags x c a o = to_bit c * 128 + to_bit a * 64 + x / 8 % 8 * 8 + to_bit o * 4 + x % 4

set_flags_psw :
    (c : Cpu) (p q r : Bool)
    → psw c < 256
    → psw (set_ov (set_ac (set_cy c p) q) r) ≡ with_flags (psw c) p q r
set_flags_psw c p q r h =
    ground (arith, psw-set_cy c p, psw-set_ac (set_cy c p) q, psw-set_ov (set_ac (set_cy c p) q) r)

pub psw-do_add :
    (c : Cpu) (a b k : ℕ)
    → psw c < 256
    → psw (do_add c a b k).1 ≡ with_flags (psw c) (add_cy a b k) (add_ac a b k) (add_ov a b k)
unfolding do_add
psw-do_add c a b k h = set_flags_psw c (add_cy a b k) (add_ac a b k) (add_ov a b k) h

pub psw-do_subb :
    (c : Cpu) (a b k : ℕ)
    → psw c < 256
    → psw (do_subb c a b k).1 ≡ with_flags (psw c) (sub_cy a b k) (sub_ac a b k) (sub_ov a b k)
unfolding do_subb
psw-do_subb c a b k h = set_flags_psw c (sub_cy a b k) (sub_ac a b k) (sub_ov a b k) h

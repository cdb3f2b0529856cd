-- ===== src/Mcs51/Alu/Decimal.antt =====
-- Decimal arithmetic: ADD or ADDC followed by DA, on bytes that hold two decimal digits.
use uc_vm.Common.{
  ℕ, ◌+◌, ◌*◌, ◌/◌, ◌%◌, ◌≤◌, ◌<◌, ◌≡◌, refl, arith, Bool, if◌then◌else◌, nonzero, ltb, ◌||◌,
  bit_or-pow, bit_and-pow, bit_and_high_nibble, u8, bit_or,
}
use uc_vm.Mcs51.Cpu.{Cpu, psw, acc, set_sfr, set_pc}
use uc_vm.Mcs51.Decode.Flags.{do_add, set_acc, advance}
use uc_vm.Mcs51.Decode.Arith.{da_add, op_da_a}
use uc_vm.Mcs51.Alu.Psw.{to_bit, cy, ac, psw-do_add}
use uc_vm.Mcs51.Alu.Add.{do_add_flags}

-- What DA makes of the accumulator `a`, with AC and CY as truth values: the low digit is
-- corrected by 6 and then the high digit by 0x60.
abbrev da_low : ℕ → Bool → ℕ
da_low a half = if ltb 9 (a % 16) || half then a + 6 else a

abbrev da_high : ℕ → Bool → ℕ
da_high a1 carry = if ltb 9 (a1 / 16 % 16) || (carry || ltb 255 a1) then a1 + 0x60 else a1

op_da_a_lem :
    (c : Cpu) (a : ℕ) (half carry : Bool)
    → psw c < 256
    → a < 256
    → acc c ≡ a
    → ac c ≡ to_bit half
    → cy c ≡ to_bit carry
    → let a1 = da_low a half in
      let a2 = da_high a1 carry in
      let e = (op_da_a c).1 in
      (acc e ≡ a2 % 256) × (cy e ≡ to_bit (carry || ltb 255 a1 || ltb 255 a2))
unfolding op_da_a da_add set_sfr set_acc advance set_pc
op_da_a_lem c a half carry hp ha e1 e2 e3 = ground (
  arith,
  bit_and-pow (psw c) 6,
  bit_and-pow (psw c) 7,
  bit_or-pow (psw c) 7,
  bit_and-pow (u8 (bit_or (psw c) 128)) 7,
  bit_or-pow (u8 (bit_or (psw c) 128)) 7,
  bit_and_high_nibble (acc c),
  bit_and_high_nibble (acc c + 6),
)

-- A byte of two decimal digits, and the number that it stands for.
pub record IsBcd (a : ℕ) : Type 0 where
  pub low_digit : a % 16 ≤ 9
  pub high_digit : a / 16 ≤ 9

abbrev pub bcd : ℕ → ℕ
bcd a = a / 16 * 10 + a % 16

-- DA on the number that ADD leaves, with the carries as numbers.
da_sum :
    (a b k : ℕ)
    → IsBcd a
    → IsBcd b
    → k ≤ 1
    → let s = a + b + k in
      let half = nonzero ((a % 16 + b % 16 + k) / 16) in
      let carry = nonzero (s / 256) in
      let a1 = da_low (s % 256) half in
      let a2 = da_high a1 carry in
      IsBcd (a2 % 256)
      × (bcd (a2 % 256) + 100 * to_bit (carry || ltb 255 a1 || ltb 255 a2) ≡ bcd a + bcd b + k)
da_sum a b k ha hb hk =
    (record { low_digit = ground arith; high_digit = ground arith }, ground arith)

do_add-lt :
    (c : Cpu) (a b k : ℕ)
    → psw c < 256
    → (psw (do_add c a b k).1 < 256) × ((do_add c a b k).0 < 256)
unfolding do_add
do_add-lt c a b k hp = ground (arith, psw-do_add c a b k hp)

psw-set_acc : (c : Cpu) (v : ℕ) → psw (set_acc c v) ≡ psw c
unfolding set_acc set_sfr
psw-set_acc c v = refl

acc-set_acc : (c : Cpu) (v : ℕ) → acc (set_acc c v) ≡ v % 256
unfolding set_acc set_sfr
acc-set_acc c v = refl

-- With PSW a byte, adding two bytes of two decimal digits with a carry by do_add and adjusting
-- by DA leaves two decimal digits in A, which with the hundred in CY are the decimal sum.
pub do_add-op_da_a :
    (c : Cpu) (a b k : ℕ)
    → psw c < 256
    → IsBcd a
    → IsBcd b
    → k ≤ 1
    → let (v, d) = do_add c a b k in
      let e = (op_da_a (set_acc d v)).1 in
      IsBcd (acc e) × (bcd (acc e) + 100 * cy e ≡ bcd a + bcd b + k)
do_add-op_da_a c a b k hp ha hb hk =
    let s = a + b + k in
    let half = nonzero ((a % 16 + b % 16 + k) / 16) in
    let carry = nonzero (s / 256) in
    let (v, d) = do_add c a b k in
    let flags = do_add_flags c a b k hp (omega arith) (omega arith) hk in
    let small = do_add-lt c a b k hp in
    let da =
      op_da_a_lem (set_acc d v) (s % 256) half carry (rw psw-set_acc small.0) (omega arith)
        (rw acc-set_acc (omega (arith, flags.0, small.1)))
        (rw psw-set_acc (ground (arith, flags.1)))
        (rw psw-set_acc (ground (arith, flags.0, small.1))) in
    rw (da.0, da.1) (da_sum a b k ha hb hk)

-- ===== src/Avr/Sreg/Carries.antt =====
-- The carries and borrows that the flag helpers of src/avr/avr_decode.c compute digit by digit.
use uc_vm.Common.{
  ℕ, ◌+◌, ◌-◌, ◌/◌, ◌%◌, ◌<◌, ◌≡◌, arith, bit_and, bit_or, bit_xor, ltb, ◌==◌, bit_at, bit_at-lt,
  bit_at-bit_and, bit_at-bit_or, bit_at-bit_xor,
}
use Prim.Native.Nat.{min}
use uc_vm.Avr.Flags.{carries, borrows, bit7}

-- Digits 7 and 3 as quotients.
pub bit_at_7 : (x : ℕ) → x < 256 → bit_at 7 x ≡ x / 128
unfolding bit_at
bit_at_7 x h = omega (arith, h)

pub bit_at_3 : (x : ℕ) → bit_at 3 x ≡ x % 16 / 8
unfolding bit_at
bit_at_3 x = omega arith

bit_at-carries :
    (k rd rr r : ℕ)
    → bit_at k (carries rd rr r) ≡ (bit_at k rd + bit_at k rr + bit_at k (255 - r)) / 2
unfolding carries
bit_at-carries k rd rr r = omega (
  arith,
  bit_at-bit_or k (bit_or (bit_and rd rr) (bit_and rr (255 - r))) (bit_and (255 - r) rd),
  bit_at-bit_or k (bit_and rd rr) (bit_and rr (255 - r)),
  bit_at-bit_and k rd rr,
  bit_at-bit_and k rr (255 - r),
  bit_at-bit_and k (255 - r) rd,
  bit_at-lt k rd,
  bit_at-lt k rr,
  bit_at-lt k (255 - r),
)

bit_at-borrows :
    (k rd rr r : ℕ)
    → bit_at k (borrows rd rr r) ≡ (bit_at k (255 - rd) + bit_at k rr + bit_at k r) / 2
unfolding borrows
bit_at-borrows k rd rr r = omega (
  arith,
  bit_at-bit_or k (bit_or (bit_and (255 - rd) rr) (bit_and rr r)) (bit_and r (255 - rd)),
  bit_at-bit_or k (bit_and (255 - rd) rr) (bit_and rr r),
  bit_at-bit_and k (255 - rd) rr,
  bit_at-bit_and k rr r,
  bit_at-bit_and k r (255 - rd),
  bit_at-lt k (255 - rd),
  bit_at-lt k rr,
  bit_at-lt k r,
)

-- The sum of bytes carries out of digit 7 exactly where it leaves the byte, and out of digit 3
-- where the low nibbles do.
pub carries_7 :
    (rd rr cin : ℕ)
    → rd < 256
    → rr < 256
    → cin < 2
    → bit_at 7 (carries rd rr ((rd + rr + cin) % 256)) ≡ (rd + rr + cin) / 256
carries_7 rd rr cin h k l =
    let r = (rd + rr + cin) % 256 in
    omega (
      arith,
      bit_at-carries 7 rd rr r,
      bit_at_7 rd h,
      bit_at_7 rr k,
      bit_at_7 (255 - r) (omega arith),
      l,
    )

pub carries_3 :
    (rd rr cin : ℕ)
    → rd < 256
    → rr < 256
    → cin < 2
    → bit_at 3 (carries rd rr ((rd + rr + cin) % 256)) ≡ (rd % 16 + rr % 16 + cin) / 16
carries_3 rd rr cin h k l =
    let r = (rd + rr + cin) % 256 in
    let low : (255 - r) % 16 ≡ 15 - (rd % 16 + rr % 16 + cin) % 16 = omega arith in
    omega (arith, bit_at-carries 3 rd rr r, bit_at_3 rd, bit_at_3 rr, bit_at_3 (255 - r), low, l)

-- A difference of bytes borrows into digit 7 exactly where it goes below zero, and into digit 3
-- where the difference of the low nibbles does.
pub borrows_7 :
    (rd rr cin : ℕ)
    → rd < 256
    → rr < 256
    → cin < 2
    → bit_at 7 (borrows rd rr ((rd + 512 - rr - cin) % 256)) ≡ 1 - (rd + 256 - rr - cin) / 256
borrows_7 rd rr cin h k l =
    let r = (rd + 512 - rr - cin) % 256 in
    omega (
      arith,
      bit_at-borrows 7 rd rr r,
      bit_at_7 (255 - rd) (omega arith),
      bit_at_7 rr k,
      bit_at_7 r (omega arith),
      l,
    )

pub borrows_3 :
    (rd rr cin : ℕ)
    → rd < 256
    → rr < 256
    → cin < 2
    → bit_at 3 (borrows rd rr ((rd + 512 - rr - cin) % 256))
      ≡ 1 - (rd % 16 + 16 - rr % 16 - cin) / 16
borrows_3 rd rr cin h k l =
    let r = (rd + 512 - rr - cin) % 256 in
    let low : r % 16 ≡ (rd % 16 + 32 - rr % 16 - cin) % 16 = omega arith in
    let comp : (255 - rd) % 16 ≡ 15 - rd % 16 = omega arith in
    omega
      (arith, bit_at-borrows 3 rd rr r, bit_at_3 (255 - rd), bit_at_3 rr, bit_at_3 r, low, comp, l)

-- Digit 7 of the expressions for the overflow.
pub overflow_7 :
    (x y z w : ℕ)
    → x < 256
    → y < 256
    → z < 256
    → w < 256
    → bit_at 7 (bit_and (bit_xor x y) (bit_xor z w))
      ≡ min ((x / 128 + y / 128) % 2) ((z / 128 + w / 128) % 2)
overflow_7 x y z w hx hy hz hw = omega (
  arith,
  bit_at-bit_and 7 (bit_xor x y) (bit_xor z w),
  bit_at-bit_xor 7 x y,
  bit_at-bit_xor 7 z w,
  bit_at_7 x hx,
  bit_at_7 y hy,
  bit_at_7 z hz,
  bit_at_7 w hw,
)

-- `bit7` tests digit 7.
pub bit7_digit : (x : ℕ) → bit7 x ≡ (bit_at 7 x == 1)
unfolding bit7 bit_at
bit7_digit x = ground arith

pub bit7_of : (x : ℕ) → x < 256 → bit7 x ≡ ltb 127 x
unfolding bit7
bit7_of x h = ground (arith, h)

-- ===== src/Common/Bits.antt =====
-- Bit operations on bytes as arithmetic, which `omega` reads. Each law is checked at every value.
use Prim.Native.Nat.{ℕ, zero, suc, ◌+◌, ◌-◌, ◌*◌, ◌/◌, ◌%◌, ◌^◌, ◌<◌, bit_and, bit_or}
use mathlib.Core.Path.{◌≡◌, refl}
use mathlib.Core.Bool.{Bool, true, ◌&&◌}
use native.Mathlib.Omega.{arith}
use uc_vm.Common.Tests.{◌==◌, ==_iff}

-- Every number below the bound passes the test.
unfoldable pub all_below : ℕ → (ℕ → Bool) → Bool
all_below zero test = true
all_below (suc bound) test = all_below bound test && test bound

-- What a computed table says of one number.
pub all_below_sound :
    (bound : ℕ) (test : ℕ → Bool) (m : ℕ) → all_below bound test ≡ true → m < bound → test m ≡ true
unfolding all_below
all_below_sound zero test m passed small = absurd (omega (arith, small))
all_below_sound (suc bound) test m passed small =
    let earlier = all_below_sound bound test m in ground (arith, passed, small, earlier)

-- Two functions that agree at every byte and every bit position agree.
abbrev agree_table : (ℕ → ℕ → ℕ) → (ℕ → ℕ → ℕ) → Bool
agree_table f g = all_below 8 (λ k. all_below 256 (λ x. f x k == g x k))

agree_on_bits :
    (f g : ℕ → ℕ → ℕ) → agree_table f g ≡ true → (x k : ℕ) → x < 256 → k < 8 → f x k ≡ g x k
agree_on_bits f g t x k hx hk = (==_iff _ _).0 (
    all_below_sound 256 (λ y. f y k == g y k) x
      (all_below_sound 8 (λ j. all_below 256 (λ y. f y j == g y j)) k t hk) hx)

-- The bits of `x` above position `k`, and those below.
abbrev pub above : ℕ → ℕ → ℕ
above x k = x / 2 ^ (k + 1) * 2 ^ (k + 1)

abbrev pub below : ℕ → ℕ → ℕ
below x k = x % 2 ^ k

or_bit_table : agree_table (λ x k. bit_or x (2 ^ k)) (λ x k. above x k + 2 ^ k + below x k) ≡ true
unfolding all_below
or_bit_table = refl

-- Setting a bit.
pub bit_or-pow : (x k : ℕ) → x < 256 → k < 8 → bit_or x (2 ^ k) ≡ above x k + 2 ^ k + below x k
bit_or-pow = agree_on_bits _ _ or_bit_table

clear_bit_table : agree_table (λ x k. bit_and x (255 - 2 ^ k)) (λ x k. above x k + below x k) ≡ true
unfolding all_below
clear_bit_table = refl

-- Clearing a bit.
pub bit_and-clear : (x k : ℕ) → x < 256 → k < 8 → bit_and x (255 - 2 ^ k) ≡ above x k + below x k
bit_and-clear = agree_on_bits _ _ clear_bit_table

test_bit_table : agree_table (λ x k. bit_and x (2 ^ k)) (λ x k. x / 2 ^ k % 2 * 2 ^ k) ≡ true
unfolding all_below
test_bit_table = refl

-- Testing a bit.
pub bit_and-pow : (x k : ℕ) → x < 256 → k < 8 → bit_and x (2 ^ k) ≡ x / 2 ^ k % 2 * 2 ^ k
bit_and-pow = agree_on_bits _ _ test_bit_table

high_nibble_table : all_below 512 (λ x. bit_and x 0xF0 == x / 16 % 16 * 16) ≡ true
unfolding all_below
high_nibble_table = refl

pub bit_and_high_nibble : (x : ℕ) → x < 512 → bit_and x 0xF0 ≡ x / 16 % 16 * 16
bit_and_high_nibble x h = (==_iff _ _).0 (all_below_sound 512 _ x high_nibble_table h)

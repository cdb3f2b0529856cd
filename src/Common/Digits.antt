-- ===== src/Common/Digits.antt =====
-- The binary digits of `bit_and`, `bit_or` and `bit_xor` at variables, from the recursion on
-- digits that the native operations stand for.
use uc_vm.Common.Tests.{nonzero, ◌==◌, if◌then◌else◌}
use uc_vm.Common.Bits.{all_below, all_below_sound}
use Prim.Native.Nat.{
  ℕ, zero, suc, ◌+◌, ◌-◌, ◌*◌, ◌/◌, ◌%◌, ◌^◌, ◌≤◌, ◌<◌, min, max, differ, digits, bit_and, bit_or,
  bit_xor, bit_and-bitwise, bit_or-bitwise, bit_xor-bitwise,
}
use mathlib.Core.Bool.{Bool, true, not, ◌&&◌}
use mathlib.Core.Path.{◌≡◌, refl, sym, ap, ◌∙◌}
use native.Mathlib.Omega.{arith}
use native.Mathlib.Nat.{mul_assoc, div-div-eq-div-mul}

-- Digit `k`.
unfoldable pub bit_at : ℕ → ℕ → ℕ
bit_at zero x = x % 2
bit_at (suc k) x = bit_at k (x / 2)

-- Fuel beyond the first number changes nothing.
digits_enough :
    (z : ℕ → ℕ) (f : ℕ → ℕ → ℕ) (n m a b : ℕ) → a ≤ n → a ≤ m → digits z f n a b ≡ digits z f m a b
digits_enough z f zero zero a b p q = refl
digits_enough z f zero (suc m) zero b p q = refl
digits_enough z f (suc n) zero zero b p q = refl
digits_enough z f (suc n) (suc m) zero b p q = refl
digits_enough z f zero (suc m) (suc a) b p q = absurd (omega (arith, p))
digits_enough z f (suc n) zero (suc a) b p q = absurd (omega (arith, q))
digits_enough z f (suc n) (suc m) (suc a) b p q =
    ap (λ t. t * 2 + f (suc a % 2) (b % 2))
      (digits_enough z f n m (suc a / 2) (b / 2) (omega (arith, p)) (omega (arith, q)))

-- Halving the first number gives the digits above the lowest.
digits-suc :
    (z : ℕ → ℕ) (f : ℕ → ℕ → ℕ) (a b : ℕ)
    → digits z f (suc a) (suc a) b
      ≡ digits z f (suc a / 2) (suc a / 2) (b / 2) * 2 + f (suc a % 2) (b % 2)
digits-suc z f a b =
    ap (λ t. t * 2 + f (suc a % 2) (b % 2))
      (digits_enough z f a (suc a / 2) (suc a / 2) (b / 2) (omega arith) (omega arith))

bit_and_halves : (a b : ℕ) → bit_and a b ≡ bit_and (a / 2) (b / 2) * 2 + min (a % 2) (b % 2)
bit_and_halves zero b = omega (arith, bit_and-bitwise 0 b, bit_and-bitwise 0 (b / 2))
bit_and_halves (suc a) b = omega (
  arith,
  bit_and-bitwise (suc a) b,
  bit_and-bitwise (suc a / 2) (b / 2),
  digits-suc (λ y. zero) min a b,
)

bit_or_halves : (a b : ℕ) → bit_or a b ≡ bit_or (a / 2) (b / 2) * 2 + max (a % 2) (b % 2)
bit_or_halves zero b = omega (arith, bit_or-bitwise 0 b, bit_or-bitwise 0 (b / 2))
bit_or_halves (suc a) b = omega (
  arith,
  bit_or-bitwise (suc a) b,
  bit_or-bitwise (suc a / 2) (b / 2),
  digits-suc (λ y. y) max a b,
)

-- `x ^ y` of two digits, as `omega` reads it.
differ_digits : (x y : ℕ) → x < 2 → y < 2 → differ x y ≡ (x + y) % 2
differ_digits zero zero p q = refl
differ_digits zero (suc zero) p q = refl
differ_digits (suc zero) zero p q = refl
differ_digits (suc zero) (suc zero) p q = refl
differ_digits (suc (suc x)) y p q = absurd (omega (arith, p))
differ_digits x (suc (suc y)) p q = absurd (omega (arith, q))

bit_xor_halves : (a b : ℕ) → bit_xor a b ≡ bit_xor (a / 2) (b / 2) * 2 + (a + b) % 2
bit_xor_halves zero b = omega (arith, bit_xor-bitwise 0 b, bit_xor-bitwise 0 (b / 2))
bit_xor_halves (suc a) b = omega (
  arith,
  bit_xor-bitwise (suc a) b,
  bit_xor-bitwise (suc a / 2) (b / 2),
  digits-suc (λ y. y) differ a b,
  differ_digits (suc a % 2) (b % 2) (omega arith) (omega arith),
)

pub bit_at-bit_and : (k x y : ℕ) → bit_at k (bit_and x y) ≡ min (bit_at k x) (bit_at k y)
unfolding bit_at
bit_at-bit_and zero x y = omega (arith, bit_and_halves x y)
bit_at-bit_and (suc k) x y =
    ap (bit_at k) (omega (arith, bit_and_halves x y)) ∙ bit_at-bit_and k (x / 2) (y / 2)

pub bit_at-bit_or : (k x y : ℕ) → bit_at k (bit_or x y) ≡ max (bit_at k x) (bit_at k y)
unfolding bit_at
bit_at-bit_or zero x y = omega (arith, bit_or_halves x y)
bit_at-bit_or (suc k) x y =
    ap (bit_at k) (omega (arith, bit_or_halves x y)) ∙ bit_at-bit_or k (x / 2) (y / 2)

pub bit_at-bit_xor : (k x y : ℕ) → bit_at k (bit_xor x y) ≡ (bit_at k x + bit_at k y) % 2
unfolding bit_at
bit_at-bit_xor zero x y = omega (arith, bit_xor_halves x y)
bit_at-bit_xor (suc k) x y =
    ap (bit_at k) (omega (arith, bit_xor_halves x y)) ∙ bit_at-bit_xor k (x / 2) (y / 2)

bit_and-zero_right : (n x : ℕ) → x ≤ n → bit_and x 0 ≡ 0
bit_and-zero_right zero zero h = refl
bit_and-zero_right zero (suc x) h = absurd (omega (arith, h))
bit_and-zero_right (suc n) x h =
    omega (arith, bit_and_halves x 0, bit_and-zero_right n (x / 2) (omega (arith, h)))

bit_and_even : (x m : ℕ) → bit_and x (m * 2) ≡ bit_and (x / 2) m * 2
bit_and_even x m =
    let half : m * 2 / 2 ≡ m = omega arith in
    bit_and_halves x (m * 2) ∙ omega (arith, ap (bit_and (x / 2)) half)

pub bit_at-lt : (k x : ℕ) → bit_at k x < 2
unfolding bit_at
bit_at-lt zero x = omega arith
bit_at-lt (suc k) x = bit_at-lt k (x / 2)

-- A mask of one digit tests it.
pub bit_and-mask : (k x : ℕ) → bit_and x (2 ^ k) ≡ bit_at k x * 2 ^ k
unfolding bit_at
bit_and-mask zero x =
    omega (arith, bit_and_halves x 1, bit_and-zero_right (x / 2) (x / 2) (omega arith))
bit_and-mask (suc k) x =
    let double : 2 ^ suc k ≡ 2 ^ k * 2 = omega arith in
    ap (bit_and x) double
    ∙ bit_and_even x (2 ^ k)
    ∙ ap (λ t. t * 2) (bit_and-mask k (x / 2))
    ∙ mul_assoc (bit_at k (x / 2)) (2 ^ k) 2
    ∙ ap (λ t. bit_at k (x / 2) * t) (sym double)

pow_pos : (k : ℕ) → 0 < 2 ^ k
pow_pos zero = omega arith
pow_pos (suc k) = omega (arith, pow_pos k)

-- So does the test of the masked number.
pub nonzero-bit_and : (k x : ℕ) → nonzero (bit_and x (2 ^ k)) ≡ (bit_at k x == 1)
nonzero-bit_and k x = grind (arith, bit_and-mask k x, bit_at-lt k x, pow_pos k)

bit_or_bounds : (n x y : ℕ) → x + y ≤ n → (x ≤ bit_or x y) × (y ≤ bit_or x y)
bit_or_bounds zero x y h = (omega (arith, h), omega (arith, h))
bit_or_bounds (suc n) zero zero h = (omega arith, omega arith)
bit_or_bounds (suc n) (suc x) y h =
    let (p, q) = bit_or_bounds n (suc x / 2) (y / 2) (omega (arith, h)) in
    (omega (arith, p, bit_or_halves (suc x) y), omega (arith, q, bit_or_halves (suc x) y))
bit_or_bounds (suc n) zero (suc y) h =
    let (p, q) = bit_or_bounds n 0 (suc y / 2) (omega (arith, h)) in
    (omega arith, omega (arith, q, bit_or_halves 0 (suc y)))

-- An `or` is 0 where both numbers are.
pub nonzero-bit_or : (x y : ℕ) → nonzero (bit_or x y) ≡ not ((x == 0) && (y == 0))
nonzero-bit_or zero zero = refl
nonzero-bit_or (suc x) y = ground (arith, bit_or_bounds (suc x + y) (suc x) y)
nonzero-bit_or zero (suc y) = ground (arith, bit_or_bounds (suc y) 0 (suc y))

bit_or_zero_right : (n x : ℕ) → x ≤ n → bit_or x 0 ≡ x
bit_or_zero_right zero zero h = refl
bit_or_zero_right zero (suc x) h = absurd (omega (arith, h))
bit_or_zero_right (suc n) x h =
    omega (arith, bit_or_halves x 0, bit_or_zero_right n (x / 2) (omega (arith, h)))

-- An `or` behind a shift puts two numbers beside each other.
pub bit_or-shifted : (k h l : ℕ) → l < 2 ^ k → bit_or (h * 2 ^ k) l ≡ h * 2 ^ k + l
bit_or-shifted zero h zero p = bit_or_zero_right (h * 1) (h * 1) (omega arith) ∙ omega arith
bit_or-shifted zero h (suc l) p = absurd (omega (arith, p))
bit_or-shifted (suc k) h l p =
    let power : 2 ^ suc k ≡ 2 ^ k * 2 = omega arith in
    let double : h * 2 ^ suc k ≡ h * 2 ^ k * 2 =
      ap (λ t. h * t) power ∙ sym (mul_assoc h (2 ^ k) 2) in
    let half : h * 2 ^ k * 2 / 2 ≡ h * 2 ^ k = omega arith in
    ap (λ t. bit_or t l) double
    ∙ bit_or_halves (h * 2 ^ k * 2) l
    ∙ ap (λ t. bit_or t (l / 2) * 2 + max (h * 2 ^ k * 2 % 2) (l % 2)) half
    ∙ omega (arith, bit_or-shifted k h (l / 2) (omega (arith, p)), double)

-- A digit by its place.
pub bit_at_lem : (k x : ℕ) → bit_at k x ≡ x / 2 ^ k % 2
unfolding bit_at
bit_at_lem zero x = omega arith
bit_at_lem (suc k) x =
    let double : 2 * 2 ^ k ≡ 2 ^ suc k = omega arith in
    bit_at_lem k (x / 2) ∙ ap (λ t. t % 2) (div-div-eq-div-mul x 2 (2 ^ k) ∙ ap (λ m. x / m) double)

-- A byte keeps the digits that it has room for.
pub bit_at-u8 : (k x : ℕ) → k < 8 → bit_at k (x % 256) ≡ bit_at k x
unfolding bit_at
bit_at-u8 zero x h = omega arith
bit_at-u8 (suc zero) x h = omega arith
bit_at-u8 (suc (suc zero)) x h = omega arith
bit_at-u8 (suc (suc (suc zero))) x h = omega arith
bit_at-u8 (suc (suc (suc (suc zero)))) x h = omega arith
bit_at-u8 (suc (suc (suc (suc (suc zero))))) x h = omega arith
bit_at-u8 (suc (suc (suc (suc (suc (suc zero)))))) x h = omega arith
bit_at-u8 (suc (suc (suc (suc (suc (suc (suc zero))))))) x h = omega arith
bit_at-u8 (suc (suc (suc (suc (suc (suc (suc (suc k)))))))) x h = absurd (omega (arith, h))

-- The digits of a byte with one digit set, or with one clear.
abbrev power_test : ℕ → ℕ → Bool
unfolding bit_at
power_test k j =
    (bit_at j (2 ^ k) == (if j == k then 1 else 0))
    && (bit_at j (255 - 2 ^ k) == (if j == k then 0 else 1))

power_table : all_below 8 (λ k. all_below 8 (power_test k)) ≡ true
unfolding all_below power_test
power_table = refl

power_digits :
    (k j : ℕ)
    → k < 8
    → j < 8
    → (bit_at j (2 ^ k) ≡ (if j == k then 1 else 0))
      × (bit_at j (255 - 2 ^ k) ≡ (if j == k then 0 else 1))
unfolding power_test
power_digits k j hk hj =
    let row = all_below_sound 8 (λ k. all_below 8 (power_test k)) k power_table hk in
    let passed = all_below_sound 8 (power_test k) j row hj in
    (ground (arith, passed), ground (arith, passed))

-- Setting a digit, and clearing one.
pub bit_at-set :
    (k j x : ℕ) → k < 8 → j < 8 → bit_at j (bit_or x (2 ^ k)) ≡ (if j == k then 1 else bit_at j x)
bit_at-set k j x hk hj =
    bit_at-bit_or j x (2 ^ k) ∙ ground (arith, power_digits k j hk hj, bit_at-lt j x)

pub bit_at-clear :
    (k j x : ℕ)
    → k < 8
    → j < 8
    → bit_at j (bit_and x (255 - 2 ^ k)) ≡ (if j == k then 0 else bit_at j x)
bit_at-clear k j x hk hj =
    bit_at-bit_and j x (255 - 2 ^ k) ∙ ground (arith, power_digits k j hk hj, bit_at-lt j x)

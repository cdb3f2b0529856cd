-- ===== src/Gdb/Digits.antt =====
-- The hexadecimal characters of src/gdb/gdb_stub.c: what is written is read back.
use uc_vm.Common.{
  ℕ, suc, ◌+◌, ◌*◌, ◌/◌, ◌%◌, ◌^◌, ◌≤◌, ◌<◌, ◌≡◌, ◌∙◌, refl, ap, ap₂, arith, none, some, List, [],
  ◌∷◌, ◌++◌, length, bit_or, ◌==◌, ==_iff, true, all_below, all_below_sound,
}
use native.Mathlib.Nat.{mod-eq_of_lt}
use uc_vm.Gdb.Stub.{
  hex_char, hex_val, hex_byte, parse_hex_from, parse_hex, hex_in, hex_pair_in, skip,
}

-- Every element has the property.
abbrev pub All {ℓ} : {A : Type ℓ} → (A → Type 0) → List A → Type 0
All P [] = Unit
All P (x ∷ xs) = P x × All P xs

-- Digits and bytes as characters.
abbrev pub digit_chars : List ℕ → List ℕ
digit_chars [] = []
digit_chars (d ∷ ds) = hex_char d ∷ digit_chars ds

abbrev pub byte_chars : List ℕ → List ℕ
byte_chars [] = []
byte_chars (b ∷ bs) = hex_byte b ++ byte_chars bs

-- The number that digits stand for, the highest first, behind those of `val`.
abbrev pub number_from : ℕ → List ℕ → ℕ
number_from val [] = val
number_from val (d ∷ ds) = number_from (val * 16 + d) ds

pub hex_val-hex_char : (n : ℕ) → n < 16 → hex_val (hex_char n) ≡ some n
unfolding hex_val hex_char
hex_val-hex_char n h = ground (arith, h)

hex_char_pos : (n : ℕ) → 0 < hex_char n
unfolding hex_char
hex_char_pos n = ground arith

shifted_or_table : all_below 256 (λ x. bit_or (x / 16 * 16) (x % 16) == x) ≡ true
unfolding all_below
shifted_or_table = refl

hex_in-hex_char : (m n : ℕ) → n < 16 → hex_in m (hex_char n) ≡ n
hex_in-hex_char m n h = rw (hex_val-hex_char n h, hex_in) refl

-- A byte is the one that its two characters stand for, in a byte or in a wider type.
pub hex_pair_in-hex_byte :
    (m b : ℕ)
    → b < 256
    → 256 < m + 1
    → hex_pair_in m (hex_char (b / 16 % 16)) (hex_char (b % 16)) ≡ b
unfolding hex_pair_in
hex_pair_in-hex_byte m b h k =
    let hi = hex_in-hex_char m (b / 16 % 16) (omega arith) in
    let lo = hex_in-hex_char m (b % 16) (omega arith) in
    let wide : b / 16 % 16 * 16 % m ≡ b / 16 * 16 =
      mod-eq_of_lt (omega (arith, h, k)) ∙ omega (arith, h) in
    ap₂ bit_or (ap (λ t. t * 16 % m) hi ∙ wide) lo
    ∙ ((==_iff _ _).0 (all_below_sound 256 _ b shifted_or_table h))

number_from-ge : (val : ℕ) (ds : List ℕ) → val ≤ number_from val ds
number_from-ge val [] = omega arith
number_from-ge val (d ∷ ds) = omega (arith, number_from-ge (val * 16 + d) ds)

-- A number below 2 ^ 32 is read up to the first other character.
pub parse_hex_from-digits :
    (val n : ℕ) (ds : List ℕ) (c : ℕ) (rest : List ℕ)
    → All (λ d. d < 16) ds
    → hex_val c ≡ none
    → number_from val ds < 2 ^ 32
    → parse_hex_from val n (digit_chars ds ++ (c ∷ rest)) ≡ (number_from val ds, n + length ds)
unfolding parse_hex_from
parse_hex_from-digits val n [] c rest v e h =
    rw (e, parse_hex_from) (ap (λ t. (val, t)) (omega arith))
parse_hex_from-digits val n (d ∷ ds) c rest (p, v) e h =
    let small : val * 16 % 2 ^ 32 ≡ val * 16 =
      mod-eq_of_lt (omega (arith, h, number_from-ge (val * 16 + d) ds)) in
    rw (hex_val-hex_char d p, small, parse_hex_from)
      (parse_hex_from-digits (val * 16 + d) (n + 1) ds c rest v e h
        ∙ ap (λ t. (number_from val (d ∷ ds), t)) (omega arith))

-- The bytes that `hex_byte` writes are taken back.
pub skip-digit_chars :
    (ds : List ℕ) (c : ℕ) (rest : List ℕ)
    → skip (length ds + 1) (digit_chars ds ++ (c ∷ rest)) ≡ rest
skip-digit_chars [] c rest = refl
skip-digit_chars (d ∷ ds) c rest =
    let more : suc (length ds) + 1 ≡ suc (length ds + 1) = omega arith in
    ap (λ k. skip k (digit_chars (d ∷ ds) ++ (c ∷ rest))) more ∙ skip-digit_chars ds c rest

pub parse_hex-digits :
    (ds : List ℕ) (c : ℕ) (rest : List ℕ)
    → All (λ d. d < 16) ds
    → hex_val c ≡ none
    → number_from 0 ds < 2 ^ 32
    → parse_hex (digit_chars ds ++ (c ∷ rest)) ≡ (number_from 0 ds, length ds)
unfolding parse_hex
parse_hex-digits ds c rest v e h =
    parse_hex_from-digits 0 0 ds c rest v e h ∙ ap (λ t. (number_from 0 ds, t)) (omega arith)

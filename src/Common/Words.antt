-- ===== src/Common/Words.antt =====
-- Fixed-width unsigned integers as native numbers: what a store into the C type keeps.
use Prim.Native.Nat.{ℕ, ◌+◌, ◌%◌, ◌^◌, ◌<◌}
use mathlib.Core.Path.{◌≡◌}
use native.Mathlib.Omega.{arith}
use uc_vm.Common.Tests.{◌==◌, if◌then◌else◌, ltb}

-- Conversion to uint8_t.
abbrev pub u8 : ℕ → ℕ
u8 n = n % 256

-- Conversion to uint16_t.
abbrev pub u16 : ℕ → ℕ
u16 n = n % 65536

-- Conversion to uint64_t.
abbrev pub u64 : ℕ → ℕ
u64 n = n % 2 ^ 64

-- A byte array: what each index holds. A uint8_t index is always in range.
abbrev pub Mem8 : Type 0
Mem8 = ℕ → ℕ

-- `m[a] = v`.
abbrev pub update {ℓ} : {A : Type ℓ} → (ℕ → A) → ℕ → A → ℕ → A
update m a v b = if b == a then v else m b

-- `pc + (int8_t)rel`, kept in a uint16_t.
abbrev pub add_rel : ℕ → ℕ → ℕ
add_rel pc rel = u16 (pc + rel + (if ltb rel 128 then 0 else 65280))

pub update_self {ℓ} : {A : Type ℓ} (m : ℕ → A) (a : ℕ) (v : A) → update m a v a ≡ v
update_self m a v = ground arith

pub u8-eq_of_lt : (n : ℕ) → n < 256 → u8 n ≡ n
u8-eq_of_lt n h = omega arith

pub u8-lt : (n : ℕ) → u8 n < 256
u8-lt n = omega arith

pub u16-lt : (n : ℕ) → u16 n < 65536
u16-lt n = omega arith

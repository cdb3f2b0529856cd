-- ===== src/Avr/Decode/Operands.antt =====
-- The operand macros of src/avr/avr_decode.c, on a 16-bit word: bit fields are taken by division,
-- and fields that do not overlap are added.
use uc_vm.Common.{ℕ, ◌+◌, ◌*◌, ◌/◌, ◌%◌, ◌^◌, Bool, if◌then◌else◌, ltb, nonzero}
use uc_vm.Avr.Cpu.{AvrOp, Decoded, op_fault}

unfoldable pub rd5 : ℕ → ℕ
rd5 op = op / 16 % 32

unfoldable pub rr5 : ℕ → ℕ
rr5 op = op / 512 % 2 * 16 + op % 16

unfoldable pub rd4 : ℕ → ℕ
rd4 op = op / 16 % 16 + 16

unfoldable pub k8 : ℕ → ℕ
k8 op = op / 256 % 16 * 16 + op % 16

unfoldable pub k6 : ℕ → ℕ
k6 op = op / 64 % 4 * 16 + op % 16

unfoldable pub rdw2 : ℕ → ℕ
rdw2 op = 24 + op / 16 % 4 * 2

unfoldable pub io6 : ℕ → ℕ
io6 op = op / 512 % 4 * 16 + op % 16

unfoldable pub io5 : ℕ → ℕ
io5 op = op / 8 % 32

unfoldable pub bit3 : ℕ → ℕ
bit3 op = op % 8

unfoldable pub q6 : ℕ → ℕ
q6 op = op / 8192 % 2 * 32 + op / 1024 % 4 * 8 + op % 8

-- The signed offsets of RJMP and RCALL, and of BRBS and BRBC, as numbers of 16 bits.
unfoldable pub k12 : ℕ → ℕ
k12 op = let k = op % 4096 in if ltb k 2048 then k else k + 61440

unfoldable pub k7 : ℕ → ℕ
k7 op = let k = op / 8 % 128 in if ltb k 64 then k else k + 65408

-- `op & (1 << k)`.
unfoldable pub has_bit : ℕ → ℕ → Bool
has_bit op k = nonzero (op / 2 ^ k % 2)

abbrev pub decoded : AvrOp → ℕ → ℕ → Decoded
decoded o x y = record { op = o; a = x; b = y }

-- What an entry is before it is classified.
abbrev pub fault : Decoded
fault = decoded op_fault 0 0

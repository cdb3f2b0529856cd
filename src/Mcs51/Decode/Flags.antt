-- ===== src/Mcs51/Decode/Flags.antt =====
-- The helpers of the decoder: operand fetch, the flags of PSW, addition and subtraction.
use uc_vm.Common.{
  xor, ℕ, ◌+◌, ◌-◌, ◌/◌, ◌%◌, Bool, u8, u16, bit_and, bit_or, if◌then◌else◌, ltb, nonzero,
}
use uc_vm.Mcs51.Cpu.{Cpu, psw, sfr_psw, sfr_acc, set_pc, set_sfr}
use uc_vm.Mcs51.Memory.{code_read}

-- A handler of the dispatch table: `mcs51_op_fn`.
abbrev pub OpFn : Type 0
OpFn = Cpu → ℕ × Cpu

unfoldable pub fetch1 : Cpu → ℕ
fetch1 c = code_read c (u16 (c.pc + 1))

unfoldable pub fetch2 : Cpu → ℕ
fetch2 c = code_read c (u16 (c.pc + 2))

-- `cpu->pc += n`.
unfoldable pub advance : Cpu → ℕ → Cpu
advance c n = set_pc c (c.pc + n)

-- `if (v) x |= mask; else x &= ~mask`.
unfoldable pub put_mask : ℕ → ℕ → Bool → ℕ
put_mask x mask v = if v then bit_or x mask else bit_and x (255 - mask)

unfoldable pub set_cy : Cpu → Bool → Cpu
set_cy c v = set_sfr c sfr_psw (put_mask (psw c) 0x80 v)

unfoldable pub set_ac : Cpu → Bool → Cpu
set_ac c v = set_sfr c sfr_psw (put_mask (psw c) 0x40 v)

unfoldable pub set_ov : Cpu → Bool → Cpu
set_ov c v = set_sfr c sfr_psw (put_mask (psw c) 0x04 v)

unfoldable pub get_cy : Cpu → ℕ
get_cy c = if nonzero (bit_and (psw c) 0x80) then 1 else 0

-- `ACC(cpu) = v`.
unfoldable pub set_acc : Cpu → ℕ → Cpu
set_acc c v = set_sfr c sfr_acc v

-- The carry, the auxiliary carry and the overflow of an addition.
unfoldable pub add_cy : ℕ → ℕ → ℕ → Bool
add_cy a b carry_in = nonzero ((a + b + carry_in) / 256 % 2)

unfoldable pub add_ac : ℕ → ℕ → ℕ → Bool
add_ac a b carry_in = ltb 15 (u8 (a % 16 + b % 16 + carry_in))

unfoldable pub add_ov : ℕ → ℕ → ℕ → Bool
unfolding add_cy
add_ov a b carry_in =
    xor (nonzero (u8 ((a % 128 + b % 128 + carry_in) / 128))) (add_cy a b carry_in)

-- `do_add`.
unfoldable pub do_add : Cpu → ℕ → ℕ → ℕ → ℕ × Cpu
do_add c a b carry_in =
    let c1 = set_cy c (add_cy a b carry_in) in
    let c2 = set_ac c1 (add_ac a b carry_in) in
    (u8 (a + b + carry_in), set_ov c2 (add_ov a b carry_in))

-- `(uint16_t)a - b - borrow_in`.
unfoldable pub sub16 : ℕ → ℕ → ℕ → ℕ
sub16 a b borrow_in = u16 (a + 131072 - b - borrow_in)

unfoldable pub sub_cy : ℕ → ℕ → ℕ → Bool
unfolding sub16
sub_cy a b borrow_in = nonzero (sub16 a b borrow_in / 256 % 2)

unfoldable pub sub_ac : ℕ → ℕ → ℕ → Bool
sub_ac a b borrow_in = ltb (a % 16) (b % 16 + borrow_in)

unfoldable pub sub_ov : ℕ → ℕ → ℕ → Bool
unfolding sub_cy
sub_ov a b borrow_in = xor (ltb (a % 128) (b % 128 + borrow_in)) (sub_cy a b borrow_in)

-- `do_subb`.
unfoldable pub do_subb : Cpu → ℕ → ℕ → ℕ → ℕ × Cpu
unfolding sub16
do_subb c a b borrow_in =
    let c1 = set_cy c (sub_cy a b borrow_in) in
    let c2 = set_ac c1 (sub_ac a b borrow_in) in
    (u8 (sub16 a b borrow_in), set_ov c2 (sub_ov a b borrow_in))

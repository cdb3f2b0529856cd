-- ===== src/Mcs51/Decode/Arith.antt =====
-- Arithmetic instructions: INC, DEC, ADD, ADDC, SUBB, MUL, DIV, DA and INC DPTR.
use uc_vm.Common.{
  ℕ, ◌+◌, ◌*◌, ◌/◌, ◌%◌, true, false, ◌||◌, u8, u16, bit_and, bit_or, if◌then◌else◌, ltb, nonzero,
  ◌==◌,
}
use uc_vm.Mcs51.Cpu.{
  Cpu, acc, psw, reg, reg_b, reg_bank, dptr, sfr_psw, sfr_b, sfr_dpl, sfr_dph, set_sfr, set_iram,
}
use uc_vm.Mcs51.Memory.{direct_read, direct_write, indirect_read, indirect_write}
use uc_vm.Mcs51.Decode.Flags.{
  OpFn, fetch1, advance, set_cy, set_ov, get_cy, set_acc, do_add, do_subb,
}

-- `REG(cpu, n) = v`.
unfoldable pub set_reg : Cpu → ℕ → ℕ → Cpu
set_reg c n v = set_iram c (reg_bank c + n) v

unfoldable pub op_inc_a : OpFn
op_inc_a c = (1, advance (set_acc c (acc c + 1)) 1)

unfoldable pub op_inc_direct : OpFn
op_inc_direct c =
    let addr = fetch1 c in
    let (v, c1) = direct_read c addr in (1, advance (direct_write c1 addr (u8 (v + 1))) 2)

unfoldable pub op_inc_ind : ℕ → OpFn
op_inc_ind i c =
    let addr = reg c i in (1, advance (indirect_write c addr (indirect_read c addr + 1)) 1)

unfoldable pub op_inc_rn : ℕ → OpFn
op_inc_rn n c = (1, advance (set_reg c n (reg c n + 1)) 1)

unfoldable pub op_dec_a : OpFn
op_dec_a c = (1, advance (set_acc c (acc c + 255)) 1)

unfoldable pub op_dec_direct : OpFn
op_dec_direct c =
    let addr = fetch1 c in
    let (v, c1) = direct_read c addr in (1, advance (direct_write c1 addr (u8 (v + 255))) 2)

unfoldable pub op_dec_ind : ℕ → OpFn
op_dec_ind i c =
    let addr = reg c i in (1, advance (indirect_write c addr (indirect_read c addr + 255)) 1)

unfoldable pub op_dec_rn : ℕ → OpFn
op_dec_rn n c = (1, advance (set_reg c n (reg c n + 255)) 1)

-- `ACC(cpu) = do_add(cpu, ACC(cpu), b, carry_in); cpu->pc += n`.
unfoldable pub add_to_acc : Cpu → ℕ → ℕ → ℕ → ℕ × Cpu
add_to_acc c b carry_in n =
    let (v, c1) = do_add c (acc c) b carry_in in (1, advance (set_acc c1 v) n)

unfoldable pub op_add_a_imm : OpFn
unfolding add_to_acc
op_add_a_imm c = add_to_acc c (fetch1 c) 0 2

unfoldable pub op_add_a_direct : OpFn
unfolding add_to_acc
op_add_a_direct c = let (b, c1) = direct_read c (fetch1 c) in add_to_acc c1 b 0 2

unfoldable pub op_add_a_ind : ℕ → OpFn
unfolding add_to_acc
op_add_a_ind i c = add_to_acc c (indirect_read c (reg c i)) 0 1

unfoldable pub op_add_a_rn : ℕ → OpFn
unfolding add_to_acc
op_add_a_rn n c = add_to_acc c (reg c n) 0 1

unfoldable pub op_addc_a_imm : OpFn
unfolding add_to_acc
op_addc_a_imm c = add_to_acc c (fetch1 c) (get_cy c) 2

unfoldable pub op_addc_a_direct : OpFn
unfolding add_to_acc
op_addc_a_direct c = let (b, c1) = direct_read c (fetch1 c) in add_to_acc c1 b (get_cy c1) 2

unfoldable pub op_addc_a_ind : ℕ → OpFn
unfolding add_to_acc
op_addc_a_ind i c = add_to_acc c (indirect_read c (reg c i)) (get_cy c) 1

unfoldable pub op_addc_a_rn : ℕ → OpFn
unfolding add_to_acc
op_addc_a_rn n c = add_to_acc c (reg c n) (get_cy c) 1

-- `ACC(cpu) = do_subb(cpu, ACC(cpu), b, get_cy(cpu)); cpu->pc += n`.
unfoldable pub subb_from_acc : Cpu → ℕ → ℕ → ℕ × Cpu
subb_from_acc c b n = let (v, c1) = do_subb c (acc c) b (get_cy c) in (1, advance (set_acc c1 v) n)

unfoldable pub op_subb_a_imm : OpFn
unfolding subb_from_acc
op_subb_a_imm c = subb_from_acc c (fetch1 c) 2

unfoldable pub op_subb_a_direct : OpFn
unfolding subb_from_acc
op_subb_a_direct c = let (b, c1) = direct_read c (fetch1 c) in subb_from_acc c1 b 2

unfoldable pub op_subb_a_ind : ℕ → OpFn
unfolding subb_from_acc
op_subb_a_ind i c = subb_from_acc c (indirect_read c (reg c i)) 1

unfoldable pub op_subb_a_rn : ℕ → OpFn
unfolding subb_from_acc
op_subb_a_rn n c = subb_from_acc c (reg c n) 1

-- The product in B:A; OV says that B is not 0.
unfoldable pub op_mul_ab : OpFn
op_mul_ab c =
    let result = u16 (acc c * reg_b c) in
    let c1 = set_acc c (result % 256) in
    let c2 = set_sfr c1 sfr_b (result / 256 % 256) in
    let c3 = set_cy c2 false in let c4 = set_ov c3 (nonzero (reg_b c3)) in (4, advance c4 1)

-- A division by 0 sets OV and leaves A and B.
unfoldable pub op_div_ab : OpFn
op_div_ab c =
    let a = acc c in
    let b = reg_b c in
    let c1 = set_cy c false in
    let c2 =
      if b == 0
      then set_ov c1 true
      else set_sfr (set_acc (set_ov c1 false) (a / b)) sfr_b (a % b) in
    (4, advance c2 1)

-- One correction of DA: `a += n; if (a > 0xFF) PSW |= PSW_CY`.
unfoldable pub da_add : Cpu → ℕ → ℕ → ℕ × Cpu
da_add c a n =
    (u16 (a + n), (if ltb 255 (u16 (a + n)) then set_sfr c sfr_psw (bit_or (psw c) 0x80) else c))

unfoldable pub op_da_a : OpFn
op_da_a c =
    let a = acc c in
    let (a1, c1) =
      if ltb 9 (a % 16) || nonzero (bit_and (psw c) 0x40) then da_add c a 0x06 else (a, c) in
    let (a2, c2) =
      if ltb 0x90 (bit_and a1 0xF0) || nonzero (bit_and (psw c1) 0x80)
      then da_add c1 a1 0x60
      else (a1, c1) in
    (1, advance (set_acc c2 a2) 1)

unfoldable pub op_inc_dptr : OpFn
op_inc_dptr c =
    let dp = u16 (dptr c + 1) in
    (2, advance (set_sfr (set_sfr c sfr_dpl (dp % 256)) sfr_dph (dp / 256 % 256)) 1)

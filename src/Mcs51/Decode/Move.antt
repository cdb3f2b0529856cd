-- ===== src/Mcs51/Decode/Move.antt =====
-- Data transfer: MOV, MOVC, MOVX, PUSH, POP, XCH and XCHD.
use uc_vm.Common.{ℕ, ◌+◌, ◌%◌, u16, bit_and, bit_or}
use uc_vm.Mcs51.Cpu.{acc, reg, dptr, sfr_dpl, sfr_dph, set_sfr}
use uc_vm.Mcs51.Memory.{
  direct_read, direct_write, indirect_read, indirect_write, xdata_read, xdata_write, code_read,
  push, pop,
}
use uc_vm.Mcs51.Decode.Flags.{OpFn, fetch1, fetch2, advance, set_acc}
use uc_vm.Mcs51.Decode.Arith.{set_reg}

unfoldable pub op_mov_a_imm : OpFn
op_mov_a_imm c = (1, advance (set_acc c (fetch1 c)) 2)

unfoldable pub op_mov_direct_imm : OpFn
op_mov_direct_imm c = (2, advance (direct_write c (fetch1 c) (fetch2 c)) 3)

unfoldable pub op_mov_ind_imm : ℕ → OpFn
op_mov_ind_imm i c = (1, advance (indirect_write c (reg c i) (fetch1 c)) 2)

unfoldable pub op_mov_rn_imm : ℕ → OpFn
op_mov_rn_imm n c = (1, advance (set_reg c n (fetch1 c)) 2)

-- The source address comes first in the code.
unfoldable pub op_mov_direct_direct : OpFn
op_mov_direct_direct c =
    let src = fetch1 c in
    let dst = fetch2 c in let (v, c1) = direct_read c src in (2, advance (direct_write c1 dst v) 3)

unfoldable pub op_mov_direct_ind : ℕ → OpFn
op_mov_direct_ind i c = (2, advance (direct_write c (fetch1 c) (indirect_read c (reg c i))) 2)

unfoldable pub op_mov_direct_rn : ℕ → OpFn
op_mov_direct_rn n c = (2, advance (direct_write c (fetch1 c) (reg c n)) 2)

unfoldable pub op_mov_dptr_imm : OpFn
op_mov_dptr_imm c = (2, advance (set_sfr (set_sfr c sfr_dph (fetch1 c)) sfr_dpl (fetch2 c)) 3)

unfoldable pub op_mov_ind_direct : ℕ → OpFn
op_mov_ind_direct i c =
    let (v, c1) = direct_read c (fetch1 c) in (2, advance (indirect_write c1 (reg c1 i) v) 2)

unfoldable pub op_mov_rn_direct : ℕ → OpFn
op_mov_rn_direct n c = let (v, c1) = direct_read c (fetch1 c) in (2, advance (set_reg c1 n v) 2)

unfoldable pub op_mov_a_direct : OpFn
op_mov_a_direct c = let (v, c1) = direct_read c (fetch1 c) in (1, advance (set_acc c1 v) 2)

unfoldable pub op_mov_a_ind : ℕ → OpFn
op_mov_a_ind i c = (1, advance (set_acc c (indirect_read c (reg c i))) 1)

unfoldable pub op_mov_a_rn : ℕ → OpFn
op_mov_a_rn n c = (1, advance (set_acc c (reg c n)) 1)

unfoldable pub op_mov_direct_a : OpFn
op_mov_direct_a c = (1, advance (direct_write c (fetch1 c) (acc c)) 2)

unfoldable pub op_mov_ind_a : ℕ → OpFn
op_mov_ind_a i c = (1, advance (indirect_write c (reg c i) (acc c)) 1)

unfoldable pub op_mov_rn_a : ℕ → OpFn
op_mov_rn_a n c = (1, advance (set_reg c n (acc c)) 1)

-- The table is read relative to the next instruction.
unfoldable pub op_movc_a_pc : OpFn
op_movc_a_pc c = let c1 = advance c 1 in (2, set_acc c1 (code_read c1 (u16 (acc c1 + c1.pc))))

unfoldable pub op_movc_a_dptr : OpFn
op_movc_a_dptr c = (2, advance (set_acc c (code_read c (u16 (acc c + dptr c)))) 1)

unfoldable pub op_movx_a_dptr : OpFn
op_movx_a_dptr c = (2, advance (set_acc c (xdata_read c (dptr c))) 1)

unfoldable pub op_movx_a_ind : ℕ → OpFn
op_movx_a_ind i c = (2, advance (set_acc c (xdata_read c (reg c i))) 1)

unfoldable pub op_movx_dptr_a : OpFn
op_movx_dptr_a c = (2, advance (xdata_write c (dptr c) (acc c)) 1)

unfoldable pub op_movx_ind_a : ℕ → OpFn
op_movx_ind_a i c = (2, advance (xdata_write c (reg c i) (acc c)) 1)

unfoldable pub op_push : OpFn
op_push c = let addr = fetch1 c in let (v, c1) = direct_read c addr in (2, advance (push c1 v) 2)

unfoldable pub op_pop : OpFn
op_pop c = let addr = fetch1 c in let (v, c1) = pop c in (2, advance (direct_write c1 addr v) 2)

unfoldable pub op_xch_a_direct : OpFn
op_xch_a_direct c =
    let addr = fetch1 c in
    let (tmp, c1) = direct_read c addr in
    (1, advance (set_acc (direct_write c1 addr (acc c1)) tmp) 2)

unfoldable pub op_xch_a_ind : ℕ → OpFn
op_xch_a_ind i c =
    let addr = reg c i in
    let tmp = indirect_read c addr in (1, advance (set_acc (indirect_write c addr (acc c)) tmp) 1)

unfoldable pub op_xch_a_rn : ℕ → OpFn
op_xch_a_rn n c = let tmp = reg c n in (1, advance (set_acc (set_reg c n (acc c)) tmp) 1)

-- The low nibbles of A and of the byte at @Ri change places.
unfoldable pub op_xchd_a_ind : ℕ → OpFn
op_xchd_a_ind i c =
    let addr = reg c i in
    let mem = indirect_read c addr in
    let a = acc c in
    let c1 = set_acc c (bit_or (bit_and a 0xF0) (mem % 16)) in
    (1, advance (indirect_write c1 addr (bit_or (bit_and mem 0xF0) (a % 16))) 1)

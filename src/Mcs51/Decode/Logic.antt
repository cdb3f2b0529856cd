-- ===== src/Mcs51/Decode/Logic.antt =====
-- Logical instructions: ORL, ANL, XRL, rotations, SWAP, CPL A and CLR A.
use uc_vm.Common.{ℕ, ◌-◌, ◌*◌, ◌/◌, ◌%◌, bit_and, bit_or, bit_xor, nonzero}
use uc_vm.Mcs51.Cpu.{acc, reg}
use uc_vm.Mcs51.Memory.{direct_read, direct_write, indirect_read}
use uc_vm.Mcs51.Decode.Flags.{OpFn, fetch1, fetch2, advance, set_cy, get_cy, set_acc}

unfoldable pub op_rr_a : OpFn
op_rr_a c = (1, advance (set_acc c (bit_or (acc c / 2) (acc c * 128))) 1)

unfoldable pub op_rrc_a : OpFn
op_rrc_a c =
    let a = acc c in
    let cy = get_cy c in
    (1, advance (set_acc (set_cy c (nonzero (a % 2))) (bit_or (a / 2) (cy * 128))) 1)

unfoldable pub op_rl_a : OpFn
op_rl_a c = (1, advance (set_acc c (bit_or (acc c * 2) (acc c / 128))) 1)

unfoldable pub op_rlc_a : OpFn
op_rlc_a c =
    let a = acc c in
    let cy = get_cy c in
    (1, advance (set_acc (set_cy c (nonzero (a / 128 % 2))) (bit_or (a * 2) cy)) 1)

unfoldable pub op_swap_a : OpFn
op_swap_a c = (1, advance (set_acc c (bit_or (acc c * 16) (acc c / 16))) 1)

unfoldable pub op_clr_a : OpFn
op_clr_a c = (1, advance (set_acc c 0) 1)

-- `~ACC` in a uint8_t.
unfoldable pub op_cpl_a : OpFn
op_cpl_a c = (1, advance (set_acc c (255 - acc c)) 1)

-- The six addressing modes of ORL, ANL and XRL, over the operation.
module _ (f : ℕ → ℕ → ℕ) where
  unfoldable pub logic_direct_a : OpFn
  logic_direct_a c =
      let addr = fetch1 c in
      let (v, c1) = direct_read c addr in (1, advance (direct_write c1 addr (f v (acc c1))) 2)

  unfoldable pub logic_direct_imm : OpFn
  logic_direct_imm c =
      let addr = fetch1 c in
      let imm = fetch2 c in
      let (v, c1) = direct_read c addr in (2, advance (direct_write c1 addr (f v imm)) 3)

  unfoldable pub logic_a_imm : OpFn
  logic_a_imm c = (1, advance (set_acc c (f (acc c) (fetch1 c))) 2)

  unfoldable pub logic_a_direct : OpFn
  logic_a_direct c =
      let (v, c1) = direct_read c (fetch1 c) in (1, advance (set_acc c1 (f (acc c1) v)) 2)

  unfoldable pub logic_a_ind : ℕ → OpFn
  logic_a_ind i c = (1, advance (set_acc c (f (acc c) (indirect_read c (reg c i)))) 1)

  unfoldable pub logic_a_rn : ℕ → OpFn
  logic_a_rn n c = (1, advance (set_acc c (f (acc c) (reg c n))) 1)

unfoldable pub op_orl_direct_a : OpFn
unfolding logic_direct_a
op_orl_direct_a = logic_direct_a bit_or

unfoldable pub op_orl_direct_imm : OpFn
unfolding logic_direct_imm
op_orl_direct_imm = logic_direct_imm bit_or

unfoldable pub op_orl_a_imm : OpFn
unfolding logic_a_imm
op_orl_a_imm = logic_a_imm bit_or

unfoldable pub op_orl_a_direct : OpFn
unfolding logic_a_direct
op_orl_a_direct = logic_a_direct bit_or

unfoldable pub op_orl_a_ind : ℕ → OpFn
unfolding logic_a_ind
op_orl_a_ind = logic_a_ind bit_or

unfoldable pub op_orl_a_rn : ℕ → OpFn
unfolding logic_a_rn
op_orl_a_rn = logic_a_rn bit_or

unfoldable pub op_anl_direct_a : OpFn
unfolding logic_direct_a
op_anl_direct_a = logic_direct_a bit_and

unfoldable pub op_anl_direct_imm : OpFn
unfolding logic_direct_imm
op_anl_direct_imm = logic_direct_imm bit_and

unfoldable pub op_anl_a_imm : OpFn
unfolding logic_a_imm
op_anl_a_imm = logic_a_imm bit_and

unfoldable pub op_anl_a_direct : OpFn
unfolding logic_a_direct
op_anl_a_direct = logic_a_direct bit_and

unfoldable pub op_anl_a_ind : ℕ → OpFn
unfolding logic_a_ind
op_anl_a_ind = logic_a_ind bit_and

unfoldable pub op_anl_a_rn : ℕ → OpFn
unfolding logic_a_rn
op_anl_a_rn = logic_a_rn bit_and

unfoldable pub op_xrl_direct_a : OpFn
unfolding logic_direct_a
op_xrl_direct_a = logic_direct_a bit_xor

unfoldable pub op_xrl_direct_imm : OpFn
unfolding logic_direct_imm
op_xrl_direct_imm = logic_direct_imm bit_xor

unfoldable pub op_xrl_a_imm : OpFn
unfolding logic_a_imm
op_xrl_a_imm = logic_a_imm bit_xor

unfoldable pub op_xrl_a_direct : OpFn
unfolding logic_a_direct
op_xrl_a_direct = logic_a_direct bit_xor

unfoldable pub op_xrl_a_ind : ℕ → OpFn
unfolding logic_a_ind
op_xrl_a_ind = logic_a_ind bit_xor

unfoldable pub op_xrl_a_rn : ℕ → OpFn
unfolding logic_a_rn
op_xrl_a_rn = logic_a_rn bit_xor

-- ===== src/Mcs51/Evolve/Opcodes/Rows.antt =====
-- Each row of the dispatch table, by the rules.
use uc_vm.Mcs51.Decode.Arith.{
  op_inc_a, op_inc_direct, op_inc_ind, op_inc_rn, op_dec_a, op_dec_direct, op_dec_ind, op_dec_rn,
  op_add_a_imm, op_add_a_direct, op_add_a_ind, op_add_a_rn, op_addc_a_imm, op_addc_a_direct,
  op_addc_a_ind, op_addc_a_rn, op_subb_a_imm, op_subb_a_direct, op_subb_a_ind, op_subb_a_rn,
  op_mul_ab, op_div_ab, op_da_a, op_inc_dptr,
}
use uc_vm.Mcs51.Decode.Logic.{
  op_rr_a, op_rrc_a, op_rl_a, op_rlc_a, op_swap_a, op_clr_a, op_cpl_a, op_orl_direct_a,
  op_orl_direct_imm, op_orl_a_imm, op_orl_a_direct, op_orl_a_ind, op_orl_a_rn, op_anl_direct_a,
  op_anl_direct_imm, op_anl_a_imm, op_anl_a_direct, op_anl_a_ind, op_anl_a_rn, op_xrl_direct_a,
  op_xrl_direct_imm, op_xrl_a_imm, op_xrl_a_direct, op_xrl_a_ind, op_xrl_a_rn,
}
use uc_vm.Mcs51.Decode.Move.{
  op_mov_a_imm, op_mov_direct_imm, op_mov_ind_imm, op_mov_rn_imm, op_mov_direct_direct,
  op_mov_direct_ind, op_mov_direct_rn, op_mov_dptr_imm, op_mov_ind_direct, op_mov_rn_direct,
  op_mov_a_direct, op_mov_a_ind, op_mov_a_rn, op_mov_direct_a, op_mov_ind_a, op_mov_rn_a,
  op_movc_a_pc, op_movc_a_dptr, op_movx_a_dptr, op_movx_a_ind, op_movx_dptr_a, op_movx_ind_a,
  op_push, op_pop, op_xch_a_direct, op_xch_a_ind, op_xch_a_rn, op_xchd_a_ind,
}
use uc_vm.Mcs51.Decode.Branch.{
  op_nop, op_ajmp, op_ljmp, op_acall, op_lcall, op_ret, op_reti, op_sjmp, op_jmp_a_dptr, op_jc,
  op_jnc, op_jz, op_jnz, op_cjne_a_imm, op_cjne_a_direct, op_cjne_ind_imm, op_cjne_rn_imm,
  op_djnz_direct, op_djnz_rn, op_break,
}
use uc_vm.Mcs51.Decode.Bit.{
  op_jbc, op_jb, op_jnb, op_orl_c_bit, op_orl_c_nbit, op_anl_c_bit, op_anl_c_nbit, op_mov_bit_c,
  op_mov_c_bit, op_cpl_bit, op_cpl_c, op_clr_bit, op_clr_c, op_setb_bit, op_setb_c,
}
use uc_vm.Mcs51.Decode.Table.{
  op_row_0, op_row_1, op_row_2, op_row_3, op_row_4, op_row_5, op_row_6, op_row_7, op_row_8,
  op_row_9, op_row_10, op_row_11, op_row_12, op_row_13, op_row_14, op_row_15,
}
use uc_vm.Mcs51.Evolve.Opcodes.Defs.{AllOps, op_rules}

pub op_row_0-AllOps : AllOps op_row_0
unfolding op_nop op_ajmp op_ljmp op_rr_a op_inc_a op_inc_direct op_inc_ind op_inc_rn
op_row_0-AllOps = search op_rules depth 40 fits 20000

pub op_row_1-AllOps : AllOps op_row_1
unfolding op_jbc op_acall op_lcall op_rrc_a op_dec_a op_dec_direct op_dec_ind op_dec_rn
op_row_1-AllOps = search op_rules depth 40 fits 20000

pub op_row_2-AllOps : AllOps op_row_2
unfolding op_jb op_ajmp op_ret op_rl_a op_add_a_imm op_add_a_direct op_add_a_ind op_add_a_rn
op_row_2-AllOps = search op_rules depth 40 fits 20000

pub op_row_3-AllOps : AllOps op_row_3
unfolding op_jnb op_acall op_reti op_rlc_a op_addc_a_imm op_addc_a_direct op_addc_a_ind op_addc_a_rn
op_row_3-AllOps = search op_rules depth 40 fits 20000

pub op_row_4-AllOps : AllOps op_row_4
unfolding op_jc op_ajmp op_orl_direct_a op_orl_direct_imm op_orl_a_imm op_orl_a_direct op_orl_a_ind
    op_orl_a_rn
op_row_4-AllOps = search op_rules depth 40 fits 20000

pub op_row_5-AllOps : AllOps op_row_5
unfolding op_jnc op_acall op_anl_direct_a op_anl_direct_imm op_anl_a_imm op_anl_a_direct
    op_anl_a_ind op_anl_a_rn
op_row_5-AllOps = search op_rules depth 40 fits 20000

pub op_row_6-AllOps : AllOps op_row_6
unfolding op_jz op_ajmp op_xrl_direct_a op_xrl_direct_imm op_xrl_a_imm op_xrl_a_direct op_xrl_a_ind
    op_xrl_a_rn
op_row_6-AllOps = search op_rules depth 40 fits 20000

pub op_row_7-AllOps : AllOps op_row_7
unfolding op_jnz op_acall op_orl_c_bit op_jmp_a_dptr op_mov_a_imm op_mov_direct_imm op_mov_ind_imm
    op_mov_rn_imm
op_row_7-AllOps = search op_rules depth 40 fits 20000

pub op_row_8-AllOps : AllOps op_row_8
unfolding op_sjmp op_ajmp op_anl_c_bit op_movc_a_pc op_div_ab op_mov_direct_direct op_mov_direct_ind
    op_mov_direct_rn
op_row_8-AllOps = search op_rules depth 40 fits 20000

pub op_row_9-AllOps : AllOps op_row_9
unfolding op_mov_dptr_imm op_acall op_mov_bit_c op_movc_a_dptr op_subb_a_imm op_subb_a_direct
    op_subb_a_ind op_subb_a_rn
op_row_9-AllOps = search op_rules depth 40 fits 20000

pub op_row_10-AllOps : AllOps op_row_10
unfolding op_orl_c_nbit op_ajmp op_mov_c_bit op_inc_dptr op_mul_ab op_break op_mov_ind_direct
    op_mov_rn_direct
op_row_10-AllOps = search op_rules depth 40 fits 20000

pub op_row_11-AllOps : AllOps op_row_11
unfolding op_anl_c_nbit op_acall op_cpl_bit op_cpl_c op_cjne_a_imm op_cjne_a_direct op_cjne_ind_imm
    op_cjne_rn_imm
op_row_11-AllOps = search op_rules depth 40 fits 20000

pub op_row_12-AllOps : AllOps op_row_12
unfolding op_push op_ajmp op_clr_bit op_clr_c op_swap_a op_xch_a_direct op_xch_a_ind op_xch_a_rn
op_row_12-AllOps = search op_rules depth 40 fits 20000

pub op_row_13-AllOps : AllOps op_row_13
unfolding op_pop op_acall op_setb_bit op_setb_c op_da_a op_djnz_direct op_xchd_a_ind op_djnz_rn
op_row_13-AllOps = search op_rules depth 40 fits 20000

pub op_row_14-AllOps : AllOps op_row_14
unfolding op_movx_a_dptr op_ajmp op_movx_a_ind op_clr_a op_mov_a_direct op_mov_a_ind op_mov_a_rn
op_row_14-AllOps = search op_rules depth 40 fits 20000

pub op_row_15-AllOps : AllOps op_row_15
unfolding op_movx_dptr_a op_acall op_movx_ind_a op_cpl_a op_mov_direct_a op_mov_ind_a op_mov_rn_a
op_row_15-AllOps = search op_rules depth 40 fits 20000

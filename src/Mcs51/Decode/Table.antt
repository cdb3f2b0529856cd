-- ===== src/Mcs51/Decode/Table.antt =====
-- The dispatch table `op_table` of src/mcs51/mcs51_decode.c, a row for each high nibble.
use uc_vm.Common.{ℕ, List, [], ◌∷◌, zero, suc, ◌/◌, ◌%◌}
use uc_vm.Mcs51.Memory.{code_read}
use uc_vm.Mcs51.Decode.Flags.{OpFn}
use uc_vm.Mcs51.Decode.Arith.{
  op_inc_a, op_inc_direct, op_inc_ind, op_inc_rn, op_dec_a, op_dec_direct, op_dec_ind, op_dec_rn,
  op_add_a_imm, op_add_a_direct, op_add_a_ind, op_add_a_rn, op_addc_a_imm, op_addc_a_direct,
  op_addc_a_ind, op_addc_a_rn, op_subb_a_imm, op_subb_a_direct, op_subb_a_ind, op_subb_a_rn,
  op_mul_ab, op_div_ab, op_da_a, op_inc_dptr,
}
use uc_vm.Mcs51.Decode.Logic.{
  op_rr_a, op_rrc_a, op_rl_a, op_rlc_a, op_swap_a, op_clr_a, op_cpl_a, op_orl_direct_a,
  op_orl_direct_imm, op_orl_a_imm, op_orl_a_direct, op_orl_a_ind, op_orl_a_rn, op_anl_direct_a,
  op_anl_direct_imm, op_anl_a_imm, op_anl_a_direct, op_anl_a_ind, op_anl_a_rn, op_xrl_direct_a,
  op_xrl_direct_imm, op_xrl_a_imm, op_xrl_a_direct, op_xrl_a_ind, op_xrl_a_rn,
}
use uc_vm.Mcs51.Decode.Move.{
  op_mov_a_imm, op_mov_direct_imm, op_mov_ind_imm, op_mov_rn_imm, op_mov_direct_direct,
  op_mov_direct_ind, op_mov_direct_rn, op_mov_dptr_imm, op_mov_ind_direct, op_mov_rn_direct,
  op_mov_a_direct, op_mov_a_ind, op_mov_a_rn, op_mov_direct_a, op_mov_ind_a, op_mov_rn_a,
  op_movc_a_pc, op_movc_a_dptr, op_movx_a_dptr, op_movx_a_ind, op_movx_dptr_a, op_movx_ind_a,
  op_push, op_pop, op_xch_a_direct, op_xch_a_ind, op_xch_a_rn, op_xchd_a_ind,
}
use uc_vm.Mcs51.Decode.Branch.{
  op_nop, op_ajmp, op_ljmp, op_acall, op_lcall, op_ret, op_reti, op_sjmp, op_jmp_a_dptr, op_jc,
  op_jnc, op_jz, op_jnz, op_cjne_a_imm, op_cjne_a_direct, op_cjne_ind_imm, op_cjne_rn_imm,
  op_djnz_direct, op_djnz_rn, op_break,
}
use uc_vm.Mcs51.Decode.Bit.{
  op_jbc, op_jb, op_jnb, op_orl_c_bit, op_orl_c_nbit, op_anl_c_bit, op_anl_c_nbit, op_mov_bit_c,
  op_mov_c_bit, op_cpl_bit, op_cpl_c, op_clr_bit, op_clr_c, op_setb_bit, op_setb_c,
}

abbrev pub op_row_0 : List OpFn
op_row_0 =
    op_nop
    ∷ op_ajmp
    ∷ op_ljmp
    ∷ op_rr_a
    ∷ op_inc_a
    ∷ op_inc_direct
    ∷ op_inc_ind 0
    ∷ op_inc_ind 1
    ∷ op_inc_rn 0
    ∷ op_inc_rn 1
    ∷ op_inc_rn 2
    ∷ op_inc_rn 3
    ∷ op_inc_rn 4
    ∷ op_inc_rn 5
    ∷ op_inc_rn 6
    ∷ op_inc_rn 7
    ∷ []

abbrev pub op_row_1 : List OpFn
op_row_1 =
    op_jbc
    ∷ op_acall
    ∷ op_lcall
    ∷ op_rrc_a
    ∷ op_dec_a
    ∷ op_dec_direct
    ∷ op_dec_ind 0
    ∷ op_dec_ind 1
    ∷ op_dec_rn 0
    ∷ op_dec_rn 1
    ∷ op_dec_rn 2
    ∷ op_dec_rn 3
    ∷ op_dec_rn 4
    ∷ op_dec_rn 5
    ∷ op_dec_rn 6
    ∷ op_dec_rn 7
    ∷ []

abbrev pub op_row_2 : List OpFn
op_row_2 =
    op_jb
    ∷ op_ajmp
    ∷ op_ret
    ∷ op_rl_a
    ∷ op_add_a_imm
    ∷ op_add_a_direct
    ∷ op_add_a_ind 0
    ∷ op_add_a_ind 1
    ∷ op_add_a_rn 0
    ∷ op_add_a_rn 1
    ∷ op_add_a_rn 2
    ∷ op_add_a_rn 3
    ∷ op_add_a_rn 4
    ∷ op_add_a_rn 5
    ∷ op_add_a_rn 6
    ∷ op_add_a_rn 7
    ∷ []

abbrev pub op_row_3 : List OpFn
op_row_3 =
    op_jnb
    ∷ op_acall
    ∷ op_reti
    ∷ op_rlc_a
    ∷ op_addc_a_imm
    ∷ op_addc_a_direct
    ∷ op_addc_a_ind 0
    ∷ op_addc_a_ind 1
    ∷ op_addc_a_rn 0
    ∷ op_addc_a_rn 1
    ∷ op_addc_a_rn 2
    ∷ op_addc_a_rn 3
    ∷ op_addc_a_rn 4
    ∷ op_addc_a_rn 5
    ∷ op_addc_a_rn 6
    ∷ op_addc_a_rn 7
    ∷ []

abbrev pub op_row_4 : List OpFn
op_row_4 =
    op_jc
    ∷ op_ajmp
    ∷ op_orl_direct_a
    ∷ op_orl_direct_imm
    ∷ op_orl_a_imm
    ∷ op_orl_a_direct
    ∷ op_orl_a_ind 0
    ∷ op_orl_a_ind 1
    ∷ op_orl_a_rn 0
    ∷ op_orl_a_rn 1
    ∷ op_orl_a_rn 2
    ∷ op_orl_a_rn 3
    ∷ op_orl_a_rn 4
    ∷ op_orl_a_rn 5
    ∷ op_orl_a_rn 6
    ∷ op_orl_a_rn 7
    ∷ []

abbrev pub op_row_5 : List OpFn
op_row_5 =
    op_jnc
    ∷ op_acall
    ∷ op_anl_direct_a
    ∷ op_anl_direct_imm
    ∷ op_anl_a_imm
    ∷ op_anl_a_direct
    ∷ op_anl_a_ind 0
    ∷ op_anl_a_ind 1
    ∷ op_anl_a_rn 0
    ∷ op_anl_a_rn 1
    ∷ op_anl_a_rn 2
    ∷ op_anl_a_rn 3
    ∷ op_anl_a_rn 4
    ∷ op_anl_a_rn 5
    ∷ op_anl_a_rn 6
    ∷ op_anl_a_rn 7
    ∷ []

abbrev pub op_row_6 : List OpFn
op_row_6 =
    op_jz
    ∷ op_ajmp
    ∷ op_xrl_direct_a
    ∷ op_xrl_direct_imm
    ∷ op_xrl_a_imm
    ∷ op_xrl_a_direct
    ∷ op_xrl_a_ind 0
    ∷ op_xrl_a_ind 1
    ∷ op_xrl_a_rn 0
    ∷ op_xrl_a_rn 1
    ∷ op_xrl_a_rn 2
    ∷ op_xrl_a_rn 3
    ∷ op_xrl_a_rn 4
    ∷ op_xrl_a_rn 5
    ∷ op_xrl_a_rn 6
    ∷ op_xrl_a_rn 7
    ∷ []

abbrev pub op_row_7 : List OpFn
op_row_7 =
    op_jnz
    ∷ op_acall
    ∷ op_orl_c_bit
    ∷ op_jmp_a_dptr
    ∷ op_mov_a_imm
    ∷ op_mov_direct_imm
    ∷ op_mov_ind_imm 0
    ∷ op_mov_ind_imm 1
    ∷ op_mov_rn_imm 0
    ∷ op_mov_rn_imm 1
    ∷ op_mov_rn_imm 2
    ∷ op_mov_rn_imm 3
    ∷ op_mov_rn_imm 4
    ∷ op_mov_rn_imm 5
    ∷ op_mov_rn_imm 6
    ∷ op_mov_rn_imm 7
    ∷ []

abbrev pub op_row_8 : List OpFn
op_row_8 =
    op_sjmp
    ∷ op_ajmp
    ∷ op_anl_c_bit
    ∷ op_movc_a_pc
    ∷ op_div_ab
    ∷ op_mov_direct_direct
    ∷ op_mov_direct_ind 0
    ∷ op_mov_direct_ind 1
    ∷ op_mov_direct_rn 0
    ∷ op_mov_direct_rn 1
    ∷ op_mov_direct_rn 2
    ∷ op_mov_direct_rn 3
    ∷ op_mov_direct_rn 4
    ∷ op_mov_direct_rn 5
    ∷ op_mov_direct_rn 6
    ∷ op_mov_direct_rn 7
    ∷ []

abbrev pub op_row_9 : List OpFn
op_row_9 =
    op_mov_dptr_imm
    ∷ op_acall
    ∷ op_mov_bit_c
    ∷ op_movc_a_dptr
    ∷ op_subb_a_imm
    ∷ op_subb_a_direct
    ∷ op_subb_a_ind 0
    ∷ op_subb_a_ind 1
    ∷ op_subb_a_rn 0
    ∷ op_subb_a_rn 1
    ∷ op_subb_a_rn 2
    ∷ op_subb_a_rn 3
    ∷ op_subb_a_rn 4
    ∷ op_subb_a_rn 5
    ∷ op_subb_a_rn 6
    ∷ op_subb_a_rn 7
    ∷ []

abbrev pub op_row_10 : List OpFn
op_row_10 =
    op_orl_c_nbit
    ∷ op_ajmp
    ∷ op_mov_c_bit
    ∷ op_inc_dptr
    ∷ op_mul_ab
    ∷ op_break
    ∷ op_mov_ind_direct 0
    ∷ op_mov_ind_direct 1
    ∷ op_mov_rn_direct 0
    ∷ op_mov_rn_direct 1
    ∷ op_mov_rn_direct 2
    ∷ op_mov_rn_direct 3
    ∷ op_mov_rn_direct 4
    ∷ op_mov_rn_direct 5
    ∷ op_mov_rn_direct 6
    ∷ op_mov_rn_direct 7
    ∷ []

abbrev pub op_row_11 : List OpFn
op_row_11 =
    op_anl_c_nbit
    ∷ op_acall
    ∷ op_cpl_bit
    ∷ op_cpl_c
    ∷ op_cjne_a_imm
    ∷ op_cjne_a_direct
    ∷ op_cjne_ind_imm 0
    ∷ op_cjne_ind_imm 1
    ∷ op_cjne_rn_imm 0
    ∷ op_cjne_rn_imm 1
    ∷ op_cjne_rn_imm 2
    ∷ op_cjne_rn_imm 3
    ∷ op_cjne_rn_imm 4
    ∷ op_cjne_rn_imm 5
    ∷ op_cjne_rn_imm 6
    ∷ op_cjne_rn_imm 7
    ∷ []

abbrev pub op_row_12 : List OpFn
op_row_12 =
    op_push
    ∷ op_ajmp
    ∷ op_clr_bit
    ∷ op_clr_c
    ∷ op_swap_a
    ∷ op_xch_a_direct
    ∷ op_xch_a_ind 0
    ∷ op_xch_a_ind 1
    ∷ op_xch_a_rn 0
    ∷ op_xch_a_rn 1
    ∷ op_xch_a_rn 2
    ∷ op_xch_a_rn 3
    ∷ op_xch_a_rn 4
    ∷ op_xch_a_rn 5
    ∷ op_xch_a_rn 6
    ∷ op_xch_a_rn 7
    ∷ []

abbrev pub op_row_13 : List OpFn
op_row_13 =
    op_pop
    ∷ op_acall
    ∷ op_setb_bit
    ∷ op_setb_c
    ∷ op_da_a
    ∷ op_djnz_direct
    ∷ op_xchd_a_ind 0
    ∷ op_xchd_a_ind 1
    ∷ op_djnz_rn 0
    ∷ op_djnz_rn 1
    ∷ op_djnz_rn 2
    ∷ op_djnz_rn 3
    ∷ op_djnz_rn 4
    ∷ op_djnz_rn 5
    ∷ op_djnz_rn 6
    ∷ op_djnz_rn 7
    ∷ []

abbrev pub op_row_14 : List OpFn
op_row_14 =
    op_movx_a_dptr
    ∷ op_ajmp
    ∷ op_movx_a_ind 0
    ∷ op_movx_a_ind 1
    ∷ op_clr_a
    ∷ op_mov_a_direct
    ∷ op_mov_a_ind 0
    ∷ op_mov_a_ind 1
    ∷ op_mov_a_rn 0
    ∷ op_mov_a_rn 1
    ∷ op_mov_a_rn 2
    ∷ op_mov_a_rn 3
    ∷ op_mov_a_rn 4
    ∷ op_mov_a_rn 5
    ∷ op_mov_a_rn 6
    ∷ op_mov_a_rn 7
    ∷ []

abbrev pub op_row_15 : List OpFn
op_row_15 =
    op_movx_dptr_a
    ∷ op_acall
    ∷ op_movx_ind_a 0
    ∷ op_movx_ind_a 1
    ∷ op_cpl_a
    ∷ op_mov_direct_a
    ∷ op_mov_ind_a 0
    ∷ op_mov_ind_a 1
    ∷ op_mov_rn_a 0
    ∷ op_mov_rn_a 1
    ∷ op_mov_rn_a 2
    ∷ op_mov_rn_a 3
    ∷ op_mov_rn_a 4
    ∷ op_mov_rn_a 5
    ∷ op_mov_rn_a 6
    ∷ op_mov_rn_a 7
    ∷ []

abbrev pub op_rows : List (List OpFn)
op_rows =
    op_row_0 ∷ op_row_1 ∷ op_row_2 ∷ op_row_3 ∷ op_row_4 ∷ op_row_5 ∷ op_row_6 ∷ op_row_7 ∷ op_row_8
    ∷ op_row_9 ∷ op_row_10 ∷ op_row_11 ∷ op_row_12 ∷ op_row_13 ∷ op_row_14 ∷ op_row_15 ∷ []

-- The entry of a table at an index; `d` past its end, which no opcode reaches.
abbrev pub get_or {ℓ} : {A : Type ℓ} → List A → ℕ → A → A
get_or [] i d = d
get_or (x ∷ xs) zero d = x
get_or (x ∷ xs) (suc i) d = get_or xs i d

-- `op_table[opcode]`: 16 rows of 16 handlers.
unfoldable pub op_table : ℕ → OpFn
op_table opcode = get_or (get_or op_rows (opcode / 16) []) (opcode % 16) op_nop

-- `mcs51_decode_execute`.
unfoldable pub decode_execute : OpFn
decode_execute c = op_table (code_read c c.pc) c

-- ===== src/Avr/Exec/Dispatch.antt =====
-- The dispatch table `htab` of `avr_cpu_run`, src/avr/avr_decode.c.
use uc_vm.Avr.Cpu.{
  AvrOp, op_add, op_adc, op_sub, op_sbc, op_cp, op_cpc, op_cpse, op_subi, op_sbci, op_cpi, op_ldi,
  op_and, op_or, op_eor, op_andi, op_ori, op_com, op_neg, op_swap, op_inc, op_dec, op_asr, op_lsr,
  op_ror, op_adiw, op_sbiw, op_mul, op_muls, op_mulsu, op_fmul, op_fmuls, op_fmulsu, op_mov,
  op_movw, op_in, op_out, op_cbi, op_sbi, op_sbic, op_sbis, op_lds, op_ld_x, op_ld_xp, op_ld_mx,
  op_ld_yp, op_ld_my, op_ldd_y, op_ld_zp, op_ld_mz, op_ldd_z, op_sts, op_st_x, op_st_xp, op_st_mx,
  op_st_yp, op_st_my, op_std_y, op_st_zp, op_st_mz, op_std_z, op_push, op_pop, op_lpm_r0, op_lpm_rd,
  op_lpm_rdp, op_rjmp, op_rcall, op_jmp, op_call, op_ijmp, op_icall, op_ret, op_reti, op_brbs,
  op_brbc, op_sbrc, op_sbrs, op_bset, op_bclr, op_bst, op_bld, op_nop, op_sleep, op_wdr, op_break,
  op_spm, op_fault, op_subi_brne, op_dec_brne, op_delay2, op_delay3, op_data,
}
use uc_vm.Avr.Exec.Arith.{
  h_add, h_adc, h_sub, h_sbc, h_cp, h_cpc, h_cpse, h_subi, h_sbci, h_cpi, h_ldi, h_and, h_or, h_eor,
  h_andi, h_ori, h_com, h_neg, h_swap, h_inc, h_dec, h_asr, h_lsr, h_ror, h_adiw, h_sbiw, h_mul,
  h_muls, h_mulsu, h_fmul, h_fmuls, h_fmulsu,
}
use uc_vm.Avr.Exec.Transfer.{
  h_mov, h_movw, h_in, h_out, h_cbi, h_sbi, h_sbic, h_sbis, h_lds, h_ld_x, h_ld_xp, h_ld_mx,
  h_ld_yp, h_ld_my, h_ldd_y, h_ld_zp, h_ld_mz, h_ldd_z, h_sts, h_st_x, h_st_xp, h_st_mx, h_st_yp,
  h_st_my, h_std_y, h_st_zp, h_st_mz, h_std_z, h_push, h_pop, h_lpm_r0, h_lpm_rd, h_lpm_rdp,
}
use uc_vm.Avr.Exec.Branch.{
  h_rjmp, h_rcall, h_jmp, h_call, h_ijmp, h_icall, h_ret, h_reti, h_brbs, h_brbc, h_sbrc, h_sbrs,
  h_bset, h_bclr, h_bst, h_bld, h_nop, h_sleep, h_wdr, h_break, h_spm, h_fault,
}
use uc_vm.Avr.Exec.Fused.{h_subi_brne, h_dec_brne, h_delay2, h_delay3}
use uc_vm.Avr.Exec.Outcome.{Handler}

-- The second word of an instruction runs as NOP.
unfoldable pub handler : AvrOp → Handler
handler op_add = h_add
handler op_adc = h_adc
handler op_sub = h_sub
handler op_sbc = h_sbc
handler op_cp = h_cp
handler op_cpc = h_cpc
handler op_cpse = h_cpse
handler op_subi = h_subi
handler op_sbci = h_sbci
handler op_cpi = h_cpi
handler op_ldi = h_ldi
handler op_and = h_and
handler op_or = h_or
handler op_eor = h_eor
handler op_andi = h_andi
handler op_ori = h_ori
handler op_com = h_com
handler op_neg = h_neg
handler op_swap = h_swap
handler op_inc = h_inc
handler op_dec = h_dec
handler op_asr = h_asr
handler op_lsr = h_lsr
handler op_ror = h_ror
handler op_adiw = h_adiw
handler op_sbiw = h_sbiw
handler op_mul = h_mul
handler op_muls = h_muls
handler op_mulsu = h_mulsu
handler op_fmul = h_fmul
handler op_fmuls = h_fmuls
handler op_fmulsu = h_fmulsu
handler op_mov = h_mov
handler op_movw = h_movw
handler op_in = h_in
handler op_out = h_out
handler op_cbi = h_cbi
handler op_sbi = h_sbi
handler op_sbic = h_sbic
handler op_sbis = h_sbis
handler op_lds = h_lds
handler op_ld_x = h_ld_x
handler op_ld_xp = h_ld_xp
handler op_ld_mx = h_ld_mx
handler op_ld_yp = h_ld_yp
handler op_ld_my = h_ld_my
handler op_ldd_y = h_ldd_y
handler op_ld_zp = h_ld_zp
handler op_ld_mz = h_ld_mz
handler op_ldd_z = h_ldd_z
handler op_sts = h_sts
handler op_st_x = h_st_x
handler op_st_xp = h_st_xp
handler op_st_mx = h_st_mx
handler op_st_yp = h_st_yp
handler op_st_my = h_st_my
handler op_std_y = h_std_y
handler op_st_zp = h_st_zp
handler op_st_mz = h_st_mz
handler op_std_z = h_std_z
handler op_push = h_push
handler op_pop = h_pop
handler op_lpm_r0 = h_lpm_r0
handler op_lpm_rd = h_lpm_rd
handler op_lpm_rdp = h_lpm_rdp
handler op_rjmp = h_rjmp
handler op_rcall = h_rcall
handler op_jmp = h_jmp
handler op_call = h_call
handler op_ijmp = h_ijmp
handler op_icall = h_icall
handler op_ret = h_ret
handler op_reti = h_reti
handler op_brbs = h_brbs
handler op_brbc = h_brbc
handler op_sbrc = h_sbrc
handler op_sbrs = h_sbrs
handler op_bset = h_bset
handler op_bclr = h_bclr
handler op_bst = h_bst
handler op_bld = h_bld
handler op_nop = h_nop
handler op_sleep = h_sleep
handler op_wdr = h_wdr
handler op_break = h_break
handler op_spm = h_spm
handler op_fault = h_fault
handler op_subi_brne = h_subi_brne
handler op_dec_brne = h_dec_brne
handler op_delay2 = h_delay2
handler op_delay3 = h_delay3
handler op_data = h_nop

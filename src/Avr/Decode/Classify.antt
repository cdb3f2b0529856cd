-- ===== src/Avr/Decode/Classify.antt =====
-- One turn of the loop of `avr_predecode` of src/avr/avr_decode.c: what a word of flash becomes. A
-- word that takes the next one with it is classified with `two_words`.
use uc_vm.Common.{
  ℕ, ◌+◌, ◌*◌, ◌/◌, ◌%◌, ◌^◌, Bool, ◌||◌, u16, bit_and, if◌then◌else◌, nonzero, ◌==◌,
}
use uc_vm.Avr.Cpu.{
  AvrOp, Decoded, op_adc, op_add, op_adiw, op_and, op_andi, op_asr, op_bclr, op_bld, op_brbc,
  op_brbs, op_break, op_bset, op_bst, op_call, op_cbi, op_com, op_cp, op_cpc, op_cpi, op_cpse,
  op_dec, op_eor, op_fault, op_fmul, op_fmuls, op_fmulsu, op_icall, op_ijmp, op_in, op_inc, op_jmp,
  op_ld_mx, op_ld_my, op_ld_mz, op_ld_x, op_ld_xp, op_ld_yp, op_ld_zp, op_ldd_y, op_ldd_z, op_ldi,
  op_lds, op_lpm_r0, op_lpm_rd, op_lpm_rdp, op_lsr, op_mov, op_movw, op_mul, op_muls, op_mulsu,
  op_neg, op_nop, op_or, op_ori, op_out, op_pop, op_push, op_rcall, op_ret, op_reti, op_rjmp,
  op_ror, op_sbc, op_sbci, op_sbi, op_sbic, op_sbis, op_sbiw, op_sbrc, op_sbrs, op_sleep, op_spm,
  op_st_mx, op_st_my, op_st_mz, op_st_x, op_st_xp, op_st_yp, op_st_zp, op_std_y, op_std_z, op_sts,
  op_sub, op_subi, op_swap, op_wdr,
}
use uc_vm.Avr.Decode.Operands.{
  rd5, rr5, rd4, k8, k6, rdw2, io6, io5, bit3, q6, k12, k7, has_bit, decoded, fault,
}

-- AVR_FLAG_HAS_*.
abbrev pub has_mul : ℕ
has_mul = 0x01

abbrev pub has_jmp_call : ℕ
has_jmp_call = 0x02

abbrev pub has_movw : ℕ
has_movw = 0x04

abbrev pub has_lpm_rd : ℕ
has_lpm_rd = 0x08

abbrev pub has_adiw : ℕ
has_adiw = 0x10

-- `(vf & feature) ? op : AVR_OP_FAULT`.
unfoldable pub op_if : ℕ → ℕ → AvrOp → AvrOp
op_if vf feature o = if nonzero (bit_and vf feature) then o else op_fault

-- The branch `sub == 0x03`.
unfoldable pub classify_mulsu : ℕ → Decoded
classify_mulsu op =
    let kind = op / 8 % 4 in
    decoded
      (if kind == 0
        then op_mulsu
        else if kind == 1
        then op_fmul
        else if kind == 2
        then op_fmuls
        else op_fmulsu)
      (op / 16 % 8 + 16) (op % 8 + 16)

unfoldable pub classify_0 : ℕ → ℕ → Decoded
unfolding op_if classify_mulsu
classify_0 vf op =
    let sub = op / 256 % 16 in
    let rr = λ (o : AvrOp). decoded o (rd5 op) (rr5 op) in
    if op == 0
    then decoded op_nop 0 0
    else if sub == 1
    then decoded (op_if vf has_movw op_movw) (op / 16 % 16 * 2) (op % 16 * 2)
    else if sub == 2
    then decoded (op_if vf has_mul op_muls) (op / 16 % 16 + 16) (op % 16 + 16)
    else if sub == 3
    then (if nonzero (bit_and vf has_mul) then classify_mulsu op else fault)
    else if op / 1024 == 1
    then rr op_cpc
    else if op / 1024 == 2
    then rr op_sbc
    else if op / 1024 == 3
    then rr op_add
    else if op / 1024 == 4
    then rr op_cpse
    else fault

-- One of four operations by bits 10 and 11.
unfoldable pub one_of_four : ℕ → AvrOp → AvrOp → AvrOp → AvrOp → AvrOp
one_of_four sub o0 o1 o2 o3 =
    if sub == 0 then o0 else if sub == 1 then o1 else if sub == 2 then o2 else o3

unfoldable pub classify_1 : ℕ → Decoded
unfolding one_of_four
classify_1 op = decoded (one_of_four (op / 1024 % 4) op_cpse op_cp op_sub op_adc) (rd5 op) (rr5 op)

unfoldable pub classify_2 : ℕ → Decoded
unfolding one_of_four
classify_2 op = decoded (one_of_four (op / 1024 % 4) op_and op_eor op_or op_mov) (rd5 op) (rr5 op)

-- An operation on R16 to R31 with a constant.
unfoldable pub classify_imm : AvrOp → ℕ → Decoded
classify_imm o op = decoded o (rd4 op) (k8 op)

unfoldable pub classify_disp : ℕ → Decoded
classify_disp op =
    let y = has_bit op 3 in
    let o =
      if has_bit op 9
      then (if y then op_std_y else op_std_z)
      else (if y then op_ldd_y else op_ldd_z) in
    decoded o (rd5 op) (q6 op)

-- The second operand of a two-word instruction: 0 where the flash ends.
unfoldable pub second_word : Bool → ℕ → ℕ
second_word has_next k = if has_next then u16 k else 0

-- `top7` is 0 or 1: loads without the one of two words, and stores.
unfoldable pub load_op : ℕ → ℕ → AvrOp
unfolding op_if
load_op vf lo4 =
    if lo4 == 0x0
    then op_lds
    else if lo4 == 0x1
    then op_ld_zp
    else if lo4 == 0x2
    then op_ld_mz
    else if lo4 == 0x4
    then op_if vf has_lpm_rd op_lpm_rd
    else if lo4 == 0x5
    then op_if vf has_lpm_rd op_lpm_rdp
    else if lo4 == 0x9
    then op_ld_yp
    else if lo4 == 0xA
    then op_ld_my
    else if lo4 == 0xC
    then op_ld_x
    else if lo4 == 0xD
    then op_ld_xp
    else if lo4 == 0xE
    then op_ld_mx
    else if lo4 == 0xF
    then op_pop
    else op_fault

unfoldable pub store_op : ℕ → AvrOp
store_op lo4 =
    if lo4 == 0x0
    then op_sts
    else if lo4 == 0x1
    then op_st_zp
    else if lo4 == 0x2
    then op_st_mz
    else if lo4 == 0x9
    then op_st_yp
    else if lo4 == 0xA
    then op_st_my
    else if lo4 == 0xC
    then op_st_x
    else if lo4 == 0xD
    then op_st_xp
    else if lo4 == 0xE
    then op_st_mx
    else if lo4 == 0xF
    then op_push
    else op_fault

unfoldable pub classify_load_store : ℕ → ℕ → ℕ → Bool → Decoded
unfolding load_op store_op second_word
classify_load_store vf op next_word has_next =
    let lo4 = op % 16 in
    decoded (if has_bit op 9 then store_op lo4 else load_op vf lo4) (rd5 op)
      (if lo4 == 0 then second_word has_next next_word else 0)

-- `lo4 == 0x8`.
unfoldable pub classify_misc : ℕ → Decoded
classify_misc op =
    if bit_and op 0xFF8F == 0x9408
    then decoded op_bset (2 ^ (op / 16 % 8)) 0
    else if bit_and op 0xFF8F == 0x9488
    then decoded op_bclr (2 ^ (op / 16 % 8)) 0
    else decoded
        (if op == 0x9508
          then op_ret
          else if op == 0x9518
          then op_reti
          else if op == 0x9588
          then op_sleep
          else if op == 0x95A8
          then op_wdr
          else if op == 0x9598
          then op_break
          else if op == 0x95C8
          then op_lpm_r0
          else if op == 0x95E8
          then op_spm
          else op_fault)
        (rd5 op) 0

-- JMP and CALL: the low 16 bits of the target.
unfoldable pub classify_jump : AvrOp → ℕ → ℕ → ℕ → Bool → Decoded
unfolding second_word
classify_jump o vf op next_word has_next =
    if nonzero (bit_and vf has_jmp_call)
    then decoded o (rd5 op)
        (second_word has_next (op / 16 % 32 * 131072 + op % 2 * 65536 + next_word))
    else decoded op_fault (rd5 op) 0

-- `top7 == 2`: operations on one register, then the rest.
unfoldable pub classify_single : ℕ → ℕ → ℕ → Bool → Decoded
unfolding classify_misc classify_jump
classify_single vf op next_word has_next =
    let lo4 = op % 16 in
    let one = λ (o : AvrOp). decoded o (rd5 op) 0 in
    if lo4 == 0x0
    then one op_com
    else if lo4 == 0x1
    then one op_neg
    else if lo4 == 0x2
    then one op_swap
    else if lo4 == 0x3
    then one op_inc
    else if lo4 == 0x5
    then one op_asr
    else if lo4 == 0x6
    then one op_lsr
    else if lo4 == 0x7
    then one op_ror
    else if lo4 == 0x8
    then classify_misc op
    else if lo4 == 0x9
    then one (if op == 0x9409 then op_ijmp else if op == 0x9509 then op_icall else op_fault)
    else if lo4 == 0xA
    then one op_dec
    else if (lo4 == 0xC) || (lo4 == 0xD)
    then classify_jump op_jmp vf op next_word has_next
    else if (lo4 == 0xE) || (lo4 == 0xF)
    then classify_jump op_call vf op next_word has_next
    else one op_fault

unfoldable pub classify_9 : ℕ → ℕ → ℕ → Bool → Decoded
unfolding classify_load_store classify_single
classify_9 vf op next_word has_next =
    let top7 = op / 512 % 8 in
    if (top7 == 0) || (top7 == 1)
    then classify_load_store vf op next_word has_next
    else if top7 == 2
    then classify_single vf op next_word has_next
    else if top7 == 3
    then (if nonzero (bit_and vf has_adiw)
        then decoded (if has_bit op 8 then op_sbiw else op_adiw) (rdw2 op) (k6 op)
        else fault)
    else if top7 == 4
    then decoded (if has_bit op 8 then op_sbic else op_cbi) (io5 op) (2 ^ bit3 op)
    else if top7 == 5
    then decoded (if has_bit op 8 then op_sbis else op_sbi) (io5 op) (2 ^ bit3 op)
    else if nonzero (bit_and vf has_mul)
    then decoded op_mul (rd5 op) (rr5 op)
    else fault

unfoldable pub classify_b : ℕ → Decoded
classify_b op = decoded (if has_bit op 11 then op_out else op_in) (rd5 op) (io6 op)

-- RJMP and RCALL at word `i`.
unfoldable pub classify_relative : AvrOp → ℕ → ℕ → Decoded
classify_relative o i op = decoded o 0 (u16 (i + 1 + k12 op))

unfoldable pub classify_f : ℕ → ℕ → Decoded
classify_f i op =
    let sub = op / 1024 % 4 in
    if sub == 0
    then decoded op_brbs (2 ^ bit3 op) (u16 (i + 1 + k7 op))
    else if sub == 1
    then decoded op_brbc (2 ^ bit3 op) (u16 (i + 1 + k7 op))
    else if sub == 2
    then decoded (if has_bit op 9 then op_bst else op_bld) (rd5 op) (2 ^ bit3 op)
    else decoded (if has_bit op 9 then op_sbrs else op_sbrc) (rd5 op) (2 ^ bit3 op)

-- The switch on the high nibble.
unfoldable pub classify : ℕ → ℕ → ℕ → ℕ → Bool → Decoded
unfolding classify_0 classify_1 classify_2 classify_imm classify_disp classify_9 classify_b
    classify_relative classify_f
classify vf i op next_word has_next =
    let top = op / 4096 in
    if top == 0x0
    then classify_0 vf op
    else if top == 0x1
    then classify_1 op
    else if top == 0x2
    then classify_2 op
    else if top == 0x3
    then classify_imm op_cpi op
    else if top == 0x4
    then classify_imm op_sbci op
    else if top == 0x5
    then classify_imm op_subi op
    else if top == 0x6
    then classify_imm op_ori op
    else if top == 0x7
    then classify_imm op_andi op
    else if (top == 0x8) || (top == 0xA)
    then classify_disp op
    else if top == 0x9
    then classify_9 vf op next_word has_next
    else if top == 0xB
    then classify_b op
    else if top == 0xC
    then classify_relative op_rjmp i op
    else if top == 0xD
    then classify_relative op_rcall i op
    else if top == 0xE
    then classify_imm op_ldi op
    else classify_f i op

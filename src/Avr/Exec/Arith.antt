-- ===== src/Avr/Exec/Arith.antt =====
-- The handlers for arithmetic and logic of src/avr/avr_decode.c.
use uc_vm.Common.{
  ℕ, ◌+◌, ◌-◌, ◌*◌, ◌/◌, ◌%◌, Bool, true, false, ◌&&◌, not, u8, u16, bit_and, bit_or, bit_xor,
  if◌then◌else◌, ltb, nonzero, ◌==◌,
}
use uc_vm.Avr.Cpu.{AvrCpu, set_sreg, set_mem, avr_r, regw, set_regw}
use uc_vm.Avr.Flags.{
  set_flag, set_s, flags_add, flags_sub, flags_logic, flags_inc, flags_dec, hvnzcs, bit7,
}
use uc_vm.Avr.Exec.Outcome.{Outcome, Handler, advance, skip_if, b8}

-- `(sreg & SREG_C) ? 1 : 0`.
unfoldable pub carry_in : AvrCpu → ℕ
carry_in c = if nonzero (bit_and c.sreg 0x01) then 1 else 0

unfoldable pub h_add : Handler
h_add d c =
    let rd = avr_r c d.a in
    let rr = avr_r c (b8 d) in
    let r = u8 (rd + rr) in advance 1 1 (flags_add (set_mem c d.a r) rd rr r)

unfoldable pub h_adc : Handler
unfolding carry_in
h_adc d c =
    let rd = avr_r c d.a in
    let rr = avr_r c (b8 d) in
    let r = u8 (rd + rr + carry_in c) in advance 1 1 (flags_add (set_mem c d.a r) rd rr r)

-- `Rd - K - C` in a byte.
unfoldable pub sub8 : ℕ → ℕ → ℕ → ℕ
sub8 rd k borrow = u8 (rd + 512 - k - borrow)

unfoldable pub h_sub : Handler
unfolding sub8
h_sub d c =
    let rd = avr_r c d.a in
    let rr = avr_r c (b8 d) in
    let r = sub8 rd rr 0 in advance 1 1 (flags_sub (set_mem c d.a r) rd rr r false)

unfoldable pub h_sbc : Handler
unfolding carry_in sub8
h_sbc d c =
    let rd = avr_r c d.a in
    let rr = avr_r c (b8 d) in
    let r = sub8 rd rr (carry_in c) in advance 1 1 (flags_sub (set_mem c d.a r) rd rr r true)

unfoldable pub h_cp : Handler
unfolding sub8
h_cp d c =
    let rd = avr_r c d.a in
    let rr = avr_r c (b8 d) in advance 1 1 (flags_sub c rd rr (sub8 rd rr 0) false)

unfoldable pub h_cpc : Handler
unfolding carry_in sub8
h_cpc d c =
    let rd = avr_r c d.a in
    let rr = avr_r c (b8 d) in advance 1 1 (flags_sub c rd rr (sub8 rd rr (carry_in c)) true)

unfoldable pub h_cpse : Handler
h_cpse d c = skip_if (avr_r c d.a == avr_r c (b8 d)) c

unfoldable pub h_subi : Handler
unfolding sub8
h_subi d c =
    let rd = avr_r c d.a in
    let r = sub8 rd (b8 d) 0 in advance 1 1 (flags_sub (set_mem c d.a r) rd (b8 d) r false)

-- With K = 0 and no carry only the flags change.
unfoldable pub h_sbci : Handler
unfolding carry_in sub8 hvnzcs bit7
h_sbci d c =
    let cy = carry_in c in
    let rd = avr_r c d.a in
    let r = sub8 rd (b8 d) cy in
    let z = nonzero (bit_and c.sreg 0x02) && (rd == 0) in
    if (b8 d == 0) && (cy == 0)
    then advance 1 1 (set_sreg c (bit_and c.sreg 0xC0 + hvnzcs false false (bit7 rd) z false))
    else advance 1 1 (flags_sub (set_mem c d.a r) rd (b8 d) r true)

unfoldable pub h_cpi : Handler
unfolding sub8
h_cpi d c = let rd = avr_r c d.a in advance 1 1 (flags_sub c rd (b8 d) (sub8 rd (b8 d) 0) false)

unfoldable pub h_ldi : Handler
h_ldi d c = advance 1 1 (set_mem c d.a (b8 d))

-- `AVR_R(cpu, d->a) = R; flags_logic(cpu, R); pc++; NEXT(1)`.
unfoldable pub logic_result : ℕ → Handler
logic_result r d c = advance 1 1 (flags_logic (set_mem c d.a r) r)

unfoldable pub h_and : Handler
unfolding logic_result
h_and d c = logic_result (bit_and (avr_r c d.a) (avr_r c (b8 d))) d c

unfoldable pub h_or : Handler
unfolding logic_result
h_or d c = logic_result (bit_or (avr_r c d.a) (avr_r c (b8 d))) d c

unfoldable pub h_eor : Handler
unfolding logic_result
h_eor d c = logic_result (bit_xor (avr_r c d.a) (avr_r c (b8 d))) d c

unfoldable pub h_andi : Handler
unfolding logic_result
h_andi d c = logic_result (bit_and (avr_r c d.a) (b8 d)) d c

unfoldable pub h_ori : Handler
unfolding logic_result
h_ori d c = logic_result (bit_or (avr_r c d.a) (b8 d)) d c

unfoldable pub h_com : Handler
h_com d c =
    let r = 255 - avr_r c d.a in
    let c1 = flags_logic (set_mem c d.a r) r in advance 1 1 (set_sreg c1 (bit_or c1.sreg 0x01))

unfoldable pub h_neg : Handler
unfolding sub8
h_neg d c =
    let rd = avr_r c d.a in
    let r = sub8 0 rd 0 in
    let c1 = flags_sub (set_mem c d.a r) 0 rd r false in
    advance 1 1 (set_flag c1 0x01 (not (r == 0)))

unfoldable pub h_swap : Handler
h_swap d c =
    let v = avr_r c d.a in
    advance 1 1 (set_mem c d.a (bit_or (bit_and (v / 16) 0x0F) (bit_and (v * 16) 0xF0)))

unfoldable pub h_inc : Handler
h_inc d c = let r = u8 (avr_r c d.a + 1) in advance 1 1 (flags_inc (set_mem c d.a r) r)

unfoldable pub h_dec : Handler
h_dec d c = let r = u8 (avr_r c d.a + 255) in advance 1 1 (flags_dec (set_mem c d.a r) r)

-- The flags of a shift to the right from `rd` to `r`: S is computed from the new N and V.
unfoldable pub shift_flags : ℕ → ℕ → AvrCpu → AvrCpu
unfolding bit7
shift_flags rd r c =
    let c1 = set_flag c 0x01 (nonzero (rd % 2)) in
    let c2 = set_flag c1 0x04 (bit7 r) in
    let c3 = set_flag c2 0x02 (r == 0) in
    set_s (set_flag c3 0x08 (nonzero (bit_xor (rd % 2) (r / 128 % 2))))

unfoldable pub h_asr : Handler
unfolding shift_flags
h_asr d c =
    let rd = avr_r c d.a in
    let r = bit_or (rd / 2) (bit_and rd 0x80) in advance 1 1 (shift_flags rd r (set_mem c d.a r))

unfoldable pub h_lsr : Handler
h_lsr d c =
    let rd = avr_r c d.a in
    let r = rd / 2 in
    let odd = nonzero (rd % 2) in
    let c1 = set_flag (set_flag (set_mem c d.a r) 0x01 odd) 0x04 false in
    advance 1 1 (set_flag (set_flag (set_flag c1 0x02 (r == 0)) 0x08 odd) 0x10 odd)

unfoldable pub h_ror : Handler
unfolding shift_flags
h_ror d c =
    let rd = avr_r c d.a in
    let r = bit_or (rd / 2) (if nonzero (bit_and c.sreg 0x01) then 0x80 else 0) in
    advance 1 1 (shift_flags rd r (set_mem c d.a r))

-- The flags of ADIW and SBIW: C, V, N, Z, then S.
unfoldable pub word_flags : Bool → Bool → ℕ → AvrCpu → AvrCpu
word_flags cy v r c =
    let c1 = set_flag (set_flag c 0x01 cy) 0x08 v in
    set_s (set_flag (set_flag c1 0x04 (nonzero (r / 32768 % 2))) 0x02 (r == 0))

unfoldable pub h_adiw : Handler
unfolding word_flags
h_adiw d c =
    let rdw = regw c d.a in
    let r = u16 (rdw + d.b) in
    advance 1 2 (
      word_flags (nonzero (bit_and (65535 - r) rdw / 32768))
        (nonzero (bit_and r (65535 - rdw) / 32768)) r (set_regw c d.a r))

unfoldable pub h_sbiw : Handler
unfolding word_flags
h_sbiw d c =
    let rdw = regw c d.a in
    let r = u16 (rdw + 65536 - d.b) in
    advance 1 2 (
      word_flags (nonzero (bit_and (65535 - rdw) r / 32768))
        (nonzero (bit_and rdw (65535 - r) / 32768)) r (set_regw c d.a r))

-- `(int8_t)x` as a number of 16 bits.
unfoldable pub sign_extend : ℕ → ℕ
sign_extend x = if ltb x 128 then x else x + 65280

-- A product in R1:R0; C is its bit 15.
unfoldable pub product : ℕ → AvrCpu → Outcome × AvrCpu
product res c =
    let c1 = set_mem (set_mem c 0 (res % 256)) 1 (res / 256 % 256) in
    advance 1 2 (set_flag (set_flag c1 0x01 (nonzero (res / 32768 % 2))) 0x02 (res == 0))

-- The same, shifted left by one after C is taken.
unfoldable pub fractional_product : ℕ → AvrCpu → Outcome × AvrCpu
fractional_product res c =
    let c1 = set_flag c 0x01 (nonzero (res / 32768 % 2)) in
    let res' = u16 (res * 2) in
    let c2 = set_mem (set_mem c1 0 (res' % 256)) 1 (res' / 256 % 256) in
    advance 1 2 (set_flag c2 0x02 (res' == 0))

unfoldable pub h_mul : Handler
unfolding product
h_mul d c = product (avr_r c d.a * avr_r c (b8 d)) c

unfoldable pub h_muls : Handler
unfolding product sign_extend
h_muls d c = product (u16 (sign_extend (avr_r c d.a) * sign_extend (avr_r c (b8 d)))) c

unfoldable pub h_mulsu : Handler
unfolding product sign_extend
h_mulsu d c = product (u16 (sign_extend (avr_r c d.a) * avr_r c (b8 d))) c

unfoldable pub h_fmul : Handler
unfolding fractional_product
h_fmul d c = fractional_product (avr_r c d.a * avr_r c (b8 d)) c

unfoldable pub h_fmuls : Handler
unfolding fractional_product sign_extend
h_fmuls d c = fractional_product (u16 (sign_extend (avr_r c d.a) * sign_extend (avr_r c (b8 d)))) c

unfoldable pub h_fmulsu : Handler
unfolding fractional_product sign_extend
h_fmulsu d c = fractional_product (u16 (sign_extend (avr_r c d.a) * avr_r c (b8 d))) c

-- ===== src/Avr/Exec/Fused.antt =====
-- The handlers of the fused instructions of src/avr/avr_decode.c. They read the operands of the
-- instructions behind the first from the decode cache.
use uc_vm.Common.{◌+◌, false, u8, bit_and, bit_or, if◌then◌else◌, ltb, nonzero, ◌==◌}
use uc_vm.Avr.Cpu.{AvrCpu, set_sreg, set_mem, avr_r}
use uc_vm.Avr.Flags.{flags_sub, flags_dec}
use uc_vm.Avr.Exec.Outcome.{Outcome, Handler, advance, jump, b8}
use uc_vm.Avr.Exec.Arith.{sub8}

-- `if (!(sreg & SREG_Z))` the branch of the next entry is taken, else both are passed.
unfoldable pub branch_ne : AvrCpu → Outcome × AvrCpu
branch_ne c =
    if nonzero (bit_and c.sreg 0x02) then advance 2 2 c else jump (c.decode_cache (c.pc + 1)).b 3 c

unfoldable pub h_subi_brne : Handler
unfolding branch_ne sub8
h_subi_brne d c =
    let rd = avr_r c d.a in
    let r = sub8 rd (b8 d) 0 in branch_ne (flags_sub (set_mem c d.a r) rd (b8 d) r false)

unfoldable pub h_dec_brne : Handler
unfolding branch_ne
h_dec_brne d c = let r = u8 (avr_r c d.a + 255) in branch_ne (flags_dec (set_mem c d.a r) r)

-- `(sreg & (SREG_T | SREG_I)) | SREG_Z`.
unfoldable pub leave_delay : AvrCpu → AvrCpu
leave_delay c = set_sreg c (bit_and c.sreg 0xC0 + 0x02)

unfoldable pub h_delay2 : Handler
unfolding sub8 leave_delay
h_delay2 d c =
    let r_hi = (c.decode_cache (c.pc + 1)).a in
    let lo = avr_r c d.a in
    let lo' = sub8 lo (b8 d) 0 in
    let cy = if ltb lo (b8 d) then 1 else 0 in
    let hi' = sub8 (avr_r c r_hi) cy 0 in
    let c1 = set_mem (set_mem c d.a lo') r_hi hi' in
    if nonzero (bit_or lo' hi')
    then jump (c1.decode_cache (c1.pc + 2)).b 4 c1
    else advance 3 3 (leave_delay c1)

unfoldable pub h_delay3 : Handler
unfolding sub8 leave_delay
h_delay3 d c =
    let r_mid = (c.decode_cache (c.pc + 1)).a in
    let r_hi = (c.decode_cache (c.pc + 2)).a in
    let lo = avr_r c d.a in
    let lo' = sub8 lo (b8 d) 0 in
    let cy = if ltb lo (b8 d) then 1 else 0 in
    let mid = avr_r c r_mid in
    let mid' = sub8 mid cy 0 in
    let cy2 = bit_and cy (if mid == 0 then 1 else 0) in
    let hi' = sub8 (avr_r c r_hi) cy2 0 in
    let c1 = set_mem (set_mem (set_mem c d.a lo') r_mid mid') r_hi hi' in
    if nonzero (bit_or (bit_or lo' mid') hi')
    then jump (c1.decode_cache (c1.pc + 3)).b 5 c1
    else advance 4 4 (leave_delay c1)

-- ===== src/Mcs51/Decode/Bit.antt =====
-- Bit instructions: on a bit address and on the carry.
use uc_vm.Common.{Bool, true, false, not, bit_and, bit_or, bit_xor, if◌then◌else◌, nonzero}
use uc_vm.Mcs51.Cpu.{Cpu, psw, sfr_psw, set_sfr}
use uc_vm.Mcs51.Memory.{bit_read, bit_write}
use uc_vm.Mcs51.Decode.Flags.{OpFn, fetch1, fetch2, advance, set_cy, get_cy, put_mask}
use uc_vm.Mcs51.Decode.Branch.{jump_if}

unfoldable pub op_jbc : OpFn
op_jbc c =
    let bit = fetch1 c in
    let rel = fetch2 c in
    let (v, c1) = bit_read (advance c 3) bit in
    (2, (if nonzero v then jump_if true (bit_write c1 bit false) rel else c1))

unfoldable pub op_jb : OpFn
op_jb c =
    let bit = fetch1 c in
    let rel = fetch2 c in
    let (v, c1) = bit_read (advance c 3) bit in (2, jump_if (nonzero v) c1 rel)

unfoldable pub op_jnb : OpFn
op_jnb c =
    let bit = fetch1 c in
    let rel = fetch2 c in
    let (v, c1) = bit_read (advance c 3) bit in (2, jump_if (not (nonzero v)) c1 rel)

-- `if (t) PSW |= PSW_CY` and `if (t) PSW &= ~PSW_CY`, with `v` for the new carry.
unfoldable pub cy_if : Bool → Cpu → Bool → Cpu
cy_if t c v = if t then set_sfr c sfr_psw (put_mask (psw c) 0x80 v) else c

unfoldable pub op_orl_c_bit : OpFn
unfolding cy_if
op_orl_c_bit c = let (v, c1) = bit_read c (fetch1 c) in (2, advance (cy_if (nonzero v) c1 true) 2)

unfoldable pub op_orl_c_nbit : OpFn
unfolding cy_if
op_orl_c_nbit c =
    let (v, c1) = bit_read c (fetch1 c) in (2, advance (cy_if (not (nonzero v)) c1 true) 2)

unfoldable pub op_anl_c_bit : OpFn
unfolding cy_if
op_anl_c_bit c =
    let (v, c1) = bit_read c (fetch1 c) in (2, advance (cy_if (not (nonzero v)) c1 false) 2)

unfoldable pub op_anl_c_nbit : OpFn
unfolding cy_if
op_anl_c_nbit c = let (v, c1) = bit_read c (fetch1 c) in (2, advance (cy_if (nonzero v) c1 false) 2)

unfoldable pub op_mov_bit_c : OpFn
op_mov_bit_c c = (2, advance (bit_write c (fetch1 c) (nonzero (get_cy c))) 2)

unfoldable pub op_mov_c_bit : OpFn
op_mov_c_bit c = let (v, c1) = bit_read c (fetch1 c) in (1, advance (set_cy c1 (nonzero v)) 2)

unfoldable pub op_cpl_bit : OpFn
op_cpl_bit c =
    let bit = fetch1 c in
    let (v, c1) = bit_read c bit in (1, advance (bit_write c1 bit (not (nonzero v))) 2)

unfoldable pub op_cpl_c : OpFn
op_cpl_c c = (1, advance (set_sfr c sfr_psw (bit_xor (psw c) 0x80)) 1)

unfoldable pub op_clr_bit : OpFn
op_clr_bit c = (1, advance (bit_write c (fetch1 c) false) 2)

unfoldable pub op_clr_c : OpFn
op_clr_c c = (1, advance (set_sfr c sfr_psw (bit_and (psw c) 0x7F)) 1)

unfoldable pub op_setb_bit : OpFn
op_setb_bit c = (1, advance (bit_write c (fetch1 c) true) 2)

unfoldable pub op_setb_c : OpFn
op_setb_c c = (1, advance (set_sfr c sfr_psw (bit_or (psw c) 0x80)) 1)

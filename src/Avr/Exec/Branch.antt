-- ===== src/Avr/Exec/Branch.antt =====
-- The handlers for jumps, calls, branches, skips and single bits of src/avr/avr_decode.c, and
-- those that end a run.
use uc_vm.Common.{ℕ, ◌+◌, ◌-◌, ◌*◌, ◌/◌, ◌%◌, u16, bit_and, bit_or, if◌then◌else◌, nonzero, ◌==◌}
use uc_vm.Avr.Cpu.{
  AvrCpu, avr_sleeping, avr_break, avr_halted, set_pc, set_sreg, set_mem, set_avr_state, avr_r,
  regw, reg_z,
}
use uc_vm.Avr.Memory.{avr_push, avr_pop}
use uc_vm.Avr.Flags.{set_flag}
use uc_vm.Avr.Exec.Outcome.{Handler, last, stop, advance, jump, skip_if, b8}

unfoldable pub h_rjmp : Handler
h_rjmp d c = jump d.b 2 c

-- The low byte of the return address is pushed first.
unfoldable pub push_pc : AvrCpu → ℕ → AvrCpu
push_pc c ret = avr_push (avr_push c (ret % 256)) (ret / 256 % 256)

unfoldable pub h_rcall : Handler
h_rcall d c = jump d.b 3 (push_pc c (u16 (c.pc + 1)))

unfoldable pub h_jmp : Handler
h_jmp d c = jump d.b 3 c

unfoldable pub h_call : Handler
h_call d c = jump d.b 4 (push_pc c (u16 (c.pc + 2)))

unfoldable pub h_ijmp : Handler
h_ijmp d c = jump (regw c reg_z) 2 c

unfoldable pub h_icall : Handler
h_icall d c = let c1 = push_pc c (u16 (c.pc + 1)) in jump (regw c1 reg_z) 3 c1

-- The two pops of RET and RETI: the address and the new state.
unfoldable pub pop_pc : AvrCpu → ℕ × AvrCpu
pop_pc c = let (pch, c1) = avr_pop c in let (pcl, c2) = avr_pop c1 in (pch * 256 + pcl, c2)

unfoldable pub h_ret : Handler
unfolding pop_pc
h_ret d c = let (at, c1) = pop_pc c in jump at 4 c1

unfoldable pub h_reti : Handler
unfolding pop_pc
h_reti d c = let (at, c1) = pop_pc c in jump at 4 (set_sreg c1 (bit_or c1.sreg 0x80))

unfoldable pub h_brbs : Handler
h_brbs d c = if nonzero (bit_and c.sreg d.a) then jump d.b 2 c else advance 1 1 c

unfoldable pub h_brbc : Handler
h_brbc d c = if nonzero (bit_and c.sreg d.a) then advance 1 1 c else jump d.b 2 c

unfoldable pub h_sbrc : Handler
h_sbrc d c = skip_if (bit_and (avr_r c d.a) (b8 d) == 0) c

unfoldable pub h_sbrs : Handler
h_sbrs d c = skip_if (nonzero (bit_and (avr_r c d.a) (b8 d))) c

unfoldable pub h_bset : Handler
h_bset d c = advance 1 1 (set_sreg c (bit_or c.sreg d.a))

unfoldable pub h_bclr : Handler
h_bclr d c = advance 1 1 (set_sreg c (bit_and c.sreg (255 - d.a)))

unfoldable pub h_bst : Handler
h_bst d c = advance 1 1 (set_flag c 0x40 (nonzero (bit_and (avr_r c d.a) (b8 d))))

unfoldable pub h_bld : Handler
h_bld d c =
    let v = avr_r c d.a in
    let v' = if nonzero (bit_and c.sreg 0x40) then bit_or v (b8 d) else bit_and v (255 - b8 d) in
    advance 1 1 (set_mem c d.a v')

-- NOP, and WDR and SPM, which do as little.
unfoldable pub h_nop : Handler
h_nop d c = advance 1 1 c

unfoldable pub h_sleep : Handler
h_sleep d c = (last 1, set_pc (set_avr_state c avr_sleeping) (c.pc + 1))

unfoldable pub h_wdr : Handler
h_wdr d c = advance 1 1 c

unfoldable pub h_break : Handler
h_break d c = (last 1, set_pc (set_avr_state c avr_break) (c.pc + 1))

unfoldable pub h_spm : Handler
h_spm d c = advance 1 1 c

unfoldable pub h_fault : Handler
h_fault d c = (stop, set_avr_state c avr_halted)

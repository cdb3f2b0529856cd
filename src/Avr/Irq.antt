-- ===== src/Avr/Irq.antt =====
-- Interrupt dispatch of the AVR: `avr_cpu_check_irq` of src/avr/avr_cpu.c.
use uc_vm.Common.{
  ℕ, zero, suc, ◌+◌, ◌-◌, ◌*◌, ◌/◌, ◌%◌, ◌^◌, Option, none, some, bit_and, if◌then◌else◌, nonzero,
}
use uc_vm.Avr.Cpu.{
  AvrCpu, AvrState, avr_running, avr_sleeping, avr_halted, avr_break, set_pc, set_sreg, set_mem,
  set_avr_state, set_irq_pending, add_cycles,
}
use uc_vm.Avr.Memory.{avr_push, io_sreg, io_base}

-- `irq_pending & (1u << vec)`.
abbrev pub irq_bit : ℕ → ℕ → ℕ
irq_bit pending vec = pending / 2 ^ vec % 2

-- The loop from `vec` on, over that many vectors: the first that is pending.
unfoldable pub find_vector : ℕ → ℕ → ℕ → Option ℕ
find_vector zero vec pending = none
find_vector (suc n) vec pending =
    let later = find_vector n (vec + 1) pending in
    if nonzero (irq_bit pending vec) then some vec else later

-- `if (state == SLEEPING) state = RUNNING`.
unfoldable pub avr_wake : AvrState → AvrState
avr_wake avr_sleeping = avr_running
avr_wake avr_running = avr_running
avr_wake avr_halted = avr_halted
avr_wake avr_break = avr_break

-- What the loop does with the vector that it finds; its pending bit is set.
unfoldable pub enter_vector : AvrCpu → ℕ → AvrCpu
unfolding avr_wake
enter_vector c vec =
    let c1 = set_irq_pending c (c.irq_pending - 2 ^ vec) in
    let c2 = set_sreg c1 (bit_and c1.sreg 0x7F) in
    let c3 = set_mem c2 (io_sreg + io_base) c2.sreg in
    let c4 = avr_push (avr_push c3 (c3.pc % 256)) (c3.pc / 256 % 256) in
    let c5 = add_cycles (set_pc c4 (vec * c4.variant.vector_size)) 4 in
    set_avr_state c5 (avr_wake c5.state)

unfoldable pub serve_vector : AvrCpu → Option ℕ → AvrCpu
unfolding enter_vector
serve_vector c none = c
serve_vector c (some vec) = enter_vector c vec

-- `avr_cpu_check_irq`: nothing unless I is set and an interrupt is pending.
unfoldable pub avr_check_irq : AvrCpu → AvrCpu
unfolding serve_vector find_vector
avr_check_irq c =
    let found = find_vector (c.variant.num_vectors - 1) 1 c.irq_pending in
    if nonzero (bit_and c.sreg 0x80)
    then (if nonzero c.irq_pending then serve_vector c found else c)
    else c

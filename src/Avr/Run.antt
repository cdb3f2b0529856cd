-- ===== src/Avr/Run.antt =====
-- `avr_cpu_run` and `avr_tick_peripherals` of src/avr/avr_decode.c in the form with threaded
-- dispatch, and `avr_cpu_step` of src/avr/avr_cpu.c. The locals `pc`, `pa` and `cycles` are the
-- fields that they are copied from and to: between the copies no handler reads those, and a tick
-- finds them written back. So the 4 cycles that a tick adds for an interrupt are kept apart: the
-- local `cycles` does not have them.
use uc_vm.Common.{
  ℕ, zero, suc, ◌+◌, ◌-◌, ◌%◌, ◌^◌, Option, none, some, Bool, true, false, ◌&&◌, bit_and,
  if◌then◌else◌, ltb, leb, nonzero, u8,
}
use uc_vm.Avr.Cpu.{
  AvrCpu, AvrState, avr_running, avr_sleeping, avr_halted, avr_break, set_periph_accum, add_cycles,
}
use mathlib.Core.Option.{map as map_option}
use uc_vm.Avr.Timer.{timer0_tick}
use uc_vm.Avr.Irq.{avr_check_irq}
use uc_vm.Avr.Exec.Outcome.{Outcome, next, last, stop, flash_words}
use uc_vm.Avr.Exec.Dispatch.{handler}

-- PERIPH_TICK_INTERVAL.
abbrev pub tick_interval : ℕ
tick_interval = 64

unfoldable pub avr_is_running : AvrState → Bool
avr_is_running avr_running = true
avr_is_running avr_sleeping = false
avr_is_running avr_halted = false
avr_is_running avr_break = false

-- `avr_tick_peripherals` of a CPU without TWI.
unfoldable pub tick_peripherals : AvrCpu → AvrCpu
tick_peripherals c =
    let c1 = set_periph_accum c 0 in
    let c2 = if c.periph_timer then timer0_tick c1 c.periph_accum else c1 in
    if nonzero c2.irq_pending && nonzero (bit_and c2.sreg 0x80) then avr_check_irq c2 else c2

-- `NEXT(cyc)` up to the count of steps: whether the run goes on, unless its steps are used up.
unfoldable pub finish_step : ℕ → AvrCpu → Bool × AvrCpu
unfolding avr_is_running
finish_step cyc c =
    let c1 = set_periph_accum (add_cycles c cyc) (c.periph_accum + cyc) in
    let c2 = record (tick_peripherals c1) { cycles = c1.cycles } in
    if leb tick_interval c1.periph_accum then (avr_is_running c2.state, c2) else (true, c1)

unfoldable pub finish : Outcome × AvrCpu → Bool × AvrCpu
unfolding finish_step
finish (next cyc, c) = finish_step cyc c
finish (last cyc, c) = (false, (finish_step cyc c).1)
finish (stop, c) = (false, c)

-- One dispatch.
unfoldable pub run_one : AvrCpu → Bool × AvrCpu
run_one c = let d = c.decode_cache c.pc in finish (handler d.op d c)

-- That many dispatches at most. The result is `none` where the decode cache is read at a `pc`
-- beyond the flash, for which C gives no result.
unfoldable pub run_steps : ℕ → AvrCpu → Option AvrCpu
run_steps zero c = some c
run_steps (suc n) c =
    let (goes_on, c1) = run_one c in
    let rest = run_steps n c1 in
    if ltb c.pc (flash_words c) then (if goes_on then rest else some c1) else none

-- `(uint32_t)(cycles - start)`.
unfoldable pub cycles_since : AvrCpu → AvrCpu → ℕ
cycles_since c d = (d.cycles + 2 ^ 64 - c.cycles) % 2 ^ 32

-- `avr_cpu_run`. It returns at once where the CPU does not run, or `pc` is beyond the flash.
unfoldable pub avr_cpu_run : AvrCpu → ℕ → Option (ℕ × AvrCpu)
unfolding avr_is_running
avr_cpu_run c max_steps =
    let ran = map_option (λ d. (cycles_since c d, d)) (run_steps max_steps c) in
    if avr_is_running c.state && ltb c.pc (flash_words c) then ran else some (0, c)

-- `avr_cpu_step`; its result is a byte.
unfoldable pub avr_cpu_step : AvrCpu → Option (ℕ × AvrCpu)
avr_cpu_step c = map_option (λ r. (u8 r.0, r.1)) (avr_cpu_run c 1)

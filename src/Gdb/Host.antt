-- ===== src/Gdb/Host.antt =====
-- The loop of `run_mcs51` of pc/main.c with the stub: one turn, which polls the stub once and then
-- steps the CPU up to 1000 times. Signals end the program and are left out; the terminal is outside.
use uc_vm.Common.{ℕ, zero, suc, Bool, true, false, if◌then◌else◌}
use uc_vm.Mcs51.Cpu.{Cpu, CpuState, running, sleeping, halted, break, add_cycles}
use uc_vm.Mcs51.Irq.{check_irq}
use uc_vm.Mcs51.Step.{cpu_step}
use uc_vm.Gdb.Stub.{Gdb}
use uc_vm.Gdb.Poll.{Arrival, gdb_poll, gdb_check_breakpoint, gdb_notify_stop}
use uc_vm.Gdb.Target.{gdb_target_mcs51}

-- `mcs51_cpu_step`, then a stop if a single step was asked for. Whether the loop goes on.
unfoldable pub step_target : Gdb Cpu → Bool × Gdb Cpu
step_target g =
    let g1 = record g { cpu = (cpu_step g.cpu).1 } in
    if g1.single_step then (false, gdb_notify_stop gdb_target_mcs51 g1) else (true, g1)

-- The rest of the body behind the test of a sleeping CPU.
unfoldable pub try_step : Gdb Cpu → Bool × Gdb Cpu
unfolding step_target
try_step g =
    let (hit, g1) = gdb_check_breakpoint gdb_target_mcs51 g in
    if hit then (false, gdb_notify_stop gdb_target_mcs51 g1) else step_target g1

-- One turn of the inner loop, by the state of the CPU.
unfoldable pub debug_step : CpuState → Gdb Cpu → Bool × Gdb Cpu
unfolding try_step
debug_step halted g = (false, g)
debug_step break g = (false, g)
debug_step sleeping g = (true, record g { cpu = check_irq (add_cycles g.cpu 1) })
debug_step running g = try_step g

-- That many turns at most.
unfoldable pub debug_steps : ℕ → Gdb Cpu → Gdb Cpu
unfolding debug_step
debug_steps zero g = g
debug_steps (suc n) g =
    let (goes_on, g1) = debug_step g.cpu.state g in
    let rest = debug_steps n g1 in if goes_on then rest else g1

-- A turn of the outer loop: a stopped CPU only waits.
unfoldable pub debug_turn : Arrival → Gdb Cpu → Gdb Cpu
unfolding debug_steps
debug_turn arrival g =
    let g1 = gdb_poll gdb_target_mcs51 arrival g in
    if g1.is_running then debug_steps 1000 g1 else g1

-- ===== src/Gdb/Examples.antt =====
-- The theorems on the stub, applied at concrete states of a stub for an AT89S52.
use uc_vm.Common.{
  ℕ, zero, suc, ap, ◌≤◌, ◌%◌, ◌-◌, ◌<◌, ◌≡◌, refl, arith, true, false, [], ◌∷◌, ◌++◌, if◌then◌else◌,
  ◌==◌, Mem8, update,
}
use uc_vm.Mcs51.Cpu.{Cpu, running, set_state}
use uc_vm.Mcs51.Step.{cpu_init, cpu_step, blank_cpu, update_parity, run_instruction}
use uc_vm.Mcs51.Irq.{check_irq}
use uc_vm.Mcs51.Timer.{timer_ticks}
use uc_vm.Gdb.Poll.{is_breakpoint}
use uc_vm.Gdb.Running.{at_breakpoint}
use uc_vm.Mcs51.Cpu.{add_cycles}
use uc_vm.Mcs51.Memory.{code_read}
use uc_vm.Mcs51.Decode.Table.{op_table, decode_execute}
use uc_vm.Mcs51.Decode.Branch.{op_nop}
use uc_vm.Gdb.Stub.{Gdb, gdb_buf_size}
use uc_vm.Gdb.Packets.{handle_packet, handle_clear_breakpoint}
use uc_vm.Gdb.Poll.{gdb_init, bytes, gdb_poll, gdb_notify_stop}
use uc_vm.Gdb.Target.{gdb_target_mcs51, mcs51_read_regs, mcs51_write_regs}
use uc_vm.Gdb.Host.{debug_steps, debug_turn}
use uc_vm.Gdb.Breakpoints.{bag, address, handle_clear_breakpoint-bag}
use uc_vm.Gdb.Bounds.{IsBounded, gdb_poll-IsBounded}
use uc_vm.Gdb.Framing.{received, ended, gdb_poll-frame}
use uc_vm.Gdb.Running.{after, debug_steps-breakpoint, debug_turn-step}
use uc_vm.Gdb.Registers.{reg_file, mcs51_read_regs-mcs51_write_regs}

-- MOV A,#42; ADD A,#100; then MOVs of the byte 0 to IRAM.
abbrev program : Mem8
program = update (update (update (update (λ _. 0) 0 0x74) 1 42) 2 0x24) 3 100

-- A stub with a client and a breakpoint behind the first two instructions.
abbrev stub : Gdb Cpu
unfolding gdb_init
stub = record (gdb_init (record cpu_init { code = program })) {
  has_client = true;
  breakpoints = update (λ _. 0) 0 4;
  bp_count = 1;
}

-- The string "g".
gdb_poll-frame_example :
    gdb_poll gdb_target_mcs51 (bytes (b'$' ∷ b'g' ∷ b'#' ∷ 54 ∷ 55 ∷ [])) stub
    ≡ handle_packet gdb_target_mcs51
        (received stub (b'g' ∷ []))
        (ended stub.buf (b'g' ∷ []) gdb_buf_size)
        1
unfolding stub
gdb_poll-frame_example =
    gdb_poll-frame gdb_target_mcs51 stub (b'g' ∷ []) 54 55 refl (ground arith) (omega arith)

gdb_poll-IsBounded_example :
    IsBounded (gdb_poll gdb_target_mcs51 (bytes (b'$' ∷ b'g' ∷ b'#' ∷ 54 ∷ 55 ∷ [])) stub)
unfolding stub
gdb_poll-IsBounded_example =
    gdb_poll-IsBounded gdb_target_mcs51 (bytes (b'$' ∷ b'g' ∷ b'#' ∷ 54 ∷ 55 ∷ [])) stub
      (record { few_breakpoints = omega arith; room_for_nul = omega arith })

handle_clear_breakpoint-bag_example :
    bag (handle_clear_breakpoint gdb_target_mcs51 stub (b'0' ∷ 44 ∷ b'4' ∷ 44 ∷ b'1' ∷ 0 ∷ [])) 4
    ≡ bag stub 4 - (if address (b'0' ∷ 44 ∷ b'4' ∷ 44 ∷ b'1' ∷ 0 ∷ []) == 4 then 1 else 0)
handle_clear_breakpoint-bag_example =
    handle_clear_breakpoint-bag gdb_target_mcs51 stub (b'0' ∷ 44 ∷ b'4' ∷ 44 ∷ b'1' ∷ 0 ∷ []) 4 refl

-- PSW selects bank 3.
mcs51_read_regs-mcs51_write_regs_example :
    mcs51_read_regs (
      mcs51_write_regs stub.cpu (
        reg_file 0x34 0x12 1 2 0x18 0x40 5 6 (8 ∷ 9 ∷ 10 ∷ 11 ∷ 12 ∷ 13 ∷ 14 ∷ 15 ∷ [])
        ++ (0 ∷ [])))
    ≡ reg_file 0x34 0x12 1 2 0x18 0x40 5 6 (8 ∷ 9 ∷ 10 ∷ 11 ∷ 12 ∷ 13 ∷ 14 ∷ 15 ∷ [])
mcs51_read_regs-mcs51_write_regs_example =
    mcs51_read_regs-mcs51_write_regs stub.cpu 0x34 0x12 1 2 0x18 0x40 5 6
      (8 ∷ 9 ∷ 10 ∷ 11 ∷ 12 ∷ 13 ∷ 14 ∷ 15 ∷ []) (0 ∷ []) (ground arith) refl

-- A continued CPU without peripherals at address 0, whose program is NOPs, with a breakpoint at 1.
abbrev nops : Cpu
unfolding blank_cpu
nops = blank_cpu 8192 256

abbrev going : Gdb Cpu
unfolding gdb_init nops
going = record (gdb_init nops) {
  is_running = true;
  breakpoints = update (λ _. 0) 0 1;
  bp_count = 1;
}

op_table_nop : op_table 0 ≡ op_nop
unfolding op_table
op_table_nop = refl

decode_execute-nops : decode_execute nops ≡ op_nop nops
unfolding decode_execute code_read nops blank_cpu
decode_execute-nops = ap (λ f. f nops) op_table_nop

cpu_step-nops : (cpu_step nops).1 ≡ check_irq (update_parity (add_cycles (op_nop nops).1 1))
unfolding cpu_step run_instruction blank_cpu nops op_nop update_parity add_cycles
    uc_vm.Mcs51.Decode.Flags.advance uc_vm.Mcs51.Cpu.set_pc uc_vm.Mcs51.Cpu.set_sfr
cpu_step-nops =
    ap
      (λ r.
        let c2 = update_parity (add_cycles r.1 r.0) in
        check_irq (if c2.periph_timer then timer_ticks r.0 c2 else c2))
      decode_execute-nops

at_one : ((cpu_step nops).1.state ≡ running) × ((cpu_step nops).1.pc ≡ 1)
unfolding nops blank_cpu op_nop update_parity check_irq add_cycles uc_vm.Mcs51.Decode.Flags.advance
    uc_vm.Mcs51.Cpu.set_pc uc_vm.Mcs51.Cpu.set_sfr
at_one = (ap (λ c. c.state) cpu_step-nops, ap (λ c. c.pc) cpu_step-nops)

going_runs : (k : ℕ) → k ≤ 1 → (after k nops).state ≡ running
unfolding nops blank_cpu
going_runs zero h = refl
going_runs (suc zero) h = at_one.0
going_runs (suc (suc k)) h = ground (arith, h)

going_misses : (k : ℕ) → k < 1 → at_breakpoint going (after k nops) ≡ false
unfolding going nops blank_cpu is_breakpoint
going_misses zero h = refl
going_misses (suc k) h = ground (arith, h)

going_hits : at_breakpoint going (cpu_step nops).1 ≡ true
unfolding going is_breakpoint
going_hits = ap (λ k. is_breakpoint 1 (update (λ _. 0) 0 1) (k % 65536)) at_one.1

debug_steps-breakpoint_example :
    debug_steps 1000 going ≡ gdb_notify_stop gdb_target_mcs51 (record going { cpu = after 1 nops })
unfolding going
debug_steps-breakpoint_example =
    debug_steps-breakpoint 1 1000 going (record { left = refl; continued = refl }) going_runs
      going_misses going_hits (omega arith)

debug_turn-step_example :
    debug_turn (bytes (b'$' ∷ b's' ∷ b'#' ∷ 55 ∷ 51 ∷ [])) stub
    ≡ gdb_notify_stop gdb_target_mcs51 (record (received stub (b's' ∷ [])) {
      is_running = true;
      single_step = true;
      cpu = (cpu_step (set_state stub.cpu running)).1;
    })
unfolding stub uc_vm.Gdb.Poll.is_breakpoint cpu_init uc_vm.Mcs51.Cpu.cpu_reset
debug_turn-step_example = debug_turn-step stub 55 51 refl refl refl

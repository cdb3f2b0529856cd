-- ===== src/Mcs51/Evolve/Step.antt =====
-- A whole step keeps what `Evolves` says: timers, interrupts, parity, and the steps of a run.
use uc_vm.Common.{Mem8, ℕ, zero, suc, ◌+◌, ◌≡◌, arith, false, List, [], ◌∷◌}
use uc_vm.Mcs51.Cpu.{
  CpuState, running, sleeping, halted, break, Cpu, add_cycles, cpu_reset, reset_sfr,
}
use uc_vm.Mcs51.Timer.{
  count_13, count_16, count_reload, count_split, count_timer, flag_overflow, tick_timer, finish_tx,
  timer_tick, timer_ticks,
}
use uc_vm.Mcs51.Irq.{IntSource, int_sources, is_ready, accept, poll_sources, check_irq}
use uc_vm.Mcs51.Decode.Table.{decode_execute}
use uc_vm.Mcs51.Step.{
  host_turn, update_parity, is_running, run_instruction, cpu_step, cpu_run, cpu_init, periph_init,
  uart_init, gpio_init, blank_cpu, new_uart,
}
use uc_vm.Mcs51.Memory.{sfr_register}
use uc_vm.Mcs51.Evolve.{IsValid, Evolves, Evolves-trans}
use uc_vm.Mcs51.Evolve.Rules.{Evolves-refl, Evolves-if, Evolves-set_uart, Evolves-add_cycles}
use uc_vm.Mcs51.Evolve.Helpers.{helpers, Evolves-if_snd}
use uc_vm.Mcs51.Evolve.Opcodes.{decode_execute-Evolves}

finish_tx_step : (c : Cpu) → Evolves c (finish_tx c)
unfolding finish_tx
finish_tx_step c =
    Evolves-if c.uart_state.tx_active
      (Evolves-trans
        (Evolves-set_uart c (record (c.uart_state) { tx_active = false })
          (λ v. record {
            tx_head_in = v.tx_head_in;
            tx_tail_in = v.tx_tail_in;
            rx_head_in = v.rx_head_in;
            rx_tail_in = v.rx_tail_in;
            tx_bytes = v.tx_bytes;
            rx_bytes = v.rx_bytes;
          }))
        (search helpers))
      (Evolves-refl c)

pub tick_timer_step : (c : Cpu) (num : ℕ) → Evolves c (tick_timer c num).1
unfolding tick_timer count_timer count_13 count_16 count_reload count_split flag_overflow
tick_timer_step c num = search helpers depth 20 fits 20000

pub timer_tick-Evolves : (c : Cpu) → Evolves c (timer_tick c)
unfolding timer_tick
timer_tick-Evolves c =
    let first = tick_timer_step c 0 in
    let both = Evolves-trans first (tick_timer_step (tick_timer c 0).1 1) in
    Evolves-if _ (Evolves-trans both (finish_tx_step (tick_timer (tick_timer c 0).1 1).1)) both

pub timer_ticks-Evolves : (n : ℕ) (c : Cpu) → Evolves c (timer_ticks n c)
unfolding timer_ticks
timer_ticks-Evolves zero c = Evolves-refl c
timer_ticks-Evolves (suc n) c =
    Evolves-trans (timer_tick-Evolves c) (timer_ticks-Evolves n (timer_tick c))

accept_step : (c : Cpu) (s : IntSource) → Evolves c (accept c s)
unfolding accept
accept_step c s = search helpers depth 20

poll_sources_step : (c : Cpu) (i : ℕ) (l : List IntSource) → Evolves c (poll_sources c i l)
unfolding poll_sources
poll_sources_step c i [] = Evolves-refl c
poll_sources_step c i (s ∷ rest) =
    Evolves-if (is_ready c i s) (accept_step c s) (poll_sources_step c (i + 1) rest)

pub check_irq-Evolves : (c : Cpu) → Evolves c (check_irq c)
unfolding check_irq
check_irq-Evolves c = Evolves-if _ (poll_sources_step c 0 int_sources) (Evolves-refl c)

update_parity_step : {c d : Cpu} → Evolves c d → Evolves c (update_parity d)
unfolding update_parity
update_parity_step e = search helpers

run_instruction_step : (c : Cpu) → Evolves c (run_instruction c).1
unfolding run_instruction
run_instruction_step c =
    let op = (decode_execute-Evolves c).0 in
    let n = (decode_execute c).0 in
    let c2 = update_parity (add_cycles (decode_execute c).1 n) in
    let flagged = update_parity_step (Evolves-add_cycles n op) in
    let ticked =
      Evolves-if c2.periph_timer (Evolves-trans flagged (timer_ticks-Evolves n c2)) flagged in
    Evolves-trans ticked (check_irq-Evolves _)

-- A step of the CPU, with its timer ticks and the interrupt it may accept, keeps every range of
-- the state, the program memory, the hooks and the pins.
pub cpu_step-Evolves : (c : Cpu) → Evolves c (cpu_step c).1
unfolding cpu_step
cpu_step-Evolves c =
    Evolves-if_snd (is_running c.state) (run_instruction c) (0, c) (run_instruction_step c)
      (Evolves-refl c)

host_turn-Evolves : (s : CpuState) (c : Cpu) → Evolves c (host_turn s c)
unfolding host_turn
host_turn-Evolves halted c = Evolves-refl c
host_turn-Evolves break c = Evolves-refl c
host_turn-Evolves sleeping c =
    Evolves-trans (Evolves-add_cycles 1 (Evolves-refl c)) (check_irq-Evolves (add_cycles c 1))
host_turn-Evolves running c = cpu_step-Evolves c

pub cpu_run-Evolves : (n : ℕ) (c : Cpu) → Evolves c (cpu_run n c)
unfolding cpu_run
cpu_run-Evolves zero c = Evolves-refl c
cpu_run-Evolves (suc n) c =
    Evolves-trans (cpu_run-Evolves n c) (host_turn-Evolves (cpu_run n c).state (cpu_run n c))

pub cpu_init-IsValid : IsValid cpu_init
unfolding cpu_init cpu_reset reset_sfr periph_init uart_init gpio_init blank_cpu new_uart
    sfr_register
cpu_init-IsValid = record {
  pc_word = omega arith;
  iram_bytes = λ a. omega arith;
  sfr_bytes = λ a. ground arith;
  xram_bytes = λ a. omega arith;
  uart_valid = record {
    tx_head_in = omega arith;
    tx_tail_in = omega arith;
    rx_head_in = omega arith;
    rx_tail_in = omega arith;
    tx_bytes = λ a. omega arith;
    rx_bytes = λ a. omega arith;
  };
}

-- Whatever program an AT89S52 is given after mcs51_cpu_init, after any number of turns of the
-- host's loop its program counter, internal RAM, SFRs, external RAM and UART are in the ranges
-- of their C types (the UART's ring indices below 32 included), and the program memory is the
-- one that was given.
pub cpu_run-cpu_init :
    (program : Mem8) (n : ℕ)
    → let d = cpu_run n (record cpu_init { code = program }) in IsValid d × (d.code ≡ program)
cpu_run-cpu_init program n =
    let e = cpu_run-Evolves n (record cpu_init { code = program }) in
    let i = cpu_init-IsValid in
    (
      e.keeps_valid (record {
        pc_word = i.pc_word;
        iram_bytes = i.iram_bytes;
        sfr_bytes = i.sfr_bytes;
        xram_bytes = i.xram_bytes;
        uart_valid = i.uart_valid;
      }),
      e.same_code,
    )

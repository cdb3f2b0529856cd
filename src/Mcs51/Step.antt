-- ===== src/Mcs51/Step.antt =====
-- Set-up of an AT89S52 and one step of its CPU: `mcs51_cpu_init` and `mcs51_cpu_step` of
-- src/mcs51/mcs51_cpu.c, src/mcs51/at89s52.c and the calls of src/mcs51/mcs51_mcu_ops.c. No
-- allocation fails, and the message printed on a halt is left out.
use uc_vm.Common.{
  ℕ, ◌/◌, ◌%◌, Bool, true, false, Option, none, [], bit_xor, if◌then◌else◌, nonzero, zero, suc,
}
use uc_vm.Mcs51.Cpu.{
  Cpu, CpuState, running, sleeping, halted, break, Uart, port_read, port_write, sbuf_read,
  sbuf_write, sfr_p0, sfr_p1, sfr_p2, sfr_p3, sfr_sbuf, acc, psw, sfr_psw, set_sfr, set_uart,
  add_cycles, cpu_reset,
}
use uc_vm.Mcs51.Uart.{uart_rx_push, uart_tx_pop}
use uc_vm.Mcs51.Memory.{sfr_register}
use uc_vm.Mcs51.Decode.Flags.{put_mask}
use uc_vm.Mcs51.Decode.Table.{decode_execute}
use uc_vm.Mcs51.Timer.{timer_ticks}
use uc_vm.Mcs51.Irq.{check_irq}

-- `mcs51_uart_init`'s object.
unfoldable pub new_uart : Uart
new_uart = record {
  tx_buf = λ _. 0;
  tx_head = 0;
  tx_tail = 0;
  rx_buf = λ _. 0;
  rx_head = 0;
  rx_tail = 0;
  tx_active = false;
}

-- `mcs51_gpio_init`: hooks for the four ports, and no external level low.
unfoldable pub gpio_init : Cpu → Cpu
gpio_init c =
    let c1 = sfr_register c sfr_p0 port_read port_write in
    let c2 = sfr_register c1 sfr_p1 port_read port_write in
    let c3 = sfr_register c2 sfr_p2 port_read port_write in
    let c4 = sfr_register c3 sfr_p3 port_read port_write in
    record c4 { gpio_state = record { ext_pins = λ _. 255 } }

unfoldable pub uart_init : Cpu → Cpu
unfolding new_uart
uart_init c = record (sfr_register c sfr_sbuf sbuf_read sbuf_write) {
  periph_uart = true;
  uart_state = new_uart;
}

-- `at89s52_periph_init`: GPIO, timer, UART.
unfoldable pub periph_init : Cpu → Cpu
periph_init c = uart_init (record (gpio_init c) { periph_timer = true })

-- What `calloc` gives, with the sizes of the variant.
unfoldable pub blank_cpu : ℕ → ℕ → Cpu
unfolding new_uart
blank_cpu code_size xram_size = record {
  pc = 0;
  cycles = 0;
  state = running;
  iram = λ _. 0;
  sfr = λ _. 0;
  code = λ _. 0;
  code_size = code_size;
  xram = λ _. 0;
  xram_size = xram_size;
  sfr_write = λ _. none;
  sfr_read = λ _. none;
  int_active = λ _. false;
  int_priority = 0;
  periph_timer = false;
  periph_uart = false;
  uart_state = new_uart;
  gpio_state = record { ext_pins = λ _. 0 };
  bridge_cb = false;
  bridge_log = [];
}

-- `mcs51_cpu_init` for the AT89S52: 8192 bytes of code, 256 of external RAM.
unfoldable pub cpu_init : Cpu
cpu_init = cpu_reset (periph_init (blank_cpu 8192 256))

-- `parity8`.
unfoldable pub parity8 : ℕ → ℕ
parity8 v = let v1 = bit_xor v (v / 16) in let v2 = bit_xor v1 (v1 / 4) in bit_xor v2 (v2 / 2) % 2

-- PSW.P follows the accumulator.
unfoldable pub update_parity : Cpu → Cpu
update_parity c = set_sfr c sfr_psw (put_mask (psw c) 0x01 (nonzero (parity8 (acc c))))

unfoldable pub is_running : CpuState → Bool
is_running running = true
is_running sleeping = false
is_running halted = false
is_running break = false

-- The instruction, the parity flag, a tick for each of its cycles, then the interrupts.
unfoldable pub run_instruction : Cpu → ℕ × Cpu
run_instruction c =
    let (n, c1) = decode_execute c in
    let c2 = update_parity (add_cycles c1 n) in
    let c3 = if c2.periph_timer then timer_ticks n c2 else c2 in (n, check_irq c3)

-- `mcs51_cpu_step`.
unfoldable pub cpu_step : Cpu → ℕ × Cpu
unfolding is_running
cpu_step c = let go = run_instruction c in if is_running c.state then go else (0, c)

-- One turn of the loop of pc/main.c, without a debugger, by the state of the CPU. A CPU that is
-- halted or at a break ends the loop, so that nothing more happens to it.
unfoldable pub host_turn : CpuState → Cpu → Cpu
host_turn halted c = c
host_turn break c = c
host_turn sleeping c = check_irq (add_cycles c 1)
host_turn running c = (cpu_step c).1

-- That many turns of the loop.
unfoldable pub cpu_run : ℕ → Cpu → Cpu
unfolding host_turn
cpu_run n c = elim n [ zero ↦ c | suc (m → ih) ↦ host_turn ih.state ih ]

-- `mcs51_uart_push` and `mcs51_uart_pop`: nothing without a UART.
unfoldable pub uart_push : Cpu → ℕ → Cpu
uart_push c byte = if c.periph_uart then uart_rx_push c byte else c

unfoldable pub uart_pop : Cpu → Option ℕ × Cpu
uart_pop c =
    let (out, u) = uart_tx_pop c.uart_state in
    if c.periph_uart then (out, set_uart c u) else (none, c)

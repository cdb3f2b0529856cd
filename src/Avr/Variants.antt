-- ===== src/Avr/Variants.antt =====
-- The ATtiny85 and the ATmega328P: src/avr/attiny85.c and src/avr/atmega328p.c, with the
-- `avr_*_init` functions of the peripherals and `avr_cpu_init` of src/avr/avr_cpu.c. No allocation
-- fails.
use uc_vm.Common.{ℕ, ◌+◌, ◌%◌, true, false, List, [], ◌∷◌, none, some, ltb, if◌then◌else◌}
use uc_vm.Avr.Cpu.{
  AvrCpu, Variant, Timer0Config, PortConfig, AvrUart, UartConfig, avr_running, sreg_read, spl_read,
  sph_read, timer_read, pin_read, port_read, ddr_read, udr_read, ucsra_read, generic_read,
  sreg_write, spl_write, sph_write, timer_write, pin_write, port_write, ddr_write, udr_write,
  ucsra_write, ucsrb_write, set_mem, op_add,
}
use uc_vm.Avr.Memory.{io_register, io_spl, io_sph, io_sreg, sync_sp}
use uc_vm.Avr.Decode.Operands.{decoded}
use uc_vm.Avr.Decode.Predecode.{predecode}

abbrev pub avr_attiny85 : Variant
avr_attiny85 = record {
  data_size = 608;
  sram_start = 0x0060;
  num_vectors = 15;
  vector_size = 1;
  flags = 0x3C;
}

abbrev pub attiny85_timer0_config : Timer0Config
attiny85_timer0_config = record {
  tccr0a = 0x2A;
  tccr0b = 0x33;
  tcnt0 = 0x32;
  ocr0a = 0x29;
  ocr0b = 0x28;
  timsk = 0x39;
  tifr = 0x38;
  toie_bit = 1;
  ocie0a_bit = 4;
  tov_vec = 5;
  oca_vec = 10;
}

abbrev pub attiny85_gpio_ports : List PortConfig
attiny85_gpio_ports = record { pin_io = 0x16; ddr_io = 0x17; port_io = 0x18; port_id = 0 } ∷ []

-- `avr_timer0_init`.
unfoldable pub timer0_init : AvrCpu → Timer0Config → AvrCpu
timer0_init c cfg =
    let hook = λ (d : AvrCpu) (i : ℕ). io_register d i (some timer_read) (some timer_write) in
    let c1 = hook (hook (hook (hook c cfg.tccr0a) cfg.tccr0b) cfg.tcnt0) cfg.ocr0a in
    let c2 = hook (hook (hook c1 cfg.ocr0b) cfg.timsk) cfg.tifr in
    record c2 {
      periph_timer = true;
      timer = record { config = cfg; prescaler_count = 0; counting_up = true };
    }

-- The loop of `avr_gpio_init`.
unfoldable pub register_ports : AvrCpu → List PortConfig → AvrCpu
register_ports c [] = c
register_ports c (p ∷ rest) =
    let c1 = io_register c p.pin_io (some pin_read) (some pin_write) in
    let c2 = io_register c1 p.ddr_io (some ddr_read) (some ddr_write) in
    register_ports (io_register c2 p.port_io (some port_read) (some port_write)) rest

-- `avr_gpio_init`.
unfoldable pub avr_gpio_init : AvrCpu → List PortConfig → AvrCpu
unfolding register_ports
avr_gpio_init c ports = record (register_ports c ports) {
  gpio = record { ports = ports; ext_pins = λ _. 0 };
}

unfoldable pub new_avr_uart : UartConfig → AvrUart
new_avr_uart cfg = record {
  config = cfg;
  tx_buf = λ _. 0;
  tx_head = 0;
  tx_tail = 0;
  rx_buf = λ _. 0;
  rx_head = 0;
  rx_tail = 0;
}

-- `avr_uart_init`.
unfoldable pub avr_uart_init : AvrCpu → UartConfig → AvrCpu
unfolding new_avr_uart
avr_uart_init c cfg =
    let c1 = io_register c cfg.udr_io (some udr_read) (some udr_write) in
    let c2 = io_register c1 cfg.ucsra_io (some ucsra_read) (some ucsra_write) in
    let c3 = io_register c2 cfg.ucsrb_io (some generic_read) (some ucsrb_write) in
    let c4 = io_register c3 cfg.ucsrc_io (some generic_read) none in
    let c5 = io_register c4 cfg.ubrrl_io (some generic_read) none in
    let c6 = io_register c5 cfg.ubrrh_io (some generic_read) none in
    set_mem (record c6 { periph_uart = true; uart = new_avr_uart cfg }) (cfg.ucsra_io + 0x20) 0x20

unfoldable pub attiny85_periph_init : AvrCpu → AvrCpu
attiny85_periph_init c =
    record (avr_gpio_init (timer0_init c attiny85_timer0_config) attiny85_gpio_ports) {
      periph_uart = false;
    }

-- `avr_cpu_reset` without the wait of the ESP32. Nothing runs beside it, so that the state is
-- RUNNING at its end.
unfoldable pub avr_cpu_reset : AvrCpu → AvrCpu
unfolding sync_sp
avr_cpu_reset c =
    let c1 = record c {
      pc = 0;
      sreg = 0;
      sp = (c.variant.data_size + 65535) % 65536;
      cycles = 0;
      irq_pending = 0;
      mem = λ i. if ltb i c.variant.data_size then 0 else c.mem i;
      periph_accum = 0;
    } in
    record (predecode (sync_sp c1)) { state = avr_running }

-- What `calloc` gives, with the variant and the flash; the peripherals' pointers are null.
unfoldable pub blank_avr_cpu : Variant → (ℕ → ℕ) → ℕ → AvrCpu
unfolding new_avr_uart
blank_avr_cpu variant flash flash_size = record {
  pc = 0;
  sreg = 0;
  sp = 0;
  cycles = 0;
  state = avr_running;
  periph_accum = 0;
  flash = flash;
  flash_size = flash_size;
  variant = variant;
  io_read = λ _. none;
  io_write = λ _. none;
  irq_pending = 0;
  periph_timer = false;
  timer = record { config = attiny85_timer0_config; prescaler_count = 0; counting_up = false };
  gpio = record { ports = []; ext_pins = λ _. 0 };
  periph_uart = false;
  uart = new_avr_uart (record {
    udr_io = 0;
    ucsra_io = 0;
    ucsrb_io = 0;
    ucsrc_io = 0;
    ubrrl_io = 0;
    ubrrh_io = 0;
    rxc_vec = 0;
    udre_vec = 0;
    txc_vec = 0;
  });
  decode_cache = λ _. decoded op_add 0 0;
  bridge_cb = false;
  bridge_log = [];
  mem = λ _. 0;
}

-- `avr_cpu_init`: the hooks of SREG and SP, the variant's peripherals, then a reset.
unfoldable pub avr_cpu_init : Variant → (AvrCpu → AvrCpu) → (ℕ → ℕ) → ℕ → AvrCpu
avr_cpu_init variant periph_init flash flash_size =
    let c1 = blank_avr_cpu variant flash flash_size in
    let c2 = io_register c1 io_sreg (some sreg_read) (some sreg_write) in
    let c3 = io_register c2 io_spl (some spl_read) (some spl_write) in
    let c4 = io_register c3 io_sph (some sph_read) (some sph_write) in
    avr_cpu_reset (periph_init c4)

-- An ATtiny85 with that program, of that many bytes.
unfoldable pub attiny85_init : (ℕ → ℕ) → ℕ → AvrCpu
attiny85_init flash flash_size = avr_cpu_init avr_attiny85 attiny85_periph_init flash flash_size

-- ===== src/Avr/Gpio.antt =====
-- The ports of the AVR: src/avr/avr_gpio.c.
use uc_vm.Common.{
  ℕ, ◌+◌, ◌-◌, List, [], ◌∷◌, Option, none, some, bit_and, bit_or, bit_xor, if◌then◌else◌, ◌==◌,
}
use uc_vm.Mcs51.Cpu.{gpio}
use uc_vm.Avr.Cpu.{AvrCpu, PortConfig, set_mem, avr_call_bridge}

-- The loop that looks for the port: its index and its entry.
unfoldable pub find_port : (PortConfig → ℕ) → ℕ → ℕ → List PortConfig → Option (ℕ × PortConfig)
find_port reg io_addr i [] = none
find_port reg io_addr i (p ∷ rest) =
    let later = find_port reg io_addr (i + 1) rest in
    if reg p == io_addr then some (i, p) else later

-- `(ddr & port) | (~ddr & ext)`: the latch at the outputs, the external levels at the inputs.
unfoldable pub pin_value : AvrCpu → ℕ → Option (ℕ × PortConfig) → ℕ
pin_value c io_addr none = c.mem (io_addr + 0x20)
pin_value c io_addr (some (i, p)) =
    let ddr = c.mem (p.ddr_io + 0x20) in
    bit_or (bit_and ddr (c.mem (p.port_io + 0x20))) (bit_and (255 - ddr) (c.gpio.ext_pins i))

unfoldable pub pin_read_hook : AvrCpu → ℕ → ℕ
unfolding pin_value find_port
pin_read_hook c io_addr = pin_value c io_addr (find_port (λ p. p.pin_io) io_addr 0 c.gpio.ports)

-- A write to PINx toggles bits of PORTx, and leaves 0 in PINx.
unfoldable pub toggle_port : AvrCpu → ℕ → ℕ → Option (ℕ × PortConfig) → AvrCpu
toggle_port c io_addr val none = c
toggle_port c io_addr val (some (i, p)) =
    let c1 = set_mem c (p.port_io + 0x20) (bit_xor (c.mem (p.port_io + 0x20)) val) in
    let c2 = set_mem c1 (io_addr + 0x20) 0 in
    avr_call_bridge c2 gpio p.port_id (c2.mem (p.port_io + 0x20))

unfoldable pub pin_write_hook : AvrCpu → ℕ → ℕ → AvrCpu
unfolding toggle_port find_port
pin_write_hook c io_addr val =
    toggle_port c io_addr val (find_port (λ p. p.pin_io) io_addr 0 c.gpio.ports)

unfoldable pub port_read_hook : AvrCpu → ℕ → ℕ
port_read_hook c io_addr = c.mem (io_addr + 0x20)

unfoldable pub report_port : AvrCpu → ℕ → Option (ℕ × PortConfig) → AvrCpu
report_port c val none = c
report_port c val (some (i, p)) = avr_call_bridge c gpio p.port_id val

unfoldable pub port_write_hook : AvrCpu → ℕ → ℕ → AvrCpu
unfolding report_port find_port
port_write_hook c io_addr val =
    report_port c val (find_port (λ p. p.port_io) io_addr 0 c.gpio.ports)

unfoldable pub ddr_read_hook : AvrCpu → ℕ → ℕ
ddr_read_hook c io_addr = c.mem (io_addr + 0x20)

unfoldable pub ddr_write_hook : AvrCpu → ℕ → ℕ → AvrCpu
ddr_write_hook c io_addr val = c

-- ===== src/Mcs51/Gpio.antt =====
-- The ports of the 8051: the hooks of src/mcs51/mcs51_gpio.c.
use uc_vm.Common.{ℕ, Option, none, some, bit_and, if◌then◌else◌, ◌==◌}
use uc_vm.Mcs51.Cpu.{Cpu, gpio, sfr_p0, sfr_p1, sfr_p2, sfr_p3, call_bridge}

-- The switch on the address, by SFR index.
unfoldable pub port_id : ℕ → Option ℕ
port_id i =
    if i == sfr_p0
    then some 0
    else if i == sfr_p1
    then some 1
    else if i == sfr_p2
    then some 2
    else if i == sfr_p3
    then some 3
    else none

-- The level of the pins: latch and external level.
unfoldable pub port_read_hook : Cpu → ℕ → ℕ
unfolding port_id
port_read_hook c i = elim (port_id i) [
  | none ↦ c.sfr i
  | some p ↦ bit_and (c.sfr i) (c.gpio_state.ext_pins p)
]

unfoldable pub port_write_hook : Cpu → ℕ → ℕ → Cpu
unfolding port_id
port_write_hook c i val = elim (port_id i) [ none ↦ c | some p ↦ call_bridge c gpio p val ]

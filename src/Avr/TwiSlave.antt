-- ===== src/Avr/TwiSlave.antt =====
-- The slave with 256 registers: src/avr/avr_twi_slave.c. Its messages are left out.
use uc_vm.Common.{
  ℕ, ◌+◌, ◌/◌, ◌%◌, Bool, true, false, Option, some, if◌then◌else◌, ◌==◌, u8, update,
}
use uc_vm.Avr.Twi.{TwiBus}

-- `virt_i2c_slave_t`.
pub record VirtSlave : Type 0 where
  pub addr : ℕ
  pub regs : ℕ → ℕ
  pub reg_ptr : ℕ
  pub addressed : Bool
  pub first_byte : Bool

unfoldable pub virt_start : VirtSlave → VirtSlave
virt_start s = record s { addressed = false; first_byte = true }

-- Whether the byte is acknowledged.
unfoldable pub virt_write : VirtSlave → ℕ → Bool × VirtSlave
virt_write s byte =
    if s.addressed
    then if s.first_byte
      then (true, record s { reg_ptr = byte; first_byte = false })
      else (true, record s { regs = update s.regs s.reg_ptr byte; reg_ptr = u8 (s.reg_ptr + 1) })
    else if byte / 2 == s.addr
    then (true, record s { addressed = true; first_byte = byte % 2 == 0 })
    else (false, s)

unfoldable pub virt_read : VirtSlave → Bool → Option ℕ × VirtSlave
virt_read s ack =
    if s.addressed
    then (some (s.regs s.reg_ptr), record s { reg_ptr = u8 (s.reg_ptr + 1) })
    else (some 0xFF, s)

unfoldable pub virt_stop : VirtSlave → VirtSlave
virt_stop s = record s { addressed = false }

-- `avr_twi_create_virtual_slave`: the bus, and the slave behind it.
abbrev pub virt_bus : TwiBus VirtSlave
virt_bus = record {
  start = some virt_start;
  write_byte = some virt_write;
  read_byte = some virt_read;
  stop = some virt_stop;
}

unfoldable pub new_slave : ℕ → VirtSlave
new_slave addr = record {
  addr = addr;
  regs = u8;
  reg_ptr = 0;
  addressed = false;
  first_byte = false;
}

-- ===== src/Mcs51/Memory.antt =====
-- Memory access of the 8051 and its stack: src/mcs51/mcs51_cpu.c. A read of a register with a
-- hook may change the state, so `direct_read` returns the value with the new state.
use uc_vm.Common.{
  ℕ, ◌+◌, ◌-◌, ◌/◌, ◌%◌, ◌^◌, Option, none, some, u8, bit_and, bit_or, if◌then◌else◌, ltb, Bool,
  update,
}
use uc_vm.Mcs51.Cpu.{
  Cpu, SfrReadFn, SfrWriteFn, port_read, sbuf_read, port_write, sbuf_write, sfr_sp, set_iram,
  set_sfr, set_xram,
}
use uc_vm.Mcs51.Uart.{sbuf_read_hook, sbuf_write_hook}
use uc_vm.Mcs51.Gpio.{port_read_hook, port_write_hook}

-- `mcs51_sfr_register`.
unfoldable pub sfr_register : Cpu → ℕ → SfrReadFn → SfrWriteFn → Cpu
sfr_register c i r w = record c {
  sfr_read = update c.sfr_read i (some r);
  sfr_write = update c.sfr_write i (some w);
}

-- A registered hook, or the SFR itself.
unfoldable pub run_read_hook : Cpu → ℕ → Option SfrReadFn → ℕ × Cpu
run_read_hook c i none = (c.sfr i, c)
run_read_hook c i (some port_read) = (port_read_hook c i, c)
run_read_hook c i (some sbuf_read) = sbuf_read_hook c

unfoldable pub run_write_hook : Cpu → ℕ → ℕ → Option SfrWriteFn → Cpu
run_write_hook c i val none = c
run_write_hook c i val (some port_write) = port_write_hook c i val
run_write_hook c i val (some sbuf_write) = sbuf_write_hook c val

unfoldable pub direct_read : Cpu → ℕ → ℕ × Cpu
unfolding run_read_hook
direct_read c addr =
    if ltb addr 0x80
    then (c.iram addr, c)
    else run_read_hook c (addr - 0x80) (c.sfr_read (addr - 0x80))

unfoldable pub direct_write : Cpu → ℕ → ℕ → Cpu
unfolding run_write_hook
direct_write c addr val =
    if ltb addr 0x80
    then set_iram c addr val
    else run_write_hook (set_sfr c (addr - 0x80) val) (addr - 0x80) (u8 val)
        (c.sfr_write (addr - 0x80))

unfoldable pub indirect_read : Cpu → ℕ → ℕ
indirect_read c addr = c.iram addr

unfoldable pub indirect_write : Cpu → ℕ → ℕ → Cpu
indirect_write c addr val = set_iram c addr val

-- `cur |= 1 << pos` or `cur &= ~(1 << pos)`.
unfoldable pub put_bit : ℕ → ℕ → Bool → ℕ
put_bit cur pos v = if v then bit_or cur (2 ^ pos) else bit_and cur (255 - 2 ^ pos)

unfoldable pub bit_read : Cpu → ℕ → ℕ × Cpu
bit_read c bitaddr =
    if ltb bitaddr 0x80
    then (c.iram (0x20 + bitaddr / 8) / 2 ^ (bitaddr % 8) % 2, c)
    else (let (v, c1) = direct_read c (bit_and bitaddr 0xF8) in (v / 2 ^ (bitaddr % 8) % 2, c1))

unfoldable pub bit_write : Cpu → ℕ → Bool → Cpu
bit_write c bitaddr val =
    if ltb bitaddr 0x80
    then (let a = 0x20 + bitaddr / 8 in set_iram c a (put_bit (c.iram a) (bitaddr % 8) val))
    else (let (cur, c1) = direct_read c (bit_and bitaddr 0xF8) in
        direct_write c1 (bit_and bitaddr 0xF8) (put_bit cur (bitaddr % 8) val))

unfoldable pub xdata_read : Cpu → ℕ → ℕ
xdata_read c addr = if ltb addr c.xram_size then c.xram addr else 0xFF

unfoldable pub xdata_write : Cpu → ℕ → ℕ → Cpu
xdata_write c addr val = if ltb addr c.xram_size then set_xram c addr val else c

unfoldable pub code_read : Cpu → ℕ → ℕ
code_read c addr = if ltb addr c.code_size then c.code addr else 0xFF

-- `mcs51_push`: SP is incremented first.
unfoldable pub push : Cpu → ℕ → Cpu
push c val = let s = u8 (c.sfr sfr_sp + 1) in let c1 = set_sfr c sfr_sp s in set_iram c1 s val

-- `mcs51_pop`; SP wraps from 0 to 255.
unfoldable pub pop : Cpu → ℕ × Cpu
pop c = let s = c.sfr sfr_sp in (c.iram s, set_sfr c sfr_sp (s + 255))

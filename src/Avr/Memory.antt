-- ===== src/Avr/Memory.antt =====
-- Memory access of the AVR and its stack: src/avr/avr_cpu.c, with the copies of the stack
-- operations in src/avr/avr_decode.c. A read of a register with a hook may change the state, so
-- a read returns the value with the new state. A store past the data size, which C leaves
-- undefined, changes `mem` at that index.
use uc_vm.Common.{
  ℕ, ◌+◌, ◌-◌, ◌*◌, ◌/◌, ◌%◌, Option, none, some, bit_and, bit_or, if◌then◌else◌, ltb, leb, ◌==◌,
  ◌&&◌, update, nonzero,
}
use uc_vm.Avr.Cpu.{
  AvrCpu, IoReadFn, IoWriteFn, sreg_read, spl_read, sph_read, timer_read, pin_read, port_read,
  ddr_read, udr_read, ucsra_read, generic_read, sreg_write, spl_write, sph_write, timer_write,
  pin_write, port_write, ddr_write, udr_write, ucsra_write, ucsrb_write, adc_write, set_sreg,
  set_sp, set_mem,
}
use uc_vm.Avr.Timer.{timer_read_hook, timer_write_hook}
use uc_vm.Avr.Gpio.{
  pin_read_hook, pin_write_hook, port_read_hook, port_write_hook, ddr_read_hook, ddr_write_hook,
}
use uc_vm.Avr.Uart.{
  udr_read_hook, udr_write_hook, ucsra_read_hook, ucsra_write_hook, generic_read_hook,
  ucsrb_write_hook,
}

abbrev pub io_base : ℕ
io_base = 0x20

-- AVR_IO_MAX.
abbrev pub io_max : ℕ
io_max = 224

abbrev pub io_sreg : ℕ
io_sreg = 0x3F

abbrev pub io_spl : ℕ
io_spl = 0x3D

abbrev pub io_sph : ℕ
io_sph = 0x3E

unfoldable pub sreg_write_hook : AvrCpu → ℕ → AvrCpu
sreg_write_hook c val = set_mem (set_sreg c val) (io_sreg + io_base) val

-- `(sp & 0xFF00) | val` and `(sp & 0x00FF) | (val << 8)`; the fields do not overlap.
unfoldable pub spl_write_hook : AvrCpu → ℕ → AvrCpu
spl_write_hook c val = set_mem (set_sp c (c.sp / 256 * 256 + val)) (io_spl + io_base) val

unfoldable pub sph_write_hook : AvrCpu → ℕ → AvrCpu
sph_write_hook c val = set_mem (set_sp c (c.sp % 256 + val * 256)) (io_sph + io_base) val

-- `adc_write` of src/avr/atmega328p.c: a conversion is complete at once, with result 0.
unfoldable pub adc_write_hook : AvrCpu → ℕ → ℕ → AvrCpu
adc_write_hook c io_addr val =
    let starts = nonzero (bit_and val 0x40) in
    let v1 = if starts then bit_or (bit_and val 0xBF) 0x10 else val in
    let c1 = if starts then set_mem (set_mem c (0x58 + io_base) 0) (0x59 + io_base) 0 else c in
    let v2 = if nonzero (bit_and v1 0x10) then bit_and v1 0xEF else v1 in
    if io_addr == 0x5A then set_mem c1 (io_addr + io_base) v2 else c

-- A registered hook, or the byte of `data` itself.
unfoldable pub run_io_read : AvrCpu → ℕ → Option IoReadFn → ℕ × AvrCpu
run_io_read c i none = (c.mem (i + io_base), c)
run_io_read c i (some sreg_read) = (c.sreg, c)
run_io_read c i (some spl_read) = (c.sp % 256, c)
run_io_read c i (some sph_read) = (c.sp / 256 % 256, c)
run_io_read c i (some timer_read) = (timer_read_hook c i, c)
run_io_read c i (some pin_read) = (pin_read_hook c i, c)
run_io_read c i (some port_read) = (port_read_hook c i, c)
run_io_read c i (some ddr_read) = (ddr_read_hook c i, c)
run_io_read c i (some udr_read) = udr_read_hook c
run_io_read c i (some ucsra_read) = ucsra_read_hook c i
run_io_read c i (some generic_read) = (generic_read_hook c i, c)

unfoldable pub run_io_write : AvrCpu → ℕ → ℕ → Option IoWriteFn → AvrCpu
run_io_write c i val none = c
run_io_write c i val (some sreg_write) = sreg_write_hook c val
run_io_write c i val (some spl_write) = spl_write_hook c val
run_io_write c i val (some sph_write) = sph_write_hook c val
run_io_write c i val (some timer_write) = timer_write_hook c i val
run_io_write c i val (some pin_write) = pin_write_hook c i val
run_io_write c i val (some port_write) = port_write_hook c i val
run_io_write c i val (some ddr_write) = ddr_write_hook c i val
run_io_write c i val (some udr_write) = udr_write_hook c val
run_io_write c i val (some ucsra_write) = ucsra_write_hook c i val
run_io_write c i val (some ucsrb_write) = ucsrb_write_hook c
run_io_write c i val (some adc_write) = adc_write_hook c i val

-- The tables have entries below `io_max`.
unfoldable pub read_fn : AvrCpu → ℕ → Option IoReadFn
read_fn c i = if ltb i io_max then c.io_read i else none

unfoldable pub write_fn : AvrCpu → ℕ → Option IoWriteFn
write_fn c i = if ltb i io_max then c.io_write i else none

-- `avr_io_register`.
unfoldable pub io_register : AvrCpu → ℕ → Option IoReadFn → Option IoWriteFn → AvrCpu
io_register c i r w =
    if ltb i io_max
    then record c { io_read = update c.io_read i r; io_write = update c.io_write i w }
    else c

unfoldable pub avr_io_read : AvrCpu → ℕ → ℕ × AvrCpu
unfolding run_io_read read_fn
avr_io_read c io_addr = run_io_read c io_addr (read_fn c io_addr)

-- The byte is stored before the hook runs.
unfoldable pub avr_io_write : AvrCpu → ℕ → ℕ → AvrCpu
unfolding run_io_write write_fn
avr_io_write c io_addr val =
    run_io_write (set_mem c (io_addr + io_base) val) io_addr val (write_fn c io_addr)

-- `avr_data_read`: registers, I/O below SRAM, SRAM, and 0xFF beyond.
unfoldable pub data_read : AvrCpu → ℕ → ℕ × AvrCpu
unfolding run_io_read
data_read c addr =
    if ltb addr 0x20
    then (c.mem addr, c)
    else if ltb addr (0x20 + io_max) && ltb addr c.variant.sram_start
    then run_io_read c (addr - io_base) (c.io_read (addr - io_base))
    else if ltb addr c.variant.data_size
    then (c.mem addr, c)
    else (0xFF, c)

unfoldable pub data_write : AvrCpu → ℕ → ℕ → AvrCpu
unfolding run_io_write
data_write c addr val =
    if ltb addr 0x20
    then set_mem c addr val
    else if ltb addr (0x20 + io_max) && ltb addr c.variant.sram_start
    then run_io_write (set_mem c addr val) (addr - io_base) val (c.io_write (addr - io_base))
    else if ltb addr c.variant.data_size
    then set_mem c addr val
    else c

unfoldable pub flash_read_byte : AvrCpu → ℕ → ℕ
flash_read_byte c byte_addr =
    let word = c.flash (byte_addr / 2) in
    if leb c.flash_size byte_addr
    then 0xFF
    else if byte_addr % 2 == 1
    then word / 256 % 256
    else word % 256

-- SP is kept in the I/O registers too.
unfoldable pub sync_sp : AvrCpu → AvrCpu
sync_sp c =
    set_mem (set_mem c (io_spl + io_base) (c.sp % 256)) (io_sph + io_base) (c.sp / 256 % 256)

-- `avr_push`: the byte is stored unless SP is below SRAM.
unfoldable pub avr_push : AvrCpu → ℕ → AvrCpu
unfolding sync_sp
avr_push c val =
    let c1 = if leb c.variant.sram_start c.sp then set_mem c c.sp val else c in
    sync_sp (set_sp c1 (c1.sp + 65535))

-- `avr_pop`: 0xFF from beyond the data space.
unfoldable pub avr_pop : AvrCpu → ℕ × AvrCpu
unfolding sync_sp
avr_pop c =
    let c1 = sync_sp (set_sp c (c.sp + 1)) in
    (if ltb c1.sp c1.variant.data_size then c1.mem c1.sp else 0xFF, c1)

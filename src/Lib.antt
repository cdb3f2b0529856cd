-- ===== src/Lib.antt =====
-- A model of ucvm, a virtual machine for microcontrollers, and what is proved about it.
--
-- The program runs firmware of an 8051 or of an AVR. A loader (src/util/ihex.c) puts a firmware
-- file into the program memory. The CPU of the 8051 (src/mcs51/mcs51_cpu.c,
-- src/mcs51/mcs51_decode.c) executes an instruction at a time, ticks the timers
-- (src/mcs51/mcs51_timer.c) once for every machine cycle and then looks for an interrupt; hooks on
-- special function registers connect it with the UART (src/mcs51/mcs51_uart.c) and the ports
-- (src/mcs51/mcs51_gpio.c). The AVR (src/avr/avr_cpu.c, src/avr/avr_decode.c) decodes its whole
-- flash once, fuses frequent sequences into one operation, and runs by a threaded dispatch that
-- ticks the peripherals (src/avr/avr_timer.c, avr_uart.c, avr_gpio.c) now and then. The host
-- (pc/main.c) calls the step function in a loop and exchanges bytes and pin levels through
-- src/mcs51/mcs51_mcu_ops.c; a debugger may halt, step and inspect either CPU through the stub of
-- src/gdb/gdb_stub.c, which reaches it by the operations of src/gdb/gdb_target.h. A table of entries
-- (src/io/io_bridge.c) says which resource of the host stands for which one of the machine; it is
-- kept in a binary form.
--
-- What models which part:
--   Common             numbers of fixed width, Boolean tests, bit operations, lists
--   Firmware.Files     fread, fgets and strings as src/util/ihex.c uses them, a byte into flash
--   Firmware.Hex       ihex_load_fp, ihex_load_bytes_fp
--   Firmware.Ucfm      ucfm_load, ucfm_load_bytes, ucfm_save, fw_detect, fw_load, fw_load_bytes
--   Mcs51.Cpu          struct mcs51_cpu, mcs51_uart_t, mcs51_gpio_t; the stores; mcs51_cpu_reset
--   Mcs51.Memory       mcs51_direct_read to mcs51_pop of src/mcs51/mcs51_cpu.c
--   Mcs51.Uart, Gpio   the hooks of SBUF and of the ports, mcs51_uart_rx_push, mcs51_uart_tx_pop
--   Mcs51.Decode       src/mcs51/mcs51_decode.c: Flags (the helpers), Arith, Logic, Move, Branch, Bit
--                      (the handlers), Table (op_table, mcs51_decode_execute)
--   Mcs51.Timer        tick_timer, mcs51_timer_tick
--   Mcs51.Irq          int_sources, mcs51_cpu_check_irq
--   Mcs51.Step         mcs51_cpu_init with src/mcs51/at89s52.c, mcs51_cpu_step, the host's loop
--   Mcs51.Load         mcs51_load_fw
--   Avr.Cpu            struct avr_cpu, the objects of its peripherals, the operations' names
--   Avr.Memory         avr_data_read to avr_pop of src/avr/avr_cpu.c with the hooks of I/O registers
--   Avr.Timer, Gpio,   src/avr/avr_timer.c, avr_gpio.c, avr_uart.c
--     Uart
--   Avr.Flags          the flag helpers of src/avr/avr_decode.c
--   Avr.Exec           the handlers of avr_cpu_run: Arith, Transfer, Branch, Fused, and Dispatch
--   Avr.Decode         avr_predecode: Operands (the fields), Classify (the groups), Predecode (the
--                      loop over the flash and the fusions)
--   Avr.Irq            avr_cpu_check_irq
--   Avr.Run            avr_cpu_run, avr_tick_peripherals, avr_cpu_step
--   Avr.Variants       avr_cpu_init, avr_cpu_reset, src/avr/attiny85.c
--   Avr.Twi, TwiOps    src/avr/avr_twi.c: registers and calls of the bus, operations
--   Avr.TwiSlave       src/avr/avr_twi_slave.c
--   Avr.HostOps        src/avr/avr_mcu_ops.c
--   Gdb.Stub           struct gdb_state, gdb_target_ops_t, the hexadecimal helpers, send_packet
--   Gdb.Packets        the handlers of the commands, handle_packet
--   Gdb.Poll           gdb_init, gdb_poll, gdb_check_breakpoint, gdb_notify_stop
--   Gdb.Target         src/gdb/gdb_target_mcs51.c; Gdb.TargetAvr: src/gdb/gdb_target_avr.c
--   Bridge.Table       src/io/io_bridge.c with the types of src/io/io_bridge.h
--   Gdb.Host           the loop of run_mcs51 of pc/main.c with the stub
-- The other modules hold proofs: Firmware.RoundTrip, Records and Detect on the loaders;
-- Mcs51.Evolve on what every operation keeps; Mcs51.Alu on the arithmetic; Mcs51.BitMemory,
-- Calls, Requests (interrupts by the bits of the registers), Priority (the loop over the table of
-- interrupts), Waking, Ticks, Steps and Serial on the parts that their names say; Avr.Sreg on the
-- flags, Avr.Fusion on fused operations, Avr.Calls, Prescaler, Vectors, TwiSteps, TwiTransfer and
-- TwiTiming; Gdb.Digits, Framing, Registers, Breakpoints, Bounds and Running; Bridge.Entries and
-- RoundTrip. Examples modules apply the theorems at concrete states.
--
-- How the code is read. A C array is a function from its indices; a store keeps `% 256`,
-- `% 65536`, `% 2 ^ 32` or `% 2 ^ 64` by its type. A mask of low ones is a remainder, a shift is a
-- product or a quotient, and fields that do not overlap are added; other masks use the bit
-- operations. A handler takes the state and returns its cycles with the new state. The handlers
-- for R0 to R7 of the 8051, and those for @R0 and @R1, are one definition over the number of the
-- register. A hook is a constructor (`port_read`, `sbuf_write`, ...), with the object of its
-- context in the state. A call of the host's bridge callback is recorded in `bridge_log`, and what
-- the stub writes to its client in `sent`, newest first. A file is the list of its bytes, and a
-- file that cannot be opened is `none`; a pointer into a string is the list of the bytes from there
-- to the end of its buffer; what a socket has for a poll is an argument of the poll.
--
-- Every loop is a structural recursion: over the sources of interrupts, the cycles of an
-- instruction, the lines of a file, the bytes of a record, the characters received, the entries of
-- a table. These loops run on fuel: the one over the chunks of a range of a binary file, on the
-- bytes that remain, of which each chunk has one or more; the prescaler of the AVR's Timer 0, on
-- the cycles that wait, of which each turn takes the divisor; the predecoder, on the words of
-- flash, of which each turn passes one or two. A theorem on the host's loop is about any number of
-- its turns.
--
-- Not modelled: the set-up of the ATmega328P, with which the hooks of the two-wire interface are
-- registered (its functions are applied to the CPU and its object), the getters of
-- src/avr/avr_mcu_ops.c and src/mcs51/mcs51_mcu_ops.c, which read a field, the AVR's loop of
-- pc/main.c, its options and terminal, sockets, the ESP32 port, failures of malloc, messages on
-- stderr, and Timer 2 of the 8051, which the code has no operation for.
mod Common
pub mod Firmware
pub mod Mcs51
pub mod Avr
pub mod Gdb
pub mod Bridge

-- ===== src/Avr/Uart.antt =====
-- The UART of the AVR: src/avr/avr_uart.c. UART_BUF_SIZE is 32.
use uc_vm.Common.{
  ℕ, ◌+◌, ◌-◌, ◌%◌, Bool, Option, none, some, bit_and, bit_or, if◌then◌else◌, nonzero, ◌==◌, u8,
  update, not, ◌&&◌,
}
use uc_vm.Mcs51.Cpu.{uart}
use uc_vm.Avr.Cpu.{AvrCpu, AvrUart, set_mem, raise_irq, set_avr_uart, avr_call_bridge}

-- `(head - tail) & (UART_BUF_SIZE - 1)`; the indices are bytes.
unfoldable pub avr_ring_count : ℕ → ℕ → ℕ
avr_ring_count head tail = (head + 256 - tail) % 32

unfoldable pub avr_ring_full : ℕ → ℕ → Bool
unfolding avr_ring_count
avr_ring_full head tail = avr_ring_count head tail == 31

unfoldable pub avr_ring_empty : ℕ → ℕ → Bool
avr_ring_empty head tail = head == tail

-- `if (on) x |= mask; else x &= ~mask`.
unfoldable pub put_status : ℕ → ℕ → Bool → ℕ
put_status x mask on = if on then bit_or x mask else bit_and x (255 - mask)

-- `uart_update_status`: UDRE and RXC, then the interrupts that they request.
unfoldable pub uart_update_status : AvrCpu → AvrCpu
uart_update_status c =
    let u = c.uart in
    let cfg = u.config in
    let s1 =
      put_status (c.mem (cfg.ucsra_io + 0x20)) 0x20 (not (avr_ring_full u.tx_head u.tx_tail)) in
    let status = put_status s1 0x80 (not (avr_ring_empty u.rx_head u.rx_tail)) in
    let c1 = set_mem c (cfg.ucsra_io + 0x20) status in
    let ucsrb = c1.mem (cfg.ucsrb_io + 0x20) in
    let c2 =
      if nonzero (bit_and status 0x20) && nonzero (bit_and ucsrb 0x20)
      then raise_irq c1 cfg.udre_vec
      else c1 in
    if nonzero (bit_and status 0x80) && nonzero (bit_and ucsrb 0x80)
    then raise_irq c2 cfg.rxc_vec
    else c2

-- The rings alone: a byte is lost when the ring is full.
unfoldable pub avr_tx_put : AvrUart → ℕ → AvrUart
avr_tx_put u val =
    if avr_ring_full u.tx_head u.tx_tail
    then u
    else record u { tx_buf = update u.tx_buf u.tx_head (u8 val); tx_head = (u.tx_head + 1) % 32 }

unfoldable pub avr_rx_put : AvrUart → ℕ → AvrUart
avr_rx_put u byte =
    if avr_ring_full u.rx_head u.rx_tail
    then u
    else record u { rx_buf = update u.rx_buf u.rx_head (u8 byte); rx_head = (u.rx_head + 1) % 32 }

unfoldable pub udr_read_hook : AvrCpu → ℕ × AvrCpu
udr_read_hook c =
    let u = c.uart in
    if avr_ring_empty u.rx_head u.rx_tail then (0, c) else (
      u.rx_buf u.rx_tail,
      uart_update_status (set_avr_uart c (record u { rx_tail = (u.rx_tail + 1) % 32 })),
    )

-- Nothing unless TXEN is set.
unfoldable pub udr_write_hook : AvrCpu → ℕ → AvrCpu
udr_write_hook c val =
    let cfg = c.uart.config in
    let c1 = set_avr_uart c (avr_tx_put c.uart val) in
    let c2 = set_mem c1 (cfg.ucsra_io + 0x20) (bit_or (c1.mem (cfg.ucsra_io + 0x20)) 0x40) in
    if nonzero (bit_and (c.mem (cfg.ucsrb_io + 0x20)) 0x08)
    then uart_update_status (avr_call_bridge c2 uart 0 val)
    else c

unfoldable pub ucsra_read_hook : AvrCpu → ℕ → ℕ × AvrCpu
ucsra_read_hook c io_addr = let c1 = uart_update_status c in (c1.mem (io_addr + 0x20), c1)

-- TXC is cleared by a 1, and U2X and MPCM are stored. `avr_io_write` has stored `val` before.
unfoldable pub ucsra_write_hook : AvrCpu → ℕ → ℕ → AvrCpu
ucsra_write_hook c io_addr val =
    let at = io_addr + 0x20 in
    let c1 = if nonzero (bit_and val 0x40) then set_mem c at (bit_and (c.mem at) 0xBF) else c in
    set_mem c1 at (bit_or (bit_and (c1.mem at) 0xFC) (bit_and val 0x03))

unfoldable pub generic_read_hook : AvrCpu → ℕ → ℕ
generic_read_hook c io_addr = c.mem (io_addr + 0x20)

unfoldable pub ucsrb_write_hook : AvrCpu → AvrCpu
ucsrb_write_hook c = uart_update_status c

-- `avr_uart_rx_push`: nothing unless RXEN is set.
unfoldable pub avr_uart_rx_push : AvrCpu → ℕ → AvrCpu
avr_uart_rx_push c byte =
    if nonzero (bit_and (c.mem (c.uart.config.ucsrb_io + 0x20)) 0x10)
    then uart_update_status (set_avr_uart c (avr_rx_put c.uart byte))
    else c

-- `avr_uart_tx_pop`: none stands for -1.
unfoldable pub avr_uart_tx_pop : AvrUart → Option ℕ × AvrUart
avr_uart_tx_pop u =
    if avr_ring_empty u.tx_head u.tx_tail
    then (none, u)
    else (some (u.tx_buf u.tx_tail), record u { tx_tail = (u.tx_tail + 1) % 32 })

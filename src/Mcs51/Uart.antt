-- ===== src/Mcs51/Uart.antt =====
-- The UART of the 8051: src/mcs51/mcs51_uart.c. A ring holds at most 31 bytes.
use uc_vm.Common.{
  ℕ, ◌+◌, ◌%◌, Bool, true, Option, none, some, update, bit_and, bit_or, if◌then◌else◌, ◌==◌,
  nonzero,
}
use uc_vm.Mcs51.Cpu.{Cpu, Uart, uart, sfr_scon, sfr_sbuf, set_sfr, set_uart, call_bridge}

-- `(h + 1) & (MCS51_UART_BUF_SIZE - 1)`: a mask of ones is a remainder.
abbrev pub ring_next : ℕ → ℕ
ring_next h = (h + 1) % 32

unfoldable pub ring_empty : ℕ → ℕ → Bool
ring_empty h t = h == t

unfoldable pub ring_full : ℕ → ℕ → Bool
ring_full h t = ring_next h == t

-- The transmit ring after a write to SBUF, with TX marked active.
unfoldable pub tx_put : Uart → ℕ → Uart
tx_put u val =
    let v =
      if ring_full u.tx_head u.tx_tail
      then u
      else record u { tx_buf = update u.tx_buf u.tx_head val; tx_head = ring_next u.tx_head } in
    record v { tx_active = true }

-- The hook for a write to SBUF.
unfoldable pub sbuf_write_hook : Cpu → ℕ → Cpu
sbuf_write_hook c val = call_bridge (set_uart c (tx_put c.uart_state val)) uart 0 val

-- The hook for a read of SBUF: the oldest byte received, or 0.
unfoldable pub sbuf_read_hook : Cpu → ℕ × Cpu
sbuf_read_hook c =
    let u = c.uart_state in
    if ring_empty u.rx_head u.rx_tail
    then (0, c)
    else (u.rx_buf u.rx_tail, set_uart c (record u { rx_tail = ring_next u.rx_tail }))

-- The receive ring after a byte arrives.
unfoldable pub rx_put : Uart → ℕ → Uart
rx_put u byte =
    if ring_full u.rx_head u.rx_tail
    then u
    else record u { rx_buf = update u.rx_buf u.rx_head byte; rx_head = ring_next u.rx_head }

-- `mcs51_uart_rx_push`: nothing unless REN is set.
unfoldable pub uart_rx_push : Cpu → ℕ → Cpu
uart_rx_push c byte =
    if nonzero (bit_and (c.sfr sfr_scon) 0x10)
    then (let c1 = set_uart c (rx_put c.uart_state byte) in
        let c2 = set_sfr c1 sfr_sbuf byte in set_sfr c2 sfr_scon (bit_or (c2.sfr sfr_scon) 0x01))
    else c

-- `mcs51_uart_tx_pop`: the oldest byte sent; `none` is the -1.
unfoldable pub uart_tx_pop : Uart → Option ℕ × Uart
uart_tx_pop u =
    if ring_empty u.tx_head u.tx_tail
    then (none, u)
    else (some (u.tx_buf u.tx_tail), record u { tx_tail = ring_next u.tx_tail })

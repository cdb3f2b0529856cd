-- ===== src/Mcs51/Timer.antt =====
-- Timers 0 and 1 of the 8051: src/mcs51/mcs51_timer.c. Fields that do not overlap are added.
use uc_vm.Common.{
  ℕ, ◌+◌, ◌*◌, ◌/◌, ◌%◌, Bool, true, false, ◌&&◌, u8, u16, bit_and, bit_or, if◌then◌else◌, leb,
  nonzero, ◌==◌, zero, suc,
}
use uc_vm.Mcs51.Cpu.{
  Cpu, sfr_tcon, sfr_tmod, sfr_tl0, sfr_tl1, sfr_th0, sfr_th1, sfr_scon, set_sfr, set_uart,
}

-- Mode 0: TL's low five bits and TH count as 13 bits.
unfoldable pub count_13 : Cpu → ℕ → ℕ → Bool × Cpu
count_13 c tl th =
    let val = u16 (c.sfr th * 32 + c.sfr tl % 32 + 1) in
    let overflow = leb 0x2000 val in
    let val' = if overflow then 0 else val in
    (overflow, set_sfr (set_sfr c tl (c.sfr tl / 32 * 32 + val' % 32)) th (val' / 32 % 256))

-- Mode 1: 16 bits.
unfoldable pub count_16 : Cpu → ℕ → ℕ → Bool × Cpu
count_16 c tl th =
    let val = u16 (c.sfr th * 256 + c.sfr tl + 1) in
    (val == 0, set_sfr (set_sfr c tl (val % 256)) th (val / 256 % 256))

-- Mode 2: TL counts, and is loaded from TH when it wraps.
unfoldable pub count_reload : Cpu → ℕ → ℕ → Bool × Cpu
count_reload c tl th =
    let c1 = set_sfr c tl (c.sfr tl + 1) in
    if c1.sfr tl == 0 then (true, set_sfr c1 tl (c1.sfr th)) else (false, c1)

-- Mode 3 of Timer 0: TL0 counts for TF0, and TH0 for TF1 while TR1 is set. Timer 1 stands still.
unfoldable pub count_split : Cpu → ℕ → ℕ → Bool × Cpu
count_split c tcon num =
    if num == 0
    then (let c1 = set_sfr c sfr_tl0 (c.sfr sfr_tl0 + 1) in
        let overflow = c1.sfr sfr_tl0 == 0 in
        let c2 =
          if nonzero (bit_and tcon 0x40)
          then (let th0 = u8 (c1.sfr sfr_th0 + 1) in
              let c3 = set_sfr c1 sfr_th0 th0 in
              if th0 == 0 then set_sfr c3 sfr_tcon (bit_or (c3.sfr sfr_tcon) 0x80) else c3)
          else c1 in
        (overflow, c2))
    else (false, c)

-- The mode bits, the run bit, the overflow flag and the registers of a timer.
abbrev pub timer_mode : Cpu → ℕ → ℕ
timer_mode c num = if num == 0 then c.sfr sfr_tmod % 4 else c.sfr sfr_tmod / 16 % 4

abbrev pub tr_bit : ℕ → ℕ
tr_bit num = if num == 0 then 0x10 else 0x40

abbrev pub tf_bit : ℕ → ℕ
tf_bit num = if num == 0 then 0x20 else 0x80

abbrev pub tl_of : ℕ → ℕ
tl_of num = if num == 0 then sfr_tl0 else sfr_tl1

abbrev pub th_of : ℕ → ℕ
th_of num = if num == 0 then sfr_th0 else sfr_th1

-- The switch on the mode.
unfoldable pub count_timer : Cpu → ℕ → Bool × Cpu
count_timer c num =
    let mode = timer_mode c num in
    if mode == 0
    then count_13 c (tl_of num) (th_of num)
    else if mode == 1
    then count_16 c (tl_of num) (th_of num)
    else if mode == 2
    then count_reload c (tl_of num) (th_of num)
    else count_split c (c.sfr sfr_tcon) num

-- `if (overflow) TCON |= tf_bit`.
unfoldable pub flag_overflow : Bool → Cpu → ℕ → Cpu
flag_overflow overflow c num =
    if overflow then set_sfr c sfr_tcon (bit_or (c.sfr sfr_tcon) (tf_bit num)) else c

unfoldable pub tick_timer : Cpu → ℕ → Bool × Cpu
tick_timer c num =
    if nonzero (bit_and (c.sfr sfr_tcon) (tr_bit num))
    then (let (overflow, c1) = count_timer c num in (overflow, flag_overflow overflow c1 num))
    else (false, c)

-- A transmission under way is complete: TI.
unfoldable pub finish_tx : Cpu → Cpu
finish_tx c =
    let u = c.uart_state in
    if u.tx_active
    then (let c1 = set_uart c (record u { tx_active = false }) in
        set_sfr c1 sfr_scon (bit_or (c1.sfr sfr_scon) 0x02))
    else c

-- `mcs51_timer_tick`: an overflow of Timer 1 completes a transmission.
unfoldable pub timer_tick : Cpu → Cpu
timer_tick c =
    let c1 = (tick_timer c 0).1 in
    let (t1_ovf, c2) = tick_timer c1 1 in if t1_ovf && c2.periph_uart then finish_tx c2 else c2

-- The loop `for (c = 0; c < cycles; c++)`.
unfoldable pub timer_ticks : ℕ → Cpu → Cpu
timer_ticks zero c = c
timer_ticks (suc n) c = timer_ticks n (timer_tick c)

-- ===== src/Avr/Timer.antt =====
-- Timer0 of the AVR: src/avr/avr_timer.c. The loop of `avr_timer0_tick` runs on fuel: the
-- prescaler count, which each turn lowers by the divisor, at least 1.
use uc_vm.Common.{
  ℕ, zero, suc, ◌+◌, ◌-◌, ◌/◌, ◌^◌, Bool, true, false, ◌&&◌, ◌||◌, not, u8, bit_and, bit_or,
  if◌then◌else◌, ltb, leb, nonzero, ◌==◌,
}
use uc_vm.Avr.Cpu.{AvrCpu, set_mem, set_counter, raise_irq}

-- `prescaler_div`: 0 where the timer is stopped or has an external clock.
unfoldable pub prescaler_div : ℕ → ℕ
prescaler_div cs =
    if cs == 1
    then 1
    else if cs == 2
    then 8
    else if cs == 3
    then 64
    else if cs == 4
    then 256
    else if cs == 5
    then 1024
    else 0

unfoldable pub timer_read_hook : AvrCpu → ℕ → ℕ
timer_read_hook c io_addr = c.mem (io_addr + 0x20)

-- Writing 1 to a bit of TIFR clears it: `avr_io_write` has stored `val` there before.
unfoldable pub timer_write_hook : AvrCpu → ℕ → ℕ → AvrCpu
timer_write_hook c io_addr val =
    if io_addr == c.timer.config.tifr
    then set_mem c (io_addr + 0x20) (bit_and (c.mem (io_addr + 0x20)) (255 - val))
    else c

-- `wgm`: WGM02 is bit 3 of TCCR0B, WGM01 and WGM00 the low bits of TCCR0A.
unfoldable pub timer_wgm : ℕ → ℕ → ℕ
timer_wgm tccr0a tccr0b = bit_or (bit_and tccr0a 0x03) (bit_and tccr0b 0x08 / 2)

unfoldable pub timer_top : ℕ → ℕ → ℕ
timer_top wgm ocr0a = if (wgm == 2) || (wgm == 5) || (wgm == 7) then ocr0a else 0xFF

-- Phase correct PWM: the counter, whether it counts up, and whether TOV0 is set.
unfoldable pub count_up_down : ℕ → ℕ → Bool → ℕ × Bool × Bool
count_up_down top tcnt up =
    let inc = u8 (tcnt + 1) in
    let dec = u8 (tcnt + 255) in
    if up
    then (if leb top inc then (top, false, false) else (inc, true, false))
    else if dec == 0
    then (dec, true, true)
    else (dec, false, false)

-- The other modes count up and start again after the top.
unfoldable pub count_up : ℕ → ℕ → ℕ → ℕ × Bool
count_up wgm top tcnt =
    let next = tcnt + 1 in
    let wraps = ltb top next in
    let t = if wraps then 0 else u8 next in
    (
      t,
      (wraps && ((wgm == 0) || (wgm == 3) || (wgm == 7)))
          || ((wgm == 2) && (tcnt == 0xFF) && (t == 0)),
    )

unfoldable pub count_next : ℕ → ℕ → ℕ → Bool → ℕ × Bool × Bool
unfolding count_up_down count_up
count_next wgm top tcnt up =
    if (wgm == 1) || (wgm == 5)
    then count_up_down top tcnt up
    else (let (t, tov) = count_up wgm top tcnt in (t, up, tov))

-- The flags TOV0, OCF0A and OCF0B after a count from `old` to `tcnt`.
unfoldable pub timer_flags : ℕ → Bool → ℕ → ℕ → ℕ → ℕ → ℕ
timer_flags tifr tov old tcnt ocr0a ocr0b =
    let f1 = if tov then bit_or tifr 0x01 else tifr in
    let f2 = if (tcnt == ocr0a) && not (old == ocr0a) then bit_or f1 0x02 else f1 in
    if (tcnt == ocr0b) && not (old == ocr0b) then bit_or f2 0x04 else f2

-- A flag of TIFR whose interrupt is enabled is queued and cleared. It returns the new TIFR.
unfoldable pub queue_flag : AvrCpu → ℕ → ℕ → ℕ → ℕ → ℕ → ℕ × AvrCpu
queue_flag c tifr timsk flag_bit enable_bit vec =
    let cleared = bit_and tifr (255 - 2 ^ flag_bit) in
    if nonzero (bit_and tifr (2 ^ flag_bit)) && nonzero (bit_and timsk (2 ^ enable_bit))
    then (cleared, set_mem (raise_irq c vec) (c.timer.config.tifr + 0x20) cleared)
    else (tifr, c)

-- The body of the loop after `prescaler_count -= div`.
unfoldable pub timer_count : ℕ → ℕ → AvrCpu → AvrCpu
timer_count tccr0a tccr0b c =
    let cfg = c.timer.config in
    let old = c.mem (cfg.tcnt0 + 0x20) in
    let ocr0a = c.mem (cfg.ocr0a + 0x20) in
    let ocr0b = c.mem (cfg.ocr0b + 0x20) in
    let timsk = c.mem (cfg.timsk + 0x20) in
    let wgm = timer_wgm tccr0a tccr0b in
    let (tcnt, up, tov) = count_next wgm (timer_top wgm ocr0a) old c.timer.counting_up in
    let tifr = timer_flags (c.mem (cfg.tifr + 0x20)) tov old tcnt ocr0a ocr0b in
    let c1 = set_counter c c.timer.prescaler_count up in
    let c2 = set_mem (set_mem c1 (cfg.tcnt0 + 0x20) tcnt) (cfg.tifr + 0x20) tifr in
    let (tifr', c3) = queue_flag c2 tifr timsk 0 cfg.toie_bit cfg.tov_vec in
    (queue_flag c3 tifr' timsk 1 cfg.ocie0a_bit cfg.oca_vec).1

-- `prescaler_count -= div`, then the body.
unfoldable pub timer_turn : ℕ → ℕ → ℕ → AvrCpu → AvrCpu
timer_turn div tccr0a tccr0b c =
    timer_count tccr0a tccr0b (set_counter c (c.timer.prescaler_count - div) c.timer.counting_up)

unfoldable pub timer_loop : ℕ → ℕ → ℕ → ℕ → AvrCpu → AvrCpu
timer_loop zero div tccr0a tccr0b c = c
timer_loop (suc fuel) div tccr0a tccr0b c =
    let rest = timer_loop fuel div tccr0a tccr0b (timer_turn div tccr0a tccr0b c) in
    if leb div c.timer.prescaler_count then rest else c

-- `avr_timer0_tick`.
unfoldable pub timer0_tick : AvrCpu → ℕ → AvrCpu
timer0_tick c elapsed =
    let cfg = c.timer.config in
    let tccr0a = c.mem (cfg.tccr0a + 0x20) in
    let tccr0b = c.mem (cfg.tccr0b + 0x20) in
    let cs = bit_and tccr0b 0x07 in
    let c1 = set_counter c (c.timer.prescaler_count + elapsed) c.timer.counting_up in
    if (cs == 0) || leb 6 cs
    then c
    else timer_loop c1.timer.prescaler_count (prescaler_div cs) tccr0a tccr0b c1

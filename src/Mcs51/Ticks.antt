-- ===== src/Mcs51/Ticks.antt =====
-- What a tick does to Timers 0 and 1, mode by mode, and what many ticks do.
pub mod Repeat
use uc_vm.Common.{
  ℕ, zero, suc, ◌+◌, ◌-◌, ◌*◌, ◌/◌, ◌%◌, ◌^◌, ◌≤◌, ◌<◌, ◌≡◌, ◌≢◌, refl, sym, ◌∙◌, arith, Bool, true,
  false, not, ◌&&◌, ◌||◌, if◌then◌else◌, nonzero, leb, ltb, ◌⊎◌, inl, inr, Bool-cases, bit_and,
  bit_or, bit_or-pow, bit_and-pow, ◌==◌, u8,
}
use uc_vm.Mcs51.Cpu.{
  Cpu, sfr_tcon, sfr_tmod, sfr_tl0, sfr_th0, sfr_tl1, sfr_th1, sfr_scon, set_sfr, set_uart,
}
use uc_vm.Mcs51.Timer.{
  count_13, count_16, count_reload, count_split, count_timer, flag_overflow, tick_timer, finish_tx,
  timer_tick, timer_ticks, timer_mode, tr_bit, tl_of, th_of,
}
use uc_vm.Mcs51.Evolve.{IsValid}

-- The run bit and the overflow flag of a timer in TCON, and its count as 16 bits.
abbrev pub runs : Cpu → ℕ → Bool
runs c num = nonzero (bit_and (c.sfr sfr_tcon) (tr_bit num))

abbrev pub tf : Cpu → ℕ → ℕ
tf c num = if num == 0 then c.sfr sfr_tcon / 32 % 2 else c.sfr sfr_tcon / 128

abbrev pub count_of : Cpu → ℕ → ℕ
count_of c num = c.sfr (th_of num) * 256 + c.sfr (tl_of num)

-- The 13 bits of mode 0.
abbrev pub count13_of : Cpu → ℕ → ℕ
count13_of c num = c.sfr (th_of num) * 32 + c.sfr (tl_of num) % 32

-- The overflow flag is set by an overflow and never cleared by a tick.
abbrev pub FlagAfter : Cpu → Cpu → ℕ → Bool → Type 0
FlagAfter c d num overflow = tf d num ≡ (if overflow then 1 else tf c num)

module _ (c : Cpu) (num : ℕ) (v : IsValid c) (hn : num < 2) (run : runs c num ≡ true) where
  -- In a valid state, a tick of Timer 0 or 1, where it runs in mode 1, counts its 16 bits modulo
  -- 65536, reports the wrap, and sets the overflow flag then and never clears it.
  pub tick_timer_mode1 :
      timer_mode c num ≡ 1
      → let (o, d) = tick_timer c num in
        (count_of d num ≡ (count_of c num + 1) % 65536)
        × (o ≡ leb 65536 (count_of c num + 1))
        × FlagAfter c d num o
  unfolding tick_timer count_timer count_13 count_16 count_reload count_split set_sfr flag_overflow
  tick_timer_mode1 m = ground (
    arith,
    v.sfr_bytes (tl_of num),
    v.sfr_bytes (th_of num),
    v.sfr_bytes sfr_tcon,
    bit_or-pow (c.sfr sfr_tcon) 5,
    bit_or-pow (c.sfr sfr_tcon) 7,
  )

  -- In a valid state, a tick of Timer 0 or 1, where it runs in mode 0, counts its 13 bits modulo
  -- 8192, reports the wrap, keeps the three other bits of TL, and sets the overflow flag at a wrap
  -- and never clears it.
  pub tick_timer_mode0 :
      timer_mode c num ≡ 0
      → let (o, d) = tick_timer c num in
        (count13_of d num ≡ (count13_of c num + 1) % 8192)
        × (o ≡ leb 8192 (count13_of c num + 1))
        × (d.sfr (tl_of num) / 32 ≡ c.sfr (tl_of num) / 32)
        × FlagAfter c d num o
  unfolding tick_timer count_timer count_13 count_16 count_reload count_split set_sfr flag_overflow
  tick_timer_mode0 m = ground (
    arith,
    v.sfr_bytes (tl_of num),
    v.sfr_bytes (th_of num),
    v.sfr_bytes sfr_tcon,
    bit_or-pow (c.sfr sfr_tcon) 5,
    bit_or-pow (c.sfr sfr_tcon) 7,
  )

  -- In a valid state, a tick of Timer 0 or 1, where it runs in mode 2, counts TL, loads it from TH
  -- when it would wrap and reports that, keeps TH, and sets the overflow flag then and never
  -- clears it.
  pub tick_timer_mode2 :
      timer_mode c num ≡ 2
      → let (o, d) = tick_timer c num in
        (d.sfr (tl_of num)
          ≡ (if leb 255 (c.sfr (tl_of num)) then c.sfr (th_of num) else c.sfr (tl_of num) + 1))
        × (d.sfr (th_of num) ≡ c.sfr (th_of num))
        × (o ≡ leb 255 (c.sfr (tl_of num)))
        × FlagAfter c d num o
  unfolding tick_timer count_timer count_13 count_16 count_reload count_split set_sfr flag_overflow
  tick_timer_mode2 m = ground (
    arith,
    v.sfr_bytes (tl_of num),
    v.sfr_bytes (th_of num),
    v.sfr_bytes sfr_tcon,
    bit_or-pow (c.sfr sfr_tcon) 5,
    bit_or-pow (c.sfr sfr_tcon) 7,
  )

-- What Timer 1's tick and the end of a transmission leave alone.
tick_timer_frame :
    (c : Cpu) (i : ℕ)
    → i ≢ sfr_tl1
    → i ≢ sfr_th1
    → i ≢ sfr_tcon
    → (tick_timer c 1).1.sfr i ≡ c.sfr i
unfolding tick_timer count_timer count_13 count_16 count_reload count_split set_sfr flag_overflow
tick_timer_frame c i a b d = ground arith

tick_timer_tcon :
    (c : Cpu) → c.sfr sfr_tcon < 256 → (tick_timer c 1).1.sfr sfr_tcon % 128 ≡ c.sfr sfr_tcon % 128
unfolding tick_timer count_timer count_13 count_16 count_reload count_split set_sfr flag_overflow
tick_timer_tcon c h = ground (arith, bit_or-pow (c.sfr sfr_tcon) 7)

finish_tx_frame : (c : Cpu) (i : ℕ) → i ≢ sfr_scon → (finish_tx c).sfr i ≡ c.sfr i
unfolding finish_tx set_sfr set_uart
finish_tx_frame c i h = ground arith

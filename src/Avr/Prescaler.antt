-- ===== src/Avr/Prescaler.antt =====
-- The loop of `avr_timer0_tick` of src/avr/avr_timer.c: it ends, and counts once for every
-- `div` cycles.
use uc_vm.Common.{
  ℕ, zero, suc, ◌+◌, ◌-◌, ◌/◌, ◌%◌, ◌≤◌, ◌<◌, ◌≡◌, ◌≢◌, ◌∙◌, refl, sym, ap, arith, u8, u16, Bool,
  Bool-cases, inl, inr, false, ◌||◌, bit_and, leb, ◌==◌,
}
use native.Mathlib.Nat.{mod-eq-sub-mod, mod-eq_of_lt}
use uc_vm.Avr.Cpu.{AvrCpu, Timer0Config, set_mem, set_counter, raise_irq, set_irq_pending}
use uc_vm.Avr.Timer.{
  prescaler_div, timer_wgm, timer_turn, timer_loop, timer0_tick, queue_flag, timer_count,
  count_next, count_up, timer_top,
}

-- That many turns of the loop.
pub turns : ℕ → ℕ → ℕ → ℕ → AvrCpu → AvrCpu
turns zero div a b c = c
turns (suc n) div a b c = turns n div a b (timer_turn div a b c)

-- An interrupt that is queued leaves the timer alone.
timer-queue_flag :
    (c : AvrCpu) (tifr timsk f e v : ℕ) → (queue_flag c tifr timsk f e v).1.timer ≡ c.timer
unfolding queue_flag set_mem raise_irq set_irq_pending
timer-queue_flag c tifr timsk f e v = ground arith

count-timer_turn :
    (div a b : ℕ) (c : AvrCpu)
    → c.timer.prescaler_count < 65536
    → (timer_turn div a b c).timer.prescaler_count ≡ c.timer.prescaler_count - div
unfolding timer_turn timer_count set_counter set_mem
count-timer_turn div a b c h = simp timer-queue_flag (omega arith)

config-timer_turn :
    (div a b : ℕ) (c : AvrCpu) → (timer_turn div a b c).timer.config ≡ c.timer.config
unfolding timer_turn timer_count set_counter set_mem
config-timer_turn div a b c = simp timer-queue_flag

quotient_step : (n d : ℕ) → 0 < d → d ≤ n → n / d ≡ suc ((n - d) / d)
quotient_step n d p h = grind arith

remainder_step : (n d : ℕ) → d ≤ n → (n - d) % d ≡ n % d
remainder_step n d h = grind (arith, mod-eq-sub-mod)

quotient_small : (n d : ℕ) → n < d → n / d ≡ 0
quotient_small n d h = grind arith

-- With fuel for each waiting cycle, fewer than 65536 of them and a divisor above 0, the loop of
-- the AVR's Timer 0 makes a turn for every whole divisor in them, and ends with the rest
-- waiting, which is the remainder.
pub timer_loop-turns :
    (fuel div a b : ℕ) (c : AvrCpu)
    → c.timer.prescaler_count ≤ fuel
    → c.timer.prescaler_count < 65536
    → 0 < div
    → (timer_loop fuel div a b c ≡ turns (c.timer.prescaler_count / div) div a b c)
      × ((timer_loop fuel div a b c).timer.prescaler_count ≡ c.timer.prescaler_count % div)
unfolding timer_loop turns
timer_loop-turns zero div a b c e h p = (ground arith, ground arith)
timer_loop-turns (suc fuel) div a b c e h p =
    let turn = timer_turn div a b c in
    let left : turn.timer.prescaler_count ≡ c.timer.prescaler_count - div =
      count-timer_turn div a b c h in
    elim (Bool-cases (leb div c.timer.prescaler_count)) [
      | inl more ↦
          let (same, rest) =
            timer_loop-turns fuel div a b turn (ground (arith, left, more)) (omega (arith, left))
              p in
          rw more (
            same
                ∙ ap (λ n. turns n div a b turn) (ap (λ n. n / div) left)
                ∙ sym (ap (λ n. turns n div a b c) (quotient_step _ div p (ground (arith, more)))),
            rest ∙ ap (λ n. n % div) left ∙ remainder_step _ div (ground (arith, more)),
          )
      | inr stop ↦
          let none_left : c.timer.prescaler_count / div ≡ 0 =
            quotient_small _ div (ground (arith, stop)) in
          rw stop (rw none_left refl, sym (mod-eq_of_lt (ground (arith, stop))))
    ]

-- The divisor that TCCR0B selects, and the cycles that wait when a tick begins.
abbrev pub divisor : AvrCpu → ℕ
divisor c = prescaler_div (bit_and (c.mem (c.timer.config.tccr0b + 0x20)) 0x07)

abbrev pub waiting : AvrCpu → ℕ → ℕ
waiting c elapsed = u16 (c.timer.prescaler_count + elapsed)

-- The clock of the timer is the prescaler.
abbrev pub IsClocked : AvrCpu → Type 0
IsClocked c =
    (0 < bit_and (c.mem (c.timer.config.tccr0b + 0x20)) 0x07)
    × (bit_and (c.mem (c.timer.config.tccr0b + 0x20)) 0x07 < 6)

prescaler_div_pos : (cs : ℕ) → 0 < cs → cs < 6 → 0 < prescaler_div cs
unfolding prescaler_div
prescaler_div_pos cs p q = ground arith

-- TCNT0 in normal mode.
abbrev pub IsNormal : ℕ → ℕ → AvrCpu → Type 0
IsNormal a b c =
    (timer_wgm a b ≡ 0)
    × (c.timer.config.tcnt0 ≢ c.timer.config.tifr)
    × (c.mem (c.timer.config.tcnt0 + 0x20) < 256)

abbrev pub counter : AvrCpu → ℕ
counter c = c.mem (c.timer.config.tcnt0 + 0x20)

mem-queue_flag :
    (c : AvrCpu) (tifr timsk f e v i : ℕ) (cfg : Timer0Config)
    → c.timer.config ≡ cfg
    → i ≢ cfg.tifr + 0x20
    → (queue_flag c tifr timsk f e v).1.mem i ≡ c.mem i
unfolding queue_flag set_mem raise_irq set_irq_pending
mem-queue_flag c tifr timsk f e v i cfg at h = ground (arith, ap (λ g. g.tifr) at)

count_next_normal : (t : ℕ) (up : Bool) → t < 256 → (count_next 0 255 t up).0 ≡ u8 (t + 1)
unfolding count_next count_up
count_next_normal t up h = ground arith

tcnt0-timer_turn :
    (div a b : ℕ) (c : AvrCpu)
    → IsNormal a b c
    → (timer_turn div a b c).mem (c.timer.config.tcnt0 + 0x20) ≡ u8 (counter c + 1)
unfolding timer_turn timer_count set_counter timer_top set_mem
tcnt0-timer_turn div a b c (wgm, apart, byte) =
    let cfg = c.timer.config in
    let elsewhere : cfg.tcnt0 + 0x20 ≢ cfg.tifr + 0x20 = omega (arith, apart) in
    mem-queue_flag _ _ _ _ _ _ _ cfg (ap (λ t. t.config) (timer-queue_flag _ _ _ _ _ _)) elsewhere
    ∙ mem-queue_flag _ _ _ _ _ _ _ cfg refl elsewhere
    ∙ rw wgm (ground (arith, apart, count_next_normal (counter c) c.timer.counting_up byte))

counter-timer_turn :
    (div a b : ℕ) (c : AvrCpu)
    → IsNormal a b c
    → counter (timer_turn div a b c) ≡ u8 (counter c + 1)
counter-timer_turn div a b c v =
    ap (λ (g : Timer0Config). (timer_turn div a b c).mem (g.tcnt0 + 0x20))
      (config-timer_turn div a b c)
    ∙ tcnt0-timer_turn div a b c v

counter-turns :
    (n div a b : ℕ) (c : AvrCpu) → IsNormal a b c → counter (turns n div a b c) ≡ u8 (counter c + n)
unfolding turns
counter-turns zero div a b c v = omega arith
counter-turns (suc n) div a b c (wgm, apart, byte) =
    let turn = timer_turn div a b c in
    let same = config-timer_turn div a b c in
    let one = counter-timer_turn div a b c (wgm, apart, byte) in
    let later = counter-turns n div a b turn (wgm, rw same apart, omega (arith, one)) in
    later ∙ omega (arith, one)

-- With the prescaler as clock and in normal mode, where TCNT0 is a byte and is not TIFR, a tick
-- of the AVR's Timer 0 adds to TCNT0 the number of whole divisors in the cycles that wait,
-- modulo 256, and leaves the rest of the cycles waiting.
pub timer0_tick_normal :
    (c : AvrCpu) (elapsed : ℕ)
    → IsClocked c
    → IsNormal (c.mem (c.timer.config.tccr0a + 0x20)) (c.mem (c.timer.config.tccr0b + 0x20)) c
    → (counter (timer0_tick c elapsed) ≡ u8 (counter c + waiting c elapsed / divisor c))
      × ((timer0_tick c elapsed).timer.prescaler_count ≡ waiting c elapsed % divisor c)
unfolding timer0_tick set_counter
timer0_tick_normal c elapsed (p, q) (wgm, apart, byte) =
    let a = c.mem (c.timer.config.tccr0a + 0x20) in
    let b = c.mem (c.timer.config.tccr0b + 0x20) in
    let c1 = set_counter c (c.timer.prescaler_count + elapsed) c.timer.counting_up in
    let clocked : ((bit_and b 0x07 == 0) || leb 6 (bit_and b 0x07)) ≡ false =
      ground (arith, p, q) in
    let (loop, rest) =
      timer_loop-turns (waiting c elapsed) (divisor c) a b c1 (omega arith) (omega arith)
        (prescaler_div_pos _ p q) in
    rw clocked (ap counter loop ∙ counter-turns _ (divisor c) a b c1 (wgm, apart, byte), rest)

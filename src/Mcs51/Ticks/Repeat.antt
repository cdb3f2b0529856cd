-- ===== src/Mcs51/Ticks/Repeat.antt =====
-- Many ticks of Timer 0 in mode 1, with Timer 1 in any mode beside it.
use uc_vm.Common.{
  ℕ, zero, suc, ◌+◌, ◌/◌, ◌%◌, ◌<◌, ◌≡◌, ap, ◌∙◌, arith, Bool, true, false, ◌||◌, if◌then◌else◌,
  nonzero, leb, bit_and-pow, bit_or-pow,
}
use uc_vm.Mcs51.Cpu.{Cpu, sfr_tcon, sfr_tmod, sfr_tl0, sfr_th0, set_sfr}
use uc_vm.Mcs51.Timer.{
  count_13, count_16, count_reload, count_split, tick_timer, finish_tx, timer_tick, timer_ticks,
  timer_mode, count_timer, flag_overflow,
}
use uc_vm.Mcs51.Evolve.{IsValid}
use uc_vm.Mcs51.Evolve.Step.{tick_timer_step, timer_tick-Evolves}
use uc_vm.Mcs51.Ticks.{
  runs, tf, count_of, FlagAfter, tick_timer_mode1, tick_timer_frame, tick_timer_tcon,
  finish_tx_frame,
}

-- Timer 0 is as in `c`, but for TF1.
record SameTimer0 (c d : Cpu) : Type 0 where
  same_tl : d.sfr sfr_tl0 ≡ c.sfr sfr_tl0
  same_th : d.sfr sfr_th0 ≡ c.sfr sfr_th0
  same_tmod : d.sfr sfr_tmod ≡ c.sfr sfr_tmod
  same_tcon : d.sfr sfr_tcon % 128 ≡ c.sfr sfr_tcon % 128

SameTimer0-trans : {c d e : Cpu} → SameTimer0 c d → SameTimer0 d e → SameTimer0 c e
SameTimer0-trans p q = record {
  same_tl = q.same_tl ∙ p.same_tl;
  same_th = q.same_th ∙ p.same_th;
  same_tmod = q.same_tmod ∙ p.same_tmod;
  same_tcon = q.same_tcon ∙ p.same_tcon;
}

SameTimer0-if :
    {c x y : Cpu} (b : Bool) → SameTimer0 c x → SameTimer0 c y → SameTimer0 c (if b then x else y)
SameTimer0-if true p q = p
SameTimer0-if false p q = q

second_tick : (c : Cpu) → c.sfr sfr_tcon < 256 → SameTimer0 c (tick_timer c 1).1
second_tick c h = record {
  same_tl = tick_timer_frame c sfr_tl0 (omega arith) (omega arith) (omega arith);
  same_th = tick_timer_frame c sfr_th0 (omega arith) (omega arith) (omega arith);
  same_tmod = tick_timer_frame c sfr_tmod (omega arith) (omega arith) (omega arith);
  same_tcon = tick_timer_tcon c h;
}

finish_tx-SameTimer0 : (c : Cpu) → SameTimer0 c (finish_tx c)
finish_tx-SameTimer0 c = record {
  same_tl = finish_tx_frame c sfr_tl0 (omega arith);
  same_th = finish_tx_frame c sfr_th0 (omega arith);
  same_tmod = finish_tx_frame c sfr_tmod (omega arith);
  same_tcon = ap (λ n. n % 128) (finish_tx_frame c sfr_tcon (omega arith));
}

rest_of_tick : (c : Cpu) → IsValid c → SameTimer0 (tick_timer c 0).1 (timer_tick c)
unfolding timer_tick
rest_of_tick c v =
    let c1 = (tick_timer c 0).1 in
    let second = second_tick c1 (((tick_timer_step c 0).keeps_valid v).sfr_bytes sfr_tcon) in
    SameTimer0-if _ (SameTimer0-trans second (finish_tx-SameTimer0 (tick_timer c1 1).1)) second

-- Timer 0 runs in mode 1.
pub record RunsMode1 (c : Cpu) : Type 0 where
  pub in_range : IsValid c
  pub run : runs c 0 ≡ true
  pub mode : timer_mode c 0 ≡ 1

first_tick_keeps :
    (c : Cpu)
    → RunsMode1 c
    → let d = (tick_timer c 0).1 in
      (d.sfr sfr_tmod ≡ c.sfr sfr_tmod) × (d.sfr sfr_tcon / 16 % 2 ≡ c.sfr sfr_tcon / 16 % 2)
unfolding tick_timer count_timer count_13 count_16 count_reload count_split flag_overflow set_sfr
first_tick_keeps c r = ground (arith, r.in_range.sfr_bytes sfr_tcon, bit_or-pow (c.sfr sfr_tcon) 5)

tick_mode1 :
    (c : Cpu)
    → RunsMode1 c
    → let d = timer_tick c in
      RunsMode1 d
      × (count_of d 0 ≡ (count_of c 0 + 1) % 65536)
      × FlagAfter c d 0 (leb 65536 (count_of c 0 + 1))
tick_mode1 c r =
    let v = r.in_range in
    let first = tick_timer_mode1 c 0 v (omega arith) r.run r.mode in
    let kept = first_tick_keeps c r in
    let rest = rest_of_tick c v in
    let w = (timer_tick-Evolves c).keeps_valid v in
    (
      record {
        in_range = w;
        run = ground (
          arith,
          w.sfr_bytes sfr_tcon,
          v.sfr_bytes sfr_tcon,
          kept,
          rest.same_tcon,
          r.run,
          bit_and-pow ((timer_tick c).sfr sfr_tcon) 4,
          bit_and-pow (c.sfr sfr_tcon) 4,
        );
        mode = omega (arith, kept.0, rest.same_tmod, r.mode);
      },
      omega (arith, first.0, rest.same_tl, rest.same_th),
      ground (arith, first, rest.same_tcon),
    )

-- From a valid state where Timer 0 runs in mode 1, after n ticks it has counted n modulo 65536,
-- and TF0 is set exactly if it was set before or the count has passed 65535, whatever Timer 1 and
-- the UART do meanwhile.
pub timer_ticks_mode1 :
    (n : ℕ) (c : Cpu)
    → RunsMode1 c
    → let d = timer_ticks n c in
      (count_of d 0 ≡ (count_of c 0 + n) % 65536)
      × (tf d 0 ≡ (if nonzero (tf c 0) || leb 65536 (count_of c 0 + n) then 1 else 0))
unfolding timer_ticks
timer_ticks_mode1 zero c r = (
  ground (arith, r.in_range.sfr_bytes sfr_tl0, r.in_range.sfr_bytes sfr_th0),
  ground (arith, r.in_range.sfr_bytes sfr_tl0, r.in_range.sfr_bytes sfr_th0),
)
timer_ticks_mode1 (suc n) c r =
    let (next, count, flag) = tick_mode1 c r in
    ground (arith, timer_ticks_mode1 n (timer_tick c) next, count, flag)

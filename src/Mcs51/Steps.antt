-- ===== src/Mcs51/Steps.antt =====
-- One step of the CPU as a whole: the parity flag, the cycle count, and when nothing happens.
use uc_vm.Common.{
  ℕ, zero, suc, ◌+◌, ◌/◌, ◌%◌, ◌≤◌, ◌<◌, ◌≡◌, refl, ◌∙◌, arith, true, false, if◌then◌else◌, nonzero,
  ◌⊎◌, inl, inr, ◌==◌, List, [], ◌∷◌, all_below, all_below_sound, ==_iff,
}
use uc_vm.Mcs51.Cpu.{
  Cpu, running, acc, psw, sfr_acc, sfr_psw, sfr_tcon, set_sfr, set_uart, set_iram, set_pc,
  set_state, set_int_active, add_cycles,
}
use uc_vm.Mcs51.Memory.{push}
use uc_vm.Mcs51.Decode.Branch.{push_ret}
use uc_vm.Mcs51.Decode.Table.{decode_execute}
use uc_vm.Mcs51.Timer.{
  tick_timer, finish_tx, timer_tick, timer_ticks, count_timer, count_13, count_16, count_reload,
  count_split, tl_of, th_of, flag_overflow,
}
use uc_vm.Mcs51.Irq.{IntSource, int_sources, accept, poll_sources, check_irq}
use uc_vm.Mcs51.Step.{parity8, update_parity, run_instruction, cpu_step}
use uc_vm.Mcs51.Evolve.{IsValid}
use uc_vm.Mcs51.Evolve.Rules.{Evolves-add_cycles}
use uc_vm.Mcs51.Evolve.Opcodes.{decode_execute-Evolves}
use uc_vm.Mcs51.Alu.Psw.{put_mask-pow}

-- The registers from PSW on: no timer and no interrupt touches them.
module _ (i : ℕ) (high : sfr_psw ≤ i) where
  count_13_others :
      (c : Cpu) (tl th : ℕ) → tl < sfr_psw → th < sfr_psw → (count_13 c tl th).1.sfr i ≡ c.sfr i
  unfolding count_13 set_sfr
  count_13_others c tl th a b = ground arith

  count_16_others :
      (c : Cpu) (tl th : ℕ) → tl < sfr_psw → th < sfr_psw → (count_16 c tl th).1.sfr i ≡ c.sfr i
  unfolding count_16 set_sfr
  count_16_others c tl th a b = ground arith

  count_reload_others :
      (c : Cpu) (tl th : ℕ) → tl < sfr_psw → (count_reload c tl th).1.sfr i ≡ c.sfr i
  unfolding count_reload set_sfr
  count_reload_others c tl th a = ground arith

  count_split_others : (c : Cpu) (tcon num : ℕ) → (count_split c tcon num).1.sfr i ≡ c.sfr i
  unfolding count_split set_sfr
  count_split_others c tcon num = ground arith

  count_others : (c : Cpu) (num : ℕ) → (count_timer c num).1.sfr i ≡ c.sfr i
  unfolding count_timer
  count_others c num = ground (
    arith,
    count_13_others c (tl_of num) (th_of num),
    count_16_others c (tl_of num) (th_of num),
    count_reload_others c (tl_of num) (th_of num),
    count_split_others c (c.sfr sfr_tcon) num,
  )

  tick_timer_others : (c : Cpu) (num : ℕ) → (tick_timer c num).1.sfr i ≡ c.sfr i
  unfolding tick_timer flag_overflow set_sfr
  tick_timer_others c num = ground (arith, count_others c num)

  finish_tx_others : (c : Cpu) → (finish_tx c).sfr i ≡ c.sfr i
  unfolding finish_tx set_sfr set_uart
  finish_tx_others c = ground arith

  timer_tick_others : (c : Cpu) → (timer_tick c).sfr i ≡ c.sfr i
  unfolding timer_tick
  timer_tick_others c =
      let c1 = (tick_timer c 0).1 in
      let c2 = (tick_timer c1 1).1 in
      ground (arith, tick_timer_others c 0, tick_timer_others c1 1, finish_tx_others c2)

  timer_ticks_others : (n : ℕ) (c : Cpu) → (timer_ticks n c).sfr i ≡ c.sfr i
  unfolding timer_ticks
  timer_ticks_others zero c = refl
  timer_ticks_others (suc n) c = timer_ticks_others n (timer_tick c) ∙ timer_tick_others c

  accept_others :
      (c : Cpu) (s : IntSource)
      → (s.auto_clear ≡ false) ⊎ (s.flag_sfr ≡ sfr_tcon)
      → (accept c s).sfr i ≡ c.sfr i
  unfolding accept push_ret push set_sfr set_iram set_pc set_state set_int_active add_cycles
  accept_others c s h = ground arith

  -- The flag of a source is cleared in TCON, or not at all.
  abbrev ClearsTcon : List IntSource → Type 0
  ClearsTcon [] = Unit
  ClearsTcon (s ∷ rest) = ((s.auto_clear ≡ false) ⊎ (s.flag_sfr ≡ sfr_tcon)) × ClearsTcon rest

  poll_sources_others :
      (c : Cpu) (n : ℕ) (l : List IntSource) → ClearsTcon l → (poll_sources c n l).sfr i ≡ c.sfr i
  unfolding poll_sources
  poll_sources_others c n [] h = refl
  poll_sources_others c n (s ∷ rest) h =
      ground (arith, accept_others c s h.0, poll_sources_others c (n + 1) rest h.1)

  check_irq_others : (c : Cpu) → (check_irq c).sfr i ≡ c.sfr i
  unfolding check_irq
  check_irq_others c =
      let clears : ClearsTcon int_sources =
        (inr refl, (inr refl, (inr refl, (inr refl, (inl refl, (inl refl, tt)))))) in
      ground (arith, poll_sources_others c 0 int_sources clears)

-- The number of ones in a byte.
abbrev pub ones : ℕ → ℕ
ones x =
    x % 2 + x / 2 % 2 + x / 4 % 2 + x / 8 % 2 + x / 16 % 2 + x / 32 % 2 + x / 64 % 2 + x / 128 % 2

parity8_table : all_below 256 (λ x. parity8 x == ones x % 2) ≡ true
unfolding all_below parity8
parity8_table = refl

parity8_lem : (x : ℕ) → x < 256 → parity8 x ≡ ones x % 2
parity8_lem x h = (==_iff _ _).0 (all_below_sound 256 _ x parity8_table h)

update_parity_lem :
    (c : Cpu)
    → acc c < 256
    → psw c < 256
    → let d = update_parity c in (acc d ≡ acc c) × (psw d % 2 ≡ ones (acc d) % 2)
unfolding update_parity set_sfr
update_parity_lem c ha hp =
    ground (arith, parity8_lem (acc c) ha, put_mask-pow (psw c) 0 (nonzero (parity8 (acc c))) hp)

cpu_step_running : (c : Cpu) → c.state ≡ running → cpu_step c ≡ run_instruction c
unfolding cpu_step
cpu_step_running c r = rw r

ticked_others :
    (i : ℕ)
    → sfr_psw ≤ i
    → (n : ℕ) (c : Cpu)
    → (check_irq (if c.periph_timer then timer_ticks n c else c)).sfr i ≡ c.sfr i
ticked_others i h n c = ground (
  arith,
  check_irq_others i h (timer_ticks n c),
  check_irq_others i h c,
  timer_ticks_others i h n c,
)

-- In a valid state, after every instruction of a running CPU the flag P is the parity of the ones
-- in the accumulator, also when timers tick and an interrupt is accepted within the step.
pub cpu_step_parity :
    (c : Cpu)
    → IsValid c
    → c.state ≡ running
    → let d = (cpu_step c).1 in psw d % 2 ≡ ones (acc d) % 2
unfolding run_instruction
cpu_step_parity c v r =
    let (n, c1) = decode_execute c in
    let v1 = (Evolves-add_cycles n (decode_execute-Evolves c).0).keeps_valid v in
    let c2 = update_parity (add_cycles c1 n) in
    let kept = update_parity_lem (add_cycles c1 n) (v1.sfr_bytes sfr_acc) (v1.sfr_bytes sfr_psw) in
    rw (cpu_step_running c r) (
      rw (ticked_others sfr_acc (omega arith) n c2, ticked_others sfr_psw (omega arith) n c2)
        kept.1)

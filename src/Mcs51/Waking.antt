-- ===== src/Mcs51/Waking.antt =====
-- How the host's loop wakes a sleeping CPU.
use uc_vm.Common.{◌≡◌, refl, ap, ◌∙◌, true, nonzero, bit_and, ◌⊎◌, inl, inr, Bool-cases, u16}
use uc_vm.Mcs51.Cpu.{
  Cpu, running, sleeping, sfr_ie, set_pc, set_sfr, set_iram, set_state, set_int_active, add_cycles,
}
use uc_vm.Mcs51.Memory.{push}
use uc_vm.Mcs51.Decode.Branch.{push_ret}
use uc_vm.Mcs51.Irq.{IntSource, int_sources, wake, accept, check_irq}
use uc_vm.Mcs51.Step.{host_turn}
use uc_vm.Mcs51.Priority.{FirstReady, NoneReady, check_irq-FirstReady}

accept_wakes :
    (c : Cpu) (s : IntSource)
    → c.state ≡ sleeping
    → ((accept c s).state ≡ running) × ((accept c s).pc ≡ u16 s.vector)
unfolding accept wake push_ret push set_pc set_sfr set_iram set_state set_int_active add_cycles
accept_wakes c s e = elim (Bool-cases s.auto_clear) [
  | inl r ↦ rw r (rw e refl, refl)
  | inr r ↦ rw r (rw e refl, refl)
]

-- When the CPU sleeps and EA is set, one turn of the host's loop either finds no source of
-- interrupts ready and leaves it asleep, or accepts the first ready one, so that the CPU runs
-- again from its vector.
pub host_turn_wakes :
    (c : Cpu)
    → c.state ≡ sleeping
    → nonzero (bit_and (c.sfr sfr_ie) 0x80) ≡ true
    → let w = add_cycles c 1 in
      let d = host_turn c.state c in
      (NoneReady w 0 int_sources × (d.state ≡ sleeping))
      ⊎ ((s : IntSource) × FirstReady w 0 int_sources s
          × (d.state ≡ running)
          × (d.pc ≡ u16 s.vector))
unfolding host_turn add_cycles
host_turn_wakes c e ea =
    let turn : host_turn c.state c ≡ check_irq (add_cycles c 1) = ap (λ s. host_turn s c) e in
    elim (check_irq-FirstReady (add_cycles c 1) ea) [
      | inl n ↦ inl (n.0, ap (λ d. d.state) (turn ∙ n.1) ∙ e)
      | inr f ↦
          let woken = accept_wakes (add_cycles c 1) f.0 e in
          let taken = turn ∙ f.2 in
          inr (f.0, f.1, ap (λ d. d.state) taken ∙ woken.0, ap (λ d. d.pc) taken ∙ woken.1)
    ]

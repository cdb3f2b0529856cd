-- ===== src/Mcs51/Priority.antt =====
-- The loop of `mcs51_cpu_check_irq` of src/mcs51/mcs51_cpu.c over its table of interrupts.
use uc_vm.Common.{
  ℕ, ◌+◌, ◌≡◌, refl, true, false, nonzero, List, [], ◌∷◌, ◌⊎◌, inl, inr, Bool-cases, bit_and,
}
use uc_vm.Mcs51.Cpu.{Cpu, sfr_ie}
use uc_vm.Mcs51.Irq.{IntSource, int_sources, is_ready, accept, poll_sources, check_irq}

-- `s` is source number `i` of a list that starts at number `n`, and is the first ready one.
pub data FirstReady (c : Cpu) : ℕ → List IntSource → IntSource → Type 0 where
  found :
      {i : ℕ} {s : IntSource} {rest : List IntSource}
      → is_ready c i s ≡ true
      → FirstReady c i (s ∷ rest) s
  later :
      {i : ℕ} {s t : IntSource} {rest : List IntSource}
      → is_ready c i s ≡ false
      → FirstReady c (i + 1) rest t
      → FirstReady c i (s ∷ rest) t

-- No source of the list is ready.
abbrev pub NoneReady : Cpu → ℕ → List IntSource → Type 0
NoneReady c i [] = Unit
NoneReady c i (s ∷ rest) = (is_ready c i s ≡ false) × NoneReady c (i + 1) rest

poll_sources-FirstReady :
    (c : Cpu) (i : ℕ) (l : List IntSource)
    → (NoneReady c i l × (poll_sources c i l ≡ c))
      ⊎ ((s : IntSource) × FirstReady c i l s × (poll_sources c i l ≡ accept c s))
unfolding poll_sources
poll_sources-FirstReady c i [] = inl (tt, refl)
poll_sources-FirstReady c i (s ∷ rest) = elim (Bool-cases (is_ready c i s)) [
  | inl r ↦ inr (s, found r, rw r)
  | inr r ↦ elim (poll_sources-FirstReady c (i + 1) rest) [
    | inl n ↦ inl ((r, n.0), rw r n.1)
    | inr f ↦ inr (f.0, later r f.1, rw r f.2)
  ]
]

-- With EA set, either no source of interrupts is ready and mcs51_cpu_check_irq changes nothing, or
-- exactly the first ready source in the order of polling is accepted.
pub check_irq-FirstReady :
    (c : Cpu)
    → nonzero (bit_and (c.sfr sfr_ie) 0x80) ≡ true
    → (NoneReady c 0 int_sources × (check_irq c ≡ c))
      ⊎ ((s : IntSource) × FirstReady c 0 int_sources s × (check_irq c ≡ accept c s))
unfolding check_irq
check_irq-FirstReady c ea = rw ea (poll_sources-FirstReady c 0 int_sources)

-- ===== src/Mcs51/Evolve/Helpers.antt =====
-- The rules of `Evolves` for the helpers of the instruction decoder.
use uc_vm.Common.{ℕ, Bool, true, false, if◌then◌else◌}
use uc_vm.Mcs51.Cpu.{Cpu}
use uc_vm.Mcs51.Decode.Flags.{advance, set_acc, set_cy, set_ac, set_ov, do_add, do_subb}
use uc_vm.Mcs51.Decode.Arith.{set_reg, da_add}
use uc_vm.Mcs51.Decode.Branch.{jump_if, push_ret, pop_pc}
use uc_vm.Mcs51.Evolve.{Evolves}
use uc_vm.Mcs51.Evolve.Rules.{evolve}

module _ {c d : Cpu} where
  pub Evolves-advance : (n : ℕ) → Evolves c d → Evolves c (advance d n)
  unfolding advance
  Evolves-advance n e = search evolve

  pub Evolves-set_acc : (v : ℕ) → Evolves c d → Evolves c (set_acc d v)
  unfolding set_acc
  Evolves-set_acc v e = search evolve

  pub Evolves-set_reg : (n v : ℕ) → Evolves c d → Evolves c (set_reg d n v)
  unfolding set_reg
  Evolves-set_reg n v e = search evolve

  pub Evolves-set_cy : (v : Bool) → Evolves c d → Evolves c (set_cy d v)
  unfolding set_cy
  Evolves-set_cy v e = search evolve

  pub Evolves-set_ov : (v : Bool) → Evolves c d → Evolves c (set_ov d v)
  unfolding set_ov
  Evolves-set_ov v e = search evolve

  pub Evolves-do_add : (a b k : ℕ) → Evolves c d → Evolves c (do_add d a b k).1
  unfolding do_add set_cy set_ac set_ov
  Evolves-do_add a b k e = search evolve

  pub Evolves-do_subb : (a b k : ℕ) → Evolves c d → Evolves c (do_subb d a b k).1
  unfolding do_subb set_cy set_ac set_ov
  Evolves-do_subb a b k e = search evolve

  pub Evolves-da_add : (a n : ℕ) → Evolves c d → Evolves c (da_add d a n).1
  unfolding da_add
  Evolves-da_add a n e = search evolve

  pub Evolves-jump_if : (t : Bool) (rel : ℕ) → Evolves c d → Evolves c (jump_if t d rel)
  unfolding jump_if
  Evolves-jump_if t rel e = search evolve

  pub Evolves-push_ret : (ret : ℕ) → Evolves c d → Evolves c (push_ret d ret)
  unfolding push_ret
  Evolves-push_ret ret e = search evolve

  pub Evolves-pop_pc : Evolves c d → Evolves c (pop_pc d)
  unfolding pop_pc
  Evolves-pop_pc e = search evolve

pub Evolves-if_snd :
    {A : Type 0} {c : Cpu} (b : Bool) (p q : A × Cpu)
    → Evolves c p.1
    → Evolves c q.1
    → Evolves c (if b then p else q).1
Evolves-if_snd true p q d e = d
Evolves-if_snd false p q d e = e

pub ruleset helpers = (
  evolve, Evolves-advance, Evolves-set_acc, Evolves-set_reg, Evolves-set_cy, Evolves-set_ov,
  Evolves-do_add, Evolves-do_subb, Evolves-da_add, Evolves-jump_if, Evolves-push_ret,
  Evolves-pop_pc, Evolves-if_snd,
)

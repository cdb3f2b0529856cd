-- ===== src/Mcs51/Evolve/Opcodes/Defs.antt =====
-- What is shown of each handler, and of each row of the table.
use uc_vm.Common.{ℕ, List, [], ◌∷◌}
use uc_vm.Mcs51.Cpu.{Cpu}
use uc_vm.Mcs51.Decode.Flags.{OpFn}
use uc_vm.Mcs51.Evolve.{Evolves}
use uc_vm.Mcs51.Evolve.Helpers.{helpers}

-- The machine cycles that an instruction can take.
pub data Takes : ℕ → Type 0 where
  one : Takes 1
  two : Takes 2
  four : Takes 4

pub record IsOp (op : OpFn) : Type 0 where
  pub evolves : (c : Cpu) → Evolves c (op c).1
  pub takes : (c : Cpu) → Takes (op c).0

pub data AllOps : List OpFn → Type 0 where
  none_left : AllOps []
  row_of :
      {op : OpFn} {ops : List OpFn}
      → ((c : Cpu) → Evolves c (op c).1)
      → ((c : Cpu) → Takes (op c).0)
      → AllOps ops
      → AllOps (op ∷ ops)

pub ruleset op_rules = (helpers, none_left, row_of, one, two, four)

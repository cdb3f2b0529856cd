-- ===== src/Mcs51/Evolve/Opcodes.antt =====
-- The dispatch table as a whole: whatever the opcode, the handler keeps what `Evolves` says.
mod Defs
mod Rows
pub use Defs.{Takes, one, two, four, IsOp}
use uc_vm.Common.{ℕ, zero, suc, ◌/◌, ◌%◌, List, [], ◌∷◌}
use uc_vm.Mcs51.Cpu.{Cpu}
use uc_vm.Mcs51.Memory.{code_read}
use uc_vm.Mcs51.Decode.Flags.{OpFn, advance}
use uc_vm.Mcs51.Decode.Branch.{op_nop}
use uc_vm.Mcs51.Decode.Table.{op_rows, get_or, op_table, decode_execute}
use uc_vm.Mcs51.Evolve.{Evolves}
use uc_vm.Mcs51.Evolve.Rules.{evolve}
use Defs.{AllOps, none_left, row_of, op_rules}
use Rows.{
  op_row_0-AllOps, op_row_1-AllOps, op_row_2-AllOps, op_row_3-AllOps, op_row_4-AllOps,
  op_row_5-AllOps, op_row_6-AllOps, op_row_7-AllOps, op_row_8-AllOps, op_row_9-AllOps,
  op_row_10-AllOps, op_row_11-AllOps, op_row_12-AllOps, op_row_13-AllOps, op_row_14-AllOps,
  op_row_15-AllOps,
}

abbrev AllRows : List (List OpFn) → Type 0
AllRows [] = Unit
AllRows (row ∷ rows) = AllOps row × AllRows rows

op_nop-IsOp : IsOp op_nop
unfolding op_nop advance
op_nop-IsOp = record { evolves = search evolve; takes = λ c. one }

get_or-IsOp : (ops : List OpFn) (i : ℕ) → AllOps ops → IsOp (get_or ops i op_nop)
get_or-IsOp [] i a = op_nop-IsOp
get_or-IsOp (op ∷ ops) zero (row_of e t a) = record { evolves = e; takes = t }
get_or-IsOp (op ∷ ops) (suc i) (row_of e t a) = get_or-IsOp ops i a

get_or-AllOps : (rows : List (List OpFn)) (r : ℕ) → AllRows rows → AllOps (get_or rows r [])
get_or-AllOps [] r a = none_left
get_or-AllOps (row ∷ rows) zero a = a.0
get_or-AllOps (row ∷ rows) (suc r) a = get_or-AllOps rows r a.1

op_rows-AllRows : AllRows op_rows
op_rows-AllRows = (
  op_row_0-AllOps,
  (
    op_row_1-AllOps,
    (
      op_row_2-AllOps,
      (
        op_row_3-AllOps,
        (
          op_row_4-AllOps,
          (
            op_row_5-AllOps,
            (
              op_row_6-AllOps,
              (
                op_row_7-AllOps,
                (
                  op_row_8-AllOps,
                  (
                    op_row_9-AllOps,
                    (
                      op_row_10-AllOps,
                      (
                        op_row_11-AllOps,
                        (
                          op_row_12-AllOps,
                          (op_row_13-AllOps, (op_row_14-AllOps, (op_row_15-AllOps, tt))),
                        ),
                      ),
                    ),
                  ),
                ),
              ),
            ),
          ),
        ),
      ),
    ),
  ),
)

pub op_table-IsOp : (opcode : ℕ) → IsOp (op_table opcode)
unfolding op_table
op_table-IsOp opcode =
    get_or-IsOp (get_or op_rows (opcode / 16) []) (opcode % 16)
      (get_or-AllOps op_rows (opcode / 16) op_rows-AllRows)

-- Executing the instruction at PC, whatever its opcode of the 256, keeps the ranges of the
-- program counter, the internal RAM, the SFRs, the external RAM and the UART, keeps the program
-- memory, the hooks and the pins, and takes one, two or four machine cycles.
pub decode_execute-Evolves : (c : Cpu) → Evolves c (decode_execute c).1 × Takes (decode_execute c).0
unfolding decode_execute
decode_execute-Evolves c = let op = op_table-IsOp (code_read c c.pc) in (op.evolves c, op.takes c)

-- ===== src/Mcs51/Calls.antt =====
-- The stack of the 8051: calls and returns, interrupts and their ends.
use uc_vm.Common.{ℕ, ◌+◌, ◌*◌, ◌<◌, ◌≡◌, ◌≢◌, arith, false, u8, u16}
use uc_vm.Mcs51.Cpu.{
  Cpu, sp, sfr_sp, set_pc, set_sfr, set_iram, set_state, set_int_active, add_cycles,
}
use uc_vm.Mcs51.Memory.{push, pop}
use uc_vm.Mcs51.Decode.Branch.{push_ret, pop_pc, op_ret, op_reti, op_acall, op_lcall}
use uc_vm.Mcs51.Decode.Flags.{fetch1, fetch2}
use uc_vm.Mcs51.Irq.{IntSource, is_high, is_blocked, accept}
use uc_vm.Mcs51.Evolve.{IsValid}

-- With SP and the value bytes, what a push stores is what the next pop gives, the pop undoes the
-- change of SP, also where SP wraps round, and no other byte of RAM changes.
pub pop-push :
    (c : Cpu) (v : ℕ)
    → v < 256
    → sp c < 256
    → let (w, d) = pop (push c v) in
      (w ≡ v) × (sp d ≡ sp c) × ((a : ℕ) → a ≢ u8 (sp c + 1) → d.iram a ≡ c.iram a)
unfolding push pop set_sfr set_iram
pop-push c v hv hs = (ground arith, ground arith, λ a h. ground arith)

-- `d` is back at `ret` with the stack pointer of `c`, and differs from `c` in RAM at most in the
-- two bytes above the stack.
pub record Returned (c d : Cpu) (ret : ℕ) : Type 0 where
  pub at_ret : d.pc ≡ ret
  pub same_sp : sp d ≡ sp c
  pub same_iram : (a : ℕ) → a ≢ u8 (sp c + 1) → a ≢ u8 (sp c + 2) → d.iram a ≡ c.iram a

pop_pc-push_ret :
    (c : Cpu) (ret target : ℕ)
    → ret < 65536
    → sp c < 256
    → Returned c (pop_pc (set_pc (push_ret c ret) target)) ret
unfolding push_ret pop_pc push pop set_sfr set_iram set_pc
pop_pc-push_ret c ret target hr hs = record {
  at_ret = ground arith;
  same_sp = ground arith;
  same_iram = λ a h k. ground arith;
}

-- With SP a byte, RET after LCALL continues at the instruction behind the call, with the stack
-- pointer as before and no other byte of RAM changed than the two above the stack.
pub op_ret-op_lcall : (c : Cpu) → sp c < 256 → Returned c (op_ret (op_lcall c).1).1 (u16 (c.pc + 3))
unfolding op_ret op_lcall
op_ret-op_lcall c hs =
    pop_pc-push_ret c (u16 (c.pc + 3)) (fetch1 c * 256 + fetch2 c) (omega arith) hs

-- With SP a byte, RET after ACALL continues at the instruction behind the call, with the stack
-- pointer as before and no other byte of RAM changed than the two above the stack.
pub op_ret-op_acall : (c : Cpu) → sp c < 256 → Returned c (op_ret (op_acall c).1).1 (u16 (c.pc + 2))
unfolding op_ret op_acall
op_ret-op_acall c hs = pop_pc-push_ret c (u16 (c.pc + 2)) _ (omega arith) hs

-- In a valid state, where a source is not blocked and its flag is not in SP, RETI after its
-- interrupt was accepted continues where the program was interrupted, with the stack as before,
-- and the same interrupt levels are active as before.
pub op_reti-accept :
    (c : Cpu) (s : IntSource)
    → IsValid c
    → s.flag_sfr ≢ sfr_sp
    → is_blocked c (is_high c s) ≡ false
    → let d = (op_reti (accept c s)).1 in
      Returned c d c.pc × ((l : ℕ) → d.int_active l ≡ c.int_active l)
unfolding op_reti accept is_blocked push_ret pop_pc push pop set_sfr set_iram set_pc set_state
    set_int_active add_cycles
op_reti-accept c s v hf nb = (
  record {
    at_ret = ground (arith, v.sfr_bytes sfr_sp);
    same_sp = ground (arith, v.sfr_bytes sfr_sp);
    same_iram = λ a h k. ground (arith, v.sfr_bytes sfr_sp);
  },
  λ l. ground arith,
)

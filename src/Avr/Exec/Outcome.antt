-- ===== src/Avr/Exec/Outcome.antt =====
-- How a handler of `avr_cpu_run` of src/avr/avr_decode.c ends, and what the handlers share. The
-- local `pc` of the interpreter is the field `pc` here: no handler and no hook reads the field.
use uc_vm.Common.{ℕ, ◌+◌, ◌/◌, Bool, true, false, u8, u16, if◌then◌else◌, ltb, ◌&&◌}
use uc_vm.Avr.Cpu.{AvrCpu, AvrOp, Decoded, op_lds, op_sts, op_jmp, op_call, set_pc}

-- `NEXT(cyc)`, `steps = 1` before NEXT(cyc), or `goto done`.
pub data Outcome : Type 0 where
  next : ℕ → Outcome
  last : ℕ → Outcome
  stop : Outcome

-- The body of a handler, with the decoded instruction at `pc`.
abbrev pub Handler : Type 0
Handler = Decoded → AvrCpu → Outcome × AvrCpu

-- `pc += n; NEXT(cyc)`.
unfoldable pub advance : ℕ → ℕ → AvrCpu → Outcome × AvrCpu
advance n cyc c = (next cyc, set_pc c (c.pc + n))

-- `pc = target; NEXT(cyc)`.
unfoldable pub jump : ℕ → ℕ → AvrCpu → Outcome × AvrCpu
jump target cyc c = (next cyc, set_pc c target)

-- `(uint8_t)d->b`.
abbrev pub b8 : Decoded → ℕ
b8 d = u8 d.b

-- `flash_size / 2`.
abbrev pub flash_words : AvrCpu → ℕ
flash_words c = c.flash_size / 2

-- `avr_is_32bit`.
unfoldable pub is_32bit : AvrOp → Bool
is_32bit op_lds = true
is_32bit op_sts = true
is_32bit op_jmp = true
is_32bit op_call = true
is_32bit _ = false

-- The words of the instruction that a skip passes over.
unfoldable pub skip_width : AvrCpu → ℕ → ℕ
unfolding is_32bit
skip_width c at = if ltb at (flash_words c) && is_32bit (c.decode_cache at).op then 2 else 1

-- CPSE, SBIC, SBIS, SBRC and SBRS from their test on.
unfoldable pub skip_if : Bool → AvrCpu → Outcome × AvrCpu
unfolding skip_width advance
skip_if skips c =
    let next_pc = u16 (c.pc + 1) in
    let w = skip_width c next_pc in
    if skips then (next (1 + w), set_pc c (next_pc + w)) else advance 1 1 c

-- ===== src/Mcs51/Decode/Branch.antt =====
-- Program flow: jumps, calls, returns, CJNE, DJNZ, NOP and the reserved opcode 0xA5.
use uc_vm.Common.{
  ℕ, ◌+◌, ◌*◌, ◌/◌, ◌%◌, Bool, false, not, u8, u16, add_rel, if◌then◌else◌, ltb, nonzero, ◌==◌,
}
use uc_vm.Mcs51.Cpu.{Cpu, break, acc, reg, dptr, set_pc, set_state, set_int_active}
use uc_vm.Mcs51.Memory.{direct_read, direct_write, indirect_read, code_read, push, pop}
use uc_vm.Mcs51.Decode.Flags.{OpFn, fetch1, fetch2, advance, set_cy, get_cy}
use uc_vm.Mcs51.Decode.Arith.{set_reg}

-- `if (t) cpu->pc = cpu->pc + rel`.
unfoldable pub jump_if : Bool → Cpu → ℕ → Cpu
jump_if t c rel = if t then set_pc c (add_rel c.pc rel) else c

-- `(base & 0xF800) | ((opcode & 0xE0) << 3) | arg`: fields that do not overlap.
unfoldable pub page_addr : ℕ → ℕ → ℕ → ℕ
page_addr base opcode arg = base / 2048 * 2048 + opcode / 32 % 8 * 256 + arg

-- Both bytes of a return address, low byte first.
unfoldable pub push_ret : Cpu → ℕ → Cpu
push_ret c ret = push (push c (ret % 256)) (ret / 256 % 256)

unfoldable pub op_nop : OpFn
op_nop c = (1, advance c 1)

unfoldable pub op_ajmp : OpFn
op_ajmp c = (2, set_pc c (page_addr (u16 (c.pc + 2)) (code_read c c.pc) (fetch1 c)))

unfoldable pub op_ljmp : OpFn
op_ljmp c = (2, set_pc c (fetch1 c * 256 + fetch2 c))

unfoldable pub op_acall : OpFn
op_acall c =
    let opcode = code_read c c.pc in
    let arg = fetch1 c in
    let ret = u16 (c.pc + 2) in (2, set_pc (push_ret c ret) (page_addr ret opcode arg))

unfoldable pub op_lcall : OpFn
op_lcall c =
    let hi = fetch1 c in
    let lo = fetch2 c in let ret = u16 (c.pc + 3) in (2, set_pc (push_ret c ret) (hi * 256 + lo))

-- `pc = pop() << 8 | pop()`: the high byte comes first.
unfoldable pub pop_pc : Cpu → Cpu
pop_pc c = let (hi, c1) = pop c in let (lo, c2) = pop c1 in set_pc c2 (hi * 256 + lo)

unfoldable pub op_ret : OpFn
op_ret c = (2, pop_pc c)

-- RETI also ends the active interrupt of the highest level.
unfoldable pub op_reti : OpFn
op_reti c =
    let c1 = pop_pc c in
    (2, (if c1.int_active 1 then set_int_active c1 1 false else set_int_active c1 0 false))

unfoldable pub op_sjmp : OpFn
op_sjmp c = (2, let c1 = advance c 2 in set_pc c1 (add_rel c1.pc (fetch1 c)))

unfoldable pub op_jmp_a_dptr : OpFn
op_jmp_a_dptr c = (2, set_pc c (acc c + dptr c))

unfoldable pub op_jc : OpFn
op_jc c = (2, let c1 = advance c 2 in jump_if (nonzero (get_cy c1)) c1 (fetch1 c))

unfoldable pub op_jnc : OpFn
op_jnc c = (2, let c1 = advance c 2 in jump_if (not (nonzero (get_cy c1))) c1 (fetch1 c))

unfoldable pub op_jz : OpFn
op_jz c = (2, let c1 = advance c 2 in jump_if (acc c1 == 0) c1 (fetch1 c))

unfoldable pub op_jnz : OpFn
op_jnz c = (2, let c1 = advance c 2 in jump_if (not (acc c1 == 0)) c1 (fetch1 c))

-- CJNE on a value: CY is `v < w`, and the jump is taken if they differ.
unfoldable pub compare_jump : Cpu → ℕ → ℕ → ℕ → ℕ × Cpu
compare_jump c v w rel =
    (2, let c1 = advance (set_cy c (ltb v w)) 3 in jump_if (not (v == w)) c1 rel)

unfoldable pub op_cjne_a_imm : OpFn
unfolding compare_jump
op_cjne_a_imm c = compare_jump c (acc c) (fetch1 c) (fetch2 c)

unfoldable pub op_cjne_a_direct : OpFn
unfolding compare_jump
op_cjne_a_direct c =
    let rel = fetch2 c in let (v, c1) = direct_read c (fetch1 c) in compare_jump c1 (acc c1) v rel

unfoldable pub op_cjne_ind_imm : ℕ → OpFn
unfolding compare_jump
op_cjne_ind_imm i c = compare_jump c (indirect_read c (reg c i)) (fetch1 c) (fetch2 c)

unfoldable pub op_cjne_rn_imm : ℕ → OpFn
op_cjne_rn_imm n c =
    let imm = fetch1 c in
    let rel = fetch2 c in
    let c1 = advance (set_cy c (ltb (reg c n) imm)) 3 in (2, jump_if (not (reg c1 n == imm)) c1 rel)

unfoldable pub op_djnz_direct : OpFn
op_djnz_direct c =
    let addr = fetch1 c in
    let rel = fetch2 c in
    let (old, c1) = direct_read c addr in
    let val = u8 (old + 255) in
    let c2 = advance (direct_write c1 addr val) 3 in (2, jump_if (nonzero val) c2 rel)

unfoldable pub op_djnz_rn : ℕ → OpFn
op_djnz_rn n c =
    let rel = fetch1 c in
    let c1 = advance (set_reg c n (reg c n + 255)) 2 in (2, jump_if (nonzero (reg c1 n)) c1 rel)

unfoldable pub op_break : OpFn
op_break c = (1, advance (set_state c break) 1)

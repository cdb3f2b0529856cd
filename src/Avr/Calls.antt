-- ===== src/Avr/Calls.antt =====
-- The stack of the AVR: calls and returns, interrupts and their ends.
use uc_vm.Common.{
  ℕ, ◌+◌, ◌-◌, ◌%◌, ◌≤◌, ◌<◌, ◌≡◌, ◌≢◌, arith, u16, bit_and, bit_or, all_below, all_below_sound,
  ◌==◌, ==_iff, true, refl,
}
use uc_vm.Avr.Cpu.{
  AvrCpu, Decoded, set_pc, set_sp, set_mem, set_sreg, set_irq_pending, add_cycles, set_avr_state,
}
use uc_vm.Avr.Memory.{avr_push, avr_pop, sync_sp}
use uc_vm.Avr.Exec.Outcome.{jump}
use uc_vm.Avr.Exec.Branch.{push_pc, pop_pc, h_rcall, h_call, h_ret, h_reti}
use uc_vm.Avr.Irq.{enter_vector}

-- The stack pointer is in SRAM with room for two bytes.
pub record HasRoom (c : AvrCpu) : Type 0 where
  pub above_io : 0x60 ≤ c.variant.sram_start
  pub room : c.variant.sram_start + 1 ≤ c.sp
  pub inside : c.sp < c.variant.data_size
  pub small : c.variant.data_size < 65536

-- `d` is at `ret` with the stack pointer of `c`, and the memory of `c` but for the two bytes of
-- the stack, SPL and SPH.
pub record Returned (c d : AvrCpu) (ret : ℕ) : Type 0 where
  pub at_ret : d.pc ≡ ret
  pub same_sp : d.sp ≡ c.sp
  pub same_mem : (a : ℕ) → a ≢ c.sp → a ≢ c.sp - 1 → a ≢ 0x5D → a ≢ 0x5E → d.mem a ≡ c.mem a

-- Two pops after two pushes give the address back.
pop_pc-push_pc :
    (c : AvrCpu) (ret target : ℕ)
    → ret < 65536
    → HasRoom c
    → let (at, d) = pop_pc (set_pc (push_pc c ret) target) in
      (at ≡ ret) × Returned c (set_pc d at) ret
unfolding push_pc pop_pc avr_push avr_pop sync_sp set_sp set_mem set_pc
pop_pc-push_pc c ret target h v = (
  ground (arith, h, v),
  record {
    at_ret = ground (arith, h, v);
    same_sp = ground (arith, h, v);
    same_mem = λ a p q r s. ground (arith, v);
  },
)

-- With SP in SRAM and room for two bytes, RET after RCALL continues behind the call, with the stack
-- pointer as before and no memory changed but the two bytes of the stack, SPL and SPH.
pub h_ret-h_rcall :
    (c : AvrCpu) (d e : Decoded)
    → HasRoom c
    → Returned c (h_ret e (h_rcall d c).1).1 (u16 (c.pc + 1))
unfolding h_ret h_rcall jump
h_ret-h_rcall c d e v = (pop_pc-push_pc c (u16 (c.pc + 1)) d.b (omega arith) v).1

-- The same for CALL, which is two words long.
pub h_ret-h_call :
    (c : AvrCpu) (d e : Decoded)
    → HasRoom c
    → Returned c (h_ret e (h_call d c).1).1 (u16 (c.pc + 2))
unfolding h_ret h_call jump
h_ret-h_call c d e v = (pop_pc-push_pc c (u16 (c.pc + 2)) d.b (omega arith) v).1

enable_table : all_below 256 (λ x. bit_or (bit_and x 0x7F) 0x80 == x % 128 + 128) ≡ true
unfolding all_below
enable_table = refl

-- Setting I again after it was cleared.
enable_again : (x : ℕ) → x < 256 → 128 ≤ x → bit_or (bit_and x 0x7F) 0x80 ≡ x
enable_again x h k = omega (arith, (==_iff _ _).0 (all_below_sound 256 _ x enable_table h), h, k)

mask_table : all_below 256 (λ x. bit_and x 0x7F == x % 128) ≡ true
unfolding all_below
mask_table = refl

-- Clearing I.
mask_i : (x : ℕ) → x < 256 → bit_and x 0x7F ≡ x % 128
mask_i x h = (==_iff _ _).0 (all_below_sound 256 _ x mask_table h)

-- On an AVR with interrupts enabled, SREG a byte, PC of 16 bits, SP in SRAM and room for two
-- bytes, RETI at the end of an interrupt continues where the program was interrupted, with the
-- stack pointer and the status register as before, and no memory changed but the two bytes of
-- the stack, SPL, SPH and the copy of SREG.
pub h_reti-enter_vector :
    (c : AvrCpu) (vec : ℕ) (e : Decoded)
    → HasRoom c
    → c.pc < 65536
    → c.sreg < 256
    → 128 ≤ c.sreg
    → let d = (h_reti e (enter_vector c vec)).1 in
      (d.pc ≡ c.pc)
      × (d.sp ≡ c.sp)
      × (d.sreg ≡ c.sreg)
      × ((a : ℕ) → a ≢ c.sp → a ≢ c.sp - 1 → a ≢ 0x5D → a ≢ 0x5E → a ≢ 0x5F → d.mem a ≡ c.mem a)
unfolding h_reti enter_vector jump pop_pc avr_push avr_pop sync_sp set_sp set_mem set_pc set_sreg
    set_irq_pending add_cycles set_avr_state
h_reti-enter_vector c vec e v hp hs hi = (
  ground (arith, v, hp),
  ground (arith, v),
  ground (arith, v, enable_again c.sreg hs hi, mask_i c.sreg hs, hs),
  λ a p q r s t. ground (arith, v),
)

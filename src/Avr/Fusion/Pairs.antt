-- ===== src/Avr/Fusion/Pairs.antt =====
-- SUBI and DEC with a BRNE behind them.
use uc_vm.Common.{ℕ, ◌+◌, ◌<◌, ◌≡◌, refl, arith, u16, nonzero, bit_and, Bool-cases, inl, inr}
use uc_vm.Avr.Cpu.{AvrCpu, Decoded, set_pc, set_mem, set_sreg}
use uc_vm.Avr.Flags.{flags_sub, flags_dec, flags_keep_c}
use uc_vm.Avr.Exec.Outcome.{Outcome, Handler, next, last, stop, advance, jump}
use uc_vm.Avr.Exec.Arith.{h_subi, h_dec}
use uc_vm.Avr.Exec.Branch.{h_brbc}
use uc_vm.Avr.Exec.Fused.{h_subi_brne, h_dec_brne, branch_ne}

-- The cycles of an instruction that goes on are spent before the next one.
unfoldable pub spend : ℕ → Outcome → Outcome
spend n (next m) = next (n + m)
spend n (last m) = last (n + m)
spend n stop = stop

-- Where an instruction goes on, the one at the new `pc` follows.
unfoldable pub and_then : Outcome × AvrCpu → Handler → Outcome × AvrCpu
unfolding spend
and_then (next n, c) h = let (o, d) = h (c.decode_cache c.pc) c in (spend n o, d)
and_then (last n, c) h = (last n, c)
and_then (stop, c) h = (stop, c)

branch_ne-h_brbc :
    (c : AvrCpu)
    → c.pc < 65535
    → (c.decode_cache (c.pc + 1)).a ≡ 0x02
    → branch_ne c ≡ and_then (advance 1 1 c) h_brbc
unfolding branch_ne and_then advance spend h_brbc jump set_pc
branch_ne-h_brbc c h e =
    let at : u16 (c.pc + 1) ≡ c.pc + 1 = omega arith in
    let on : u16 (c.pc + 1 + 1) ≡ u16 (c.pc + 2) = omega arith in
    rw (at, e, on)
      (elim (Bool-cases (nonzero (bit_and c.sreg 0x02))) [ inl z ↦ rw z refl | inr z ↦ rw z refl ])

-- Where a BRNE stands behind it, below the end of the program memory of 65536 words, the fused
-- SUBI gives the same state in as many cycles as SUBI and the BRNE one after the other.
pub h_subi_brne-h_subi :
    (c : AvrCpu) (d : Decoded)
    → c.pc < 65535
    → (c.decode_cache (c.pc + 1)).a ≡ 0x02
    → h_subi_brne d c ≡ and_then (h_subi d c) h_brbc
unfolding h_subi_brne h_subi flags_sub set_mem set_sreg
h_subi_brne-h_subi c d h e = branch_ne-h_brbc _ h e

pub h_dec_brne-h_dec :
    (c : AvrCpu) (d : Decoded)
    → c.pc < 65535
    → (c.decode_cache (c.pc + 1)).a ≡ 0x02
    → h_dec_brne d c ≡ and_then (h_dec d c) h_brbc
unfolding h_dec_brne h_dec flags_dec flags_keep_c set_mem set_sreg
h_dec_brne-h_dec c d h e = branch_ne-h_brbc _ h e

-- ===== src/Avr/Fusion/Delay2.antt =====
-- DELAY2 against SUBI, SBCI and BRNE.
use uc_vm.Common.{
  ◌+◌, ◌-◌, ◌≡◌, ◌∙◌, refl, sym, ap, arith, u16, ◌&&◌, Bool, Bool-cases, inl, inr, nonzero-bit_and,
  nonzero-bit_or, ◌==◌, if◌then◌else◌, bit_at,
}
use uc_vm.Avr.Cpu.{AvrCpu, Decoded, set_pc, set_mem, set_sreg}
use uc_vm.Avr.Flags.{flags_sub}
use uc_vm.Avr.Exec.Outcome.{next, advance, jump}
use uc_vm.Avr.Exec.Arith.{h_subi, h_sbci, sub8}
use uc_vm.Avr.Exec.Branch.{h_brbc}
use uc_vm.Avr.Exec.Fused.{h_delay2, leave_delay}
use uc_vm.Avr.Fusion.Pairs.{and_then, spend}
use uc_vm.Avr.Fusion.Delay.{
  IsDelay2, r_next, borrow, lo_next, hi_next, after_sbci, subi_sbci, after_sbci_z, after_sbci_sreg,
}

-- Both registers are 0 after the subtraction.
abbrev done : AvrCpu → Decoded → Bool
done c d = (lo_next c d == 0) && (hi_next c d == 0)

-- What the three instructions do.
sequence_lem :
    (c : AvrCpu) (d : Decoded)
    → IsDelay2 c d
    → and_then (and_then (h_subi d c) h_sbci) h_brbc ≡ (
        if done c d
        then (next 3, set_pc (after_sbci c d) (c.pc + 3))
        else (next 4, set_pc (after_sbci c d) (c.decode_cache (c.pc + 2)).b))
unfolding and_then spend h_brbc advance jump set_pc flags_sub set_mem set_sreg
sequence_lem c d v =
    let at : u16 (c.pc + 2) ≡ c.pc + 2 = omega (arith, v.pc_small) in
    let on : u16 (c.pc + 2 + 1) ≡ u16 (c.pc + 3) = omega arith in
    ap (λ r. and_then r h_brbc) (subi_sbci c d v)
    ∙ rw (at, v.brne, on, after_sbci_z c d v)
        (elim (Bool-cases (done c d)) [ inl e ↦ rw e refl | inr e ↦ rw e refl ])

-- What the fused instruction does.
abbrev fused : AvrCpu → Decoded → AvrCpu
fused c d = set_mem (set_mem c d.a (lo_next c d)) (r_next c 1) (hi_next c d)

delay2_lem :
    (c : AvrCpu) (d : Decoded)
    → h_delay2 d c ≡ (
        if done c d
        then (next 3, set_pc (leave_delay (fused c d)) (c.pc + 3))
        else (next 4, set_pc (fused c d) (c.decode_cache (c.pc + 2)).b))
unfolding h_delay2 advance jump set_pc set_mem leave_delay set_sreg sub8
delay2_lem c d =
    let swap : (c.mem (r_next c 1) + 512 - borrow c d - 0)
        ≡ (c.mem (r_next c 1) + 512 - 0 - borrow c d) =
      omega arith in
    rw (swap, nonzero-bit_or (lo_next c d) (hi_next c d))
      (elim (Bool-cases (done c d)) [ inl e ↦ rw e refl | inr e ↦ rw e refl ])

-- Where SUBI, SBCI with 0 and BRNE on two different registers stand at the program counter, SREG
-- and both registers being bytes, the fused instruction takes as many cycles as the three one
-- after the other, and gives the same state but for the flags; where the branch is not taken,
-- the flags are the same too.
pub h_delay2-h_subi :
    (c : AvrCpu) (d : Decoded)
    → IsDelay2 c d
    → let (o, e) = h_delay2 d c in
      let (o', e') = and_then (and_then (h_subi d c) h_sbci) h_brbc in
      (o ≡ o') × (set_sreg e 0 ≡ set_sreg e' 0) × (bit_at 1 e'.sreg ≡ 1 → e ≡ e')
unfolding set_pc set_mem set_sreg flags_sub leave_delay
h_delay2-h_subi c d v =
    rw (delay2_lem c d, sequence_lem c d v)
      (elim (Bool-cases (done c d)) [
        | inl e ↦ rw e (
          refl,
          refl,
          λ z.
              ap (λ s. record (set_pc (fused c d) (c.pc + 3)) { sreg = s })
                (sym (after_sbci_sreg c d v (ground (arith, e)) (ground (arith, e)))),
        )
        | inr e ↦ rw e (
          refl,
          refl,
          λ z.
              absurd
                (ground (arith, z, e, after_sbci_z c d v, nonzero-bit_and 1 (after_sbci c d).sreg)),
        )
      ])

-- ===== src/Avr/Fusion/Delay.antt =====
-- The delay loop of two bytes: SUBI, SBCI with 0 and BRNE back to SUBI.
use uc_vm.Common.{
  ℕ, ◌+◌, ◌-◌, ◌%◌, ◌<◌, ◌≡◌, ◌≢◌, ◌∙◌, refl, ap, arith, u8, u16, true, false, ◌&&◌, ◌||◌, bit_and,
  nonzero, nonzero-bit_and, ltb, ◌==◌, if◌then◌else◌, bit_at,
}
use uc_vm.Avr.Cpu.{AvrCpu, Decoded, set_pc, set_mem, set_sreg}
use uc_vm.Avr.Flags.{flags_sub, bit7}
use uc_vm.Avr.Exec.Outcome.{next, advance, b8}
use uc_vm.Avr.Exec.Arith.{h_subi, h_sbci, sub8, carry_in}
use uc_vm.Avr.Sreg.Fields.{FlagsAre, FlagsAre-value, FlagsAre-high, bit_and_ti}
use uc_vm.Avr.Sreg.Arith.{signed, flags_sub-FlagsAre}
use uc_vm.Avr.Sreg.Sbci.{h_sbci-sbci_always}
use uc_vm.Avr.Fusion.Pairs.{and_then, spend}

-- The register that SBCI works on.
abbrev pub r_next : AvrCpu → ℕ → ℕ
r_next c n = (c.decode_cache (c.pc + n)).a

-- What `avr_predecode` fuses into a delay loop of two bytes at `pc`, with two registers.
pub record IsDelay2 (c : AvrCpu) (d : Decoded) : Type 0 where
  pub pc_small : c.pc + 2 < 65536
  pub sbci_0 : u8 (c.decode_cache (c.pc + 1)).b ≡ 0
  pub brne : (c.decode_cache (c.pc + 2)).a ≡ 0x02
  pub distinct : r_next c 1 ≢ d.a
  pub sreg_byte : c.sreg < 256
  pub lo_byte : c.mem d.a < 256
  pub hi_byte : c.mem (r_next c 1) < 256

abbrev pub borrow : AvrCpu → Decoded → ℕ
borrow c d = if ltb (c.mem d.a) (b8 d) then 1 else 0

abbrev pub lo_next : AvrCpu → Decoded → ℕ
lo_next c d = sub8 (c.mem d.a) (b8 d) 0

abbrev pub hi_next : AvrCpu → Decoded → ℕ
hi_next c d = sub8 (c.mem (r_next c 1)) 0 (borrow c d)

-- The states after SUBI and after SBCI, but for `pc`.
abbrev pub after_subi : AvrCpu → Decoded → AvrCpu
after_subi c d = flags_sub (set_mem c d.a (lo_next c d)) (c.mem d.a) (b8 d) (lo_next c d) false

abbrev pub after_sbci : AvrCpu → Decoded → AvrCpu
after_sbci c d =
    flags_sub (set_mem (after_subi c d) (r_next c 1) (hi_next c d)) (c.mem (r_next c 1)) 0
      (hi_next c d) true

sreg-after_subi : (c : AvrCpu) (d : Decoded) → (after_subi c d).sreg < 256
unfolding flags_sub set_sreg
sreg-after_subi c d = omega arith

sreg-after_sbci : (c : AvrCpu) (d : Decoded) → (after_sbci c d).sreg < 256
unfolding flags_sub set_sreg
sreg-after_sbci c d = omega arith

-- The flags after SUBI.
subi_flags :
    (c : AvrCpu) (d : Decoded)
    → IsDelay2 c d
    → FlagsAre c.sreg
        (after_subi c d).sreg
        (ltb (c.mem d.a % 16) (b8 d % 16 + 0))
        (ltb (signed (c.mem d.a) + 512 - signed (b8 d) - 0) 512)
        (ltb (signed (c.mem d.a) + 512 - signed (b8 d) - 0) 384
          || ltb 639 (signed (c.mem d.a) + 512 - signed (b8 d) - 0))
        (bit7 (lo_next c d))
        (lo_next c d == 0)
        (ltb (c.mem d.a) (b8 d + 0))
unfolding set_mem
subi_flags c d v =
    flags_sub-FlagsAre (set_mem c d.a (lo_next c d)) (c.mem d.a) (b8 d) 0 false v.sreg_byte
      v.lo_byte (omega arith) (omega arith)

carry_in-after_subi :
    (c : AvrCpu) (d : Decoded) → IsDelay2 c d → carry_in (after_subi c d) ≡ borrow c d
unfolding carry_in
carry_in-after_subi c d v =
    ap (λ b. if b then 1 else 0) (nonzero-bit_and 0 (after_subi c d).sreg)
    ∙ ground (arith, (subi_flags c d v).flag_c)

mem-after_subi :
    (c : AvrCpu) (d : Decoded)
    → IsDelay2 c d
    → (after_subi c d).mem (r_next c 1) ≡ c.mem (r_next c 1)
unfolding flags_sub set_sreg set_mem
mem-after_subi c d v = ground (arith, v.distinct)

-- SBCI behind SUBI.
sbci_step :
    (c : AvrCpu) (d : Decoded)
    → IsDelay2 c d
    → let c1 = set_pc (after_subi c d) (c.pc + 1) in
      h_sbci (c.decode_cache (c.pc + 1)) c1 ≡ (next 1, set_pc (after_sbci c d) (c.pc + 2))
unfolding advance set_pc flags_sub set_mem set_sreg sub8 carry_in
sbci_step c d v =
    let c1 = set_pc (after_subi c d) (c.pc + 1) in
    let byte : (after_subi c d).mem (r_next c 1) < 256 =
      omega (arith, mem-after_subi c d v, v.hi_byte) in
    let on : u16 (u16 (c.pc + 1) + 1) ≡ u16 (c.pc + 2) = omega arith in
    h_sbci-sbci_always (c.decode_cache (c.pc + 1)) c1 byte
    ∙ rw (v.sbci_0, mem-after_subi c d v, carry_in-after_subi c d v, on) refl

-- SUBI and SBCI, one after the other.
pub subi_sbci :
    (c : AvrCpu) (d : Decoded)
    → IsDelay2 c d
    → and_then (h_subi d c) h_sbci ≡ (next 2, set_pc (after_sbci c d) (c.pc + 2))
unfolding h_subi and_then spend advance set_pc flags_sub set_mem set_sreg
subi_sbci c d v =
    let at : u16 (c.pc + 1) ≡ c.pc + 1 = omega (arith, v.pc_small) in
    let c1 = set_pc (after_subi c d) (c.pc + 1) in
    ap (λ i. (spend 1 (h_sbci (c.decode_cache i) c1).0, (h_sbci (c.decode_cache i) c1).1)) at
    ∙ ap (λ r. (spend 1 r.0, r.1)) (sbci_step c d v)

-- The flags after SBCI.
sbci_flags :
    (c : AvrCpu) (d : Decoded)
    → IsDelay2 c d
    → let hi = c.mem (r_next c 1) in
      let total = signed hi + 512 - signed 0 - borrow c d in
      FlagsAre
        (after_subi c d).sreg
        (after_sbci c d).sreg
        (ltb (hi % 16) (0 % 16 + borrow c d))
        (ltb total 512)
        (ltb total 384 || ltb 639 total)
        (bit7 (hi_next c d))
        ((bit_at 1 (after_subi c d).sreg == 1) && (hi_next c d == 0))
        (ltb hi (0 + borrow c d))
unfolding set_mem
sbci_flags c d v =
    flags_sub-FlagsAre (set_mem (after_subi c d) (r_next c 1) (hi_next c d)) (c.mem (r_next c 1)) 0
      (borrow c d) true (sreg-after_subi c d) v.hi_byte (omega arith) (ground arith)

-- Z after SBCI is set where both registers are 0.
pub after_sbci_z :
    (c : AvrCpu) (d : Decoded)
    → IsDelay2 c d
    → nonzero (bit_and (after_sbci c d).sreg 0x02) ≡ (lo_next c d == 0) && (hi_next c d == 0)
after_sbci_z c d v =
    nonzero-bit_and 1 (after_sbci c d).sreg
    ∙ ground (arith, (subi_flags c d v).flag_z, (sbci_flags c d v).flag_z)

-- Where the loop is left, SBCI leaves the flags that DELAY2 sets.
pub after_sbci_sreg :
    (c : AvrCpu) (d : Decoded)
    → IsDelay2 c d
    → lo_next c d ≡ 0
    → hi_next c d ≡ 0
    → (after_sbci c d).sreg ≡ u8 (bit_and c.sreg 0xC0 + 0x02)
unfolding bit7 sub8
after_sbci_sreg c d v el eh =
    let f1 = subi_flags c d v in
    let f2 = FlagsAre-value (sreg-after_subi c d) (sreg-after_sbci c d) (sbci_flags c d v) in
    let top = FlagsAre-high v.sreg_byte (sreg-after_subi c d) f1 in
    let keep = bit_and_ti c.sreg v.sreg_byte in
    let hi : c.mem (r_next c 1) ≡ borrow c d = ground (arith, eh, v.hi_byte) in
    let z : bit_at 1 (after_subi c d).sreg ≡ 1 = f1.flag_z ∙ ground (arith, el) in
    ground (arith, f2, top, keep, hi, z, eh, v.sreg_byte)

-- ===== src/Avr/Sreg/Sbci.antt =====
-- The fast path of SBCI in src/avr/avr_decode.c.
use uc_vm.Common.{
  ℕ, ◌+◌, ◌-◌, ◌%◌, ◌<◌, ◌≡◌, ◌∙◌, refl, sym, ap, arith, fun_ext, true, false, ◌&&◌, Bool-cases,
  inl, inr, bit_and, bit_xor, nonzero, nonzero-bit_and, ◌==◌, bit_at,
}
use uc_vm.Avr.Cpu.{AvrCpu, Decoded, avr_r, set_mem, set_sreg}
use uc_vm.Avr.Flags.{borrows, flags_sub, bit7, hvnzcs}
use uc_vm.Avr.Exec.Outcome.{Handler, advance, b8}
use uc_vm.Avr.Exec.Arith.{carry_in, sub8, h_sbci}
use uc_vm.Avr.Sreg.Carries.{borrows_7, borrows_3, overflow_7, bit7_digit}

-- SBCI without its fast path.
abbrev pub sbci_always : Handler
sbci_always d c =
    let rd = avr_r c d.a in
    let r = sub8 rd (b8 d) (carry_in c) in
    advance 1 1 (flags_sub (set_mem c d.a r) rd (b8 d) r true)

set_mem-same : (c : AvrCpu) (i : ℕ) → c.mem i < 256 → set_mem c i (c.mem i) ≡ c
unfolding set_mem
set_mem-same c i h = ap (λ m. record c { mem = m }) (fun_ext (λ a. ground (arith, h)))

flags_sub-0 :
    (c : AvrCpu) (rd : ℕ)
    → rd < 256
    → flags_sub c rd 0 rd true
      ≡ set_sreg c (
          bit_and c.sreg 0xC0
          + hvnzcs false false (bit7 rd) (nonzero (bit_and c.sreg 0x02) && (rd == 0)) false)
unfolding flags_sub
flags_sub-0 c rd h =
    let same : (rd + 512 - 0 - 0) % 256 ≡ rd = omega (arith, h) in
    let b7 = borrows_7 rd 0 0 h (omega arith) (omega arith) in
    let b3 = borrows_3 rd 0 0 h (omega arith) (omega arith) in
    let eh : nonzero (bit_and (borrows rd 0 rd) 0x08) ≡ false =
      nonzero-bit_and 3 (borrows rd 0 rd)
      ∙ ground (arith, ap (λ r. bit_at 3 (borrows rd 0 r)) same, b3, h) in
    let ec : nonzero (bit_and (borrows rd 0 rd) 0x80) ≡ false =
      nonzero-bit_and 7 (borrows rd 0 rd)
      ∙ ground (arith, ap (λ r. bit_at 7 (borrows rd 0 r)) same, b7, h) in
    let ev : bit7 (bit_and (bit_xor rd 0) (bit_xor rd rd)) ≡ false =
      bit7_digit _ ∙ ground (arith, overflow_7 rd 0 rd rd h (omega arith) h h) in
    rw (eh, ec, ev) refl

sbci_always-0 :
    (d : Decoded) (c : AvrCpu)
    → c.mem d.a < 256
    → b8 d ≡ 0
    → carry_in c ≡ 0
    → sbci_always d c ≡ advance 1 1 (flags_sub c (c.mem d.a) 0 (c.mem d.a) true)
unfolding sub8
sbci_always-0 d c h eb ec =
    let same : (c.mem d.a + 512 - 0 - 0) % 256 ≡ c.mem d.a = omega (arith, h) in
    rw (eb, ec, same, set_mem-same c d.a h) refl

-- With the register a byte, SBCI does in its fast path, where the constant and the carry are 0, all
-- that the subtraction does: the register keeps its value and each flag is the same.
pub h_sbci-sbci_always : (d : Decoded) (c : AvrCpu) → c.mem d.a < 256 → h_sbci d c ≡ sbci_always d c
unfolding h_sbci
h_sbci-sbci_always d c h = elim (Bool-cases ((b8 d == 0) && (carry_in c == 0))) [
  | inl e ↦ rw e (
      sym (
        sbci_always-0 d c h (ground (arith, e)) (ground (arith, e))
        ∙ ap (advance 1 1) (flags_sub-0 c (c.mem d.a) h)))
  | inr e ↦ rw e refl
]

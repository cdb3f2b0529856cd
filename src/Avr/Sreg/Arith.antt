-- ===== src/Avr/Sreg/Arith.antt =====
-- The flags of the additions and subtractions of src/avr/avr_decode.c, against the sums and
-- differences of the operands as unsigned and as signed bytes.
use uc_vm.Common.{
  ℕ, ◌+◌, ◌-◌, ◌%◌, ◌<◌, ◌≡◌, ◌∙◌, refl, ap, arith, Bool, ◌||◌, ◌&&◌, xor, u8, bit_and, bit_xor,
  nonzero-bit_and, ltb, ◌==◌, bit_at, if◌then◌else◌,
}
use uc_vm.Avr.Cpu.{AvrCpu, set_sreg}
use uc_vm.Avr.Flags.{carries, borrows, flags_add, flags_sub, bit7}
use uc_vm.Avr.Exec.Arith.{sub8}
use uc_vm.Avr.Sreg.Carries.{
  carries_7, carries_3, borrows_7, borrows_3, overflow_7, bit7_digit, bit7_of,
}
use uc_vm.Avr.Sreg.Fields.{FlagsAre, FlagsAre-cong, hvnzcs-FlagsAre}

-- A byte as a signed number, plus 128.
abbrev pub signed : ℕ → ℕ
signed x = (x + 128) % 256

-- With SREG and the operands bytes and the carry a bit, flags_add sets the flags of the AVR for
-- a sum: H is the carry out of the low nibble, C the carry out of the byte, V tells that the
-- signed sum leaves the signed bytes, S that it is negative, N is bit 7 and Z tells a result of
-- 0; I and T stay.
pub flags_add-FlagsAre :
    (c : AvrCpu) (rd rr cin : ℕ)
    → c.sreg < 256
    → rd < 256
    → rr < 256
    → cin < 2
    → let r = u8 (rd + rr + cin) in
      let total = signed rd + signed rr + cin in
      FlagsAre c.sreg
        (flags_add c rd rr r).sreg
        (ltb 15 (rd % 16 + rr % 16 + cin))
        (ltb total 256)
        (ltb total 128 || ltb 383 total)
        (bit7 r)
        (r == 0)
        (ltb 255 (rd + rr + cin))
unfolding flags_add set_sreg
flags_add-FlagsAre c rd rr cin hs hd hr hc =
    let r = u8 (rd + rr + cin) in
    let total = signed rd + signed rr + cin in
    let digit = overflow_7 rd r rr r hd (omega arith) hr (omega arith) in
    let v : bit7 (bit_and (bit_xor rd r) (bit_xor rr r)) ≡ (ltb total 128 || ltb 383 total) =
      bit7_digit _ ∙ ground (arith, digit, hd, hr, hc) in
    let s : xor (bit7 r) (ltb total 128 || ltb 383 total) ≡ ltb total 256 =
      ap (λ n. xor n (ltb total 128 || ltb 383 total)) (bit7_of r (omega arith))
      ∙ ground (arith, hd, hr, hc) in
    FlagsAre-cong
      (nonzero-bit_and 3 (carries rd rr r) ∙ ground (arith, carries_3 rd rr cin hd hr hc))
      (ap (xor (bit7 r)) v ∙ s) v refl
      (nonzero-bit_and 7 (carries rd rr r) ∙ ground (arith, carries_7 rd rr cin hd hr hc))
      (hvnzcs-FlagsAre c.sreg _ _ _ _ _ hs)

-- With SREG and the operands bytes and the borrow a bit, flags_sub sets the flags of the AVR for
-- a difference: H is the borrow of the low nibble, C the borrow of the byte, V tells that the
-- signed difference leaves the signed bytes, S that it is negative, N is bit 7, and Z tells a
-- result of 0, where the operation asks for it only if Z was set before; I and T stay.
pub flags_sub-FlagsAre :
    (c : AvrCpu) (rd rr cin : ℕ) (keep_z : Bool)
    → c.sreg < 256
    → rd < 256
    → rr < 256
    → cin < 2
    → let r = sub8 rd rr cin in
      let total = signed rd + 512 - signed rr - cin in
      FlagsAre c.sreg
        (flags_sub c rd rr r keep_z).sreg
        (ltb (rd % 16) (rr % 16 + cin))
        (ltb total 512)
        (ltb total 384 || ltb 639 total)
        (bit7 r)
        (if keep_z then (bit_at 1 c.sreg == 1) && (r == 0) else r == 0)
        (ltb rd (rr + cin))
unfolding flags_sub set_sreg sub8
flags_sub-FlagsAre c rd rr cin keep_z hs hd hr hc =
    let r = sub8 rd rr cin in
    let total = signed rd + 512 - signed rr - cin in
    let digit = overflow_7 rd rr rd r hd hr hd (omega arith) in
    let v : bit7 (bit_and (bit_xor rd rr) (bit_xor rd r)) ≡ (ltb total 384 || ltb 639 total) =
      bit7_digit _ ∙ ground (arith, digit, hd, hr, hc) in
    let s : xor (bit7 r) (ltb total 384 || ltb 639 total) ≡ ltb total 512 =
      ap (λ n. xor n (ltb total 384 || ltb 639 total)) (bit7_of r (omega arith))
      ∙ ground (arith, hd, hr, hc) in
    FlagsAre-cong
      (nonzero-bit_and 3 (borrows rd rr r) ∙ ground (arith, borrows_3 rd rr cin hd hr hc))
      (ap (xor (bit7 r)) v ∙ s) v
      (ap (λ z. if keep_z then z && (r == 0) else r == 0) (nonzero-bit_and 1 c.sreg))
      (nonzero-bit_and 7 (borrows rd rr r) ∙ ground (arith, borrows_7 rd rr cin hd hr hc))
      (hvnzcs-FlagsAre c.sreg _ _ _ _ _ hs)

-- ===== src/Avr/Flags.antt =====
-- The status register of the AVR: the flag helpers of src/avr/avr_decode.c. SREG_C, Z, N, V, S, H,
-- T and I are bits 0 to 7; fields that do not overlap are added.
use uc_vm.Common.{
  ℕ, ◌+◌, ◌-◌, ◌/◌, ◌%◌, Bool, false, xor, ◌&&◌, bit_and, bit_or, bit_xor, if◌then◌else◌, nonzero,
  ◌==◌,
}
use uc_vm.Avr.Cpu.{AvrCpu, set_sreg}

-- `on ? mask : 0`.
unfoldable pub flag : Bool → ℕ → ℕ
flag on mask = if on then mask else 0

unfoldable pub set_flag : AvrCpu → ℕ → Bool → AvrCpu
set_flag c mask on = set_sreg c (if on then bit_or c.sreg mask else bit_and c.sreg (255 - mask))

-- The carry out of each bit of an addition, and the borrow into each bit of a subtraction.
unfoldable pub carries : ℕ → ℕ → ℕ → ℕ
carries rd rr r = bit_or (bit_or (bit_and rd rr) (bit_and rr (255 - r))) (bit_and (255 - r) rd)

unfoldable pub borrows : ℕ → ℕ → ℕ → ℕ
borrows rd rr r = bit_or (bit_or (bit_and (255 - rd) rr) (bit_and rr r)) (bit_and r (255 - rd))

-- H, V, N, Z, C and S = N xor V, in the order of the source.
unfoldable pub hvnzcs : Bool → Bool → Bool → Bool → Bool → ℕ
unfolding flag
hvnzcs h v n z cy =
    flag h 0x20 + flag v 0x08 + flag n 0x04 + flag z 0x02 + flag cy 0x01 + flag (xor n v) 0x10

-- `r >> 7 & 1`.
unfoldable pub bit7 : ℕ → Bool
bit7 r = nonzero (r / 128 % 2)

unfoldable pub flags_add : AvrCpu → ℕ → ℕ → ℕ → AvrCpu
unfolding carries hvnzcs bit7
flags_add c rd rr r =
    let carry = carries rd rr r in
    let n = bit7 r in
    let v = bit7 (bit_and (bit_xor rd r) (bit_xor rr r)) in
    set_sreg c (
      bit_and c.sreg 0xC0
      + hvnzcs (nonzero (bit_and carry 0x08)) v n (r == 0) (nonzero (bit_and carry 0x80)))

unfoldable pub flags_sub : AvrCpu → ℕ → ℕ → ℕ → Bool → AvrCpu
unfolding borrows hvnzcs bit7
flags_sub c rd rr r keep_z =
    let borrow = borrows rd rr r in
    let n = bit7 r in
    let v = bit7 (bit_and (bit_xor rd rr) (bit_xor rd r)) in
    let z = if keep_z then nonzero (bit_and c.sreg 0x02) && (r == 0) else r == 0 in
    set_sreg c (
      bit_and c.sreg 0xC0
      + hvnzcs (nonzero (bit_and borrow 0x08)) v n z (nonzero (bit_and borrow 0x80)))

-- The flags that keep T, I, H and C.
unfoldable pub flags_keep_c : AvrCpu → Bool → ℕ → AvrCpu
unfolding hvnzcs bit7
flags_keep_c c v r = set_sreg c (bit_and c.sreg 0xE1 + hvnzcs false v (bit7 r) (r == 0) false)

unfoldable pub flags_logic : AvrCpu → ℕ → AvrCpu
unfolding flags_keep_c
flags_logic c r = flags_keep_c c false r

unfoldable pub flags_inc : AvrCpu → ℕ → AvrCpu
unfolding flags_keep_c
flags_inc c r = flags_keep_c c (r == 0x80) r

unfoldable pub flags_dec : AvrCpu → ℕ → AvrCpu
unfolding flags_keep_c
flags_dec c r = flags_keep_c c (r == 0x7F) r

-- S from the N and V that are set already: `((sreg >> 2) ^ (sreg >> 3)) & 1`.
unfoldable pub set_s : AvrCpu → AvrCpu
unfolding set_flag
set_s c = set_flag c 0x10 (nonzero (bit_xor (c.sreg / 4) (c.sreg / 8) % 2))

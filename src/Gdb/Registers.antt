-- ===== src/Gdb/Registers.antt =====
-- The registers of the 8051 in the characters of the protocol (src/gdb/gdb_target_mcs51.c): what
-- the client writes is what it reads.
use uc_vm.Common.{
  ℕ, suc, ◌+◌, ◌*◌, ◌/◌, ◌%◌, ◌^◌, ◌<◌, ◌≡◌, ◌∙◌, refl, ap, ap₂, sym, arith, true, List, [], ◌∷◌,
  ◌++◌, none, some, length, if◌then◌else◌, u16, bit_or, bit_or-shifted, nonzero, ◌&&◌,
}
use native.Mathlib.Nat.{mod-eq_of_lt}
use mathlib.Core.List.{append_assoc}
use uc_vm.Mcs51.Cpu.{
  Cpu, reg, reg_bank, set_pc, set_sfr, set_iram, sfr_acc, sfr_b, sfr_psw, sfr_sp, sfr_dpl, sfr_dph,
}
use uc_vm.Gdb.Stub.{hex_char, hex_byte, hex_pair_in, first, skip}
use uc_vm.Gdb.Packets.{take_byte}
use uc_vm.Gdb.Digits.{All, byte_chars, hex_pair_in-hex_byte}
use uc_vm.Gdb.Target.{reg_chars, mcs51_read_regs, put_pc, put_sfr, put_rns, mcs51_write_regs}

abbrev pub IsByte : ℕ → Type 0
IsByte b = b < 256

nonzero-hex_char : (n : ℕ) → nonzero (hex_char n) ≡ true
unfolding hex_char
nonzero-hex_char n = ground arith

take_byte-hex_byte :
    (b : ℕ) (rest : List ℕ) → b < 256 → take_byte (hex_byte b ++ rest) ≡ some (b, rest)
unfolding take_byte hex_byte
take_byte-hex_byte b rest h =
    let hi = hex_char (b / 16 % 16) in
    let lo = hex_char (b % 16) in
    ap₂ (λ x y. if x && y then some (hex_pair_in 256 hi lo, rest) else none)
      (nonzero-hex_char (b / 16 % 16)) (nonzero-hex_char (b % 16))
    ∙ ap (λ v. some (v, rest)) (hex_pair_in-hex_byte 256 b h (omega arith))

word-hex_byte :
    (b : ℕ) (rest : List ℕ)
    → b < 256
    → hex_pair_in 65536 (first (hex_byte b ++ rest)) (first (skip 1 (hex_byte b ++ rest))) ≡ b
unfolding hex_byte
word-hex_byte b rest h = hex_pair_in-hex_byte 65536 b h (omega arith)

put_pc-hex_byte :
    (c : Cpu) (lo hi : ℕ) (rest : List ℕ)
    → lo < 256
    → hi < 256
    → put_pc (c, hex_byte lo ++ (hex_byte hi ++ rest)) ≡ (set_pc c (hi * 256 + lo), rest)
unfolding put_pc
put_pc-hex_byte c lo hi rest p q =
    let high : u16 (hi * 256) ≡ hi * 2 ^ 8 = mod-eq_of_lt (omega (arith, q)) in
    rw
      (
        put_pc,
        take_byte-hex_byte lo (hex_byte hi ++ rest) p,
        take_byte-hex_byte hi rest q,
        word-hex_byte lo (hex_byte hi ++ rest) p,
        word-hex_byte hi rest q,
      )
      (ap (λ t. (set_pc c t, rest)) (ap (λ t. bit_or t lo) high ∙ bit_or-shifted 8 hi lo p))

put_sfr-hex_byte :
    (c : Cpu) (i b : ℕ) (rest : List ℕ)
    → b < 256
    → put_sfr i (c, hex_byte b ++ rest) ≡ (set_sfr c i b, rest)
unfolding put_sfr
put_sfr-hex_byte c i b rest h = rw (put_sfr, take_byte-hex_byte b rest h) refl

put_sfrs :
    (c : Cpu) (i j b d : ℕ) (rest : List ℕ)
    → b < 256
    → d < 256
    → put_sfr j (put_sfr i (c, hex_byte b ++ (hex_byte d ++ rest)))
      ≡ (set_sfr (set_sfr c i b) j d, rest)
put_sfrs c i j b d rest h k =
    ap (put_sfr j) (put_sfr-hex_byte c i b (hex_byte d ++ rest) h)
    ∙ put_sfr-hex_byte (set_sfr c i b) j d rest k

-- R`i` and the registers behind it in the bank that PSW selects.
abbrev put_bank : ℕ → List ℕ → Cpu → Cpu
put_bank i [] c = c
put_bank i (b ∷ bs) c = put_bank (i + 1) bs (set_iram c (reg_bank c + i) b)

put_rns-byte_chars :
    (i : ℕ) (bs rest : List ℕ) (c : Cpu)
    → All IsByte bs
    → put_rns (length bs) i (c, byte_chars bs ++ rest) ≡ put_bank i bs c
unfolding put_rns
put_rns-byte_chars i [] rest c v = refl
put_rns-byte_chars i (b ∷ bs) rest c (h, v) =
    ap (λ t. put_rns (suc (length bs)) i (c, t)) (append_assoc (hex_byte b) (byte_chars bs) rest)
    ∙ rw (put_rns, take_byte-hex_byte b (byte_chars bs ++ rest) h)
        (put_rns-byte_chars (i + 1) bs rest (set_iram c (reg_bank c + i) b) v)

-- Registers below `i` are not reached.
put_bank-below : (i k : ℕ) (bs : List ℕ) (c : Cpu) → k < i → reg (put_bank i bs c) k ≡ reg c k
unfolding set_iram
put_bank-below i k [] c h = refl
put_bank-below i k (b ∷ bs) c h =
    put_bank-below (i + 1) k bs (set_iram c (reg_bank c + i) b) (omega (arith, h))
    ∙ ground (arith, h)

put_bank-sfr : (i : ℕ) (bs : List ℕ) (c : Cpu) → (put_bank i bs c).sfr ≡ c.sfr
unfolding set_iram
put_bank-sfr i [] c = refl
put_bank-sfr i (b ∷ bs) c = put_bank-sfr (i + 1) bs (set_iram c (reg_bank c + i) b)

put_bank-pc : (i : ℕ) (bs : List ℕ) (c : Cpu) → (put_bank i bs c).pc ≡ c.pc
unfolding set_iram
put_bank-pc i [] c = refl
put_bank-pc i (b ∷ bs) c = put_bank-pc (i + 1) bs (set_iram c (reg_bank c + i) b)

reg_chars-put_bank :
    (i : ℕ) (bs : List ℕ) (c : Cpu)
    → All IsByte bs
    → reg_chars (put_bank i bs c) i (length bs) ≡ byte_chars bs
unfolding reg_chars set_iram
reg_chars-put_bank i [] c v = refl
reg_chars-put_bank i (b ∷ bs) c (h, v) =
    let stored = set_iram c (reg_bank c + i) b in
    ap₂ (λ x y. hex_byte x ++ y)
      (put_bank-below (i + 1) i bs stored (omega arith) ∙ ground (arith, h))
      (reg_chars-put_bank (i + 1) bs stored v)

-- The CPU with these registers, PSW before the bank that it selects.
abbrev put_all : ℕ → ℕ → ℕ → ℕ → ℕ → ℕ → ℕ → List ℕ → Cpu → Cpu
put_all pc a b p s dl dh rs c =
    let c1 = set_sfr (set_sfr (set_pc c pc) sfr_acc a) sfr_b b in
    let c2 = set_sfr (set_sfr c1 sfr_psw p) sfr_sp s in
    put_bank 0 rs (set_sfr (set_sfr c2 sfr_dpl dl) sfr_dph dh)

-- The characters of all registers, in the order of the protocol.
abbrev pub reg_file : ℕ → ℕ → ℕ → ℕ → ℕ → ℕ → ℕ → ℕ → List ℕ → List ℕ
reg_file lo hi a b p s dl dh rs = byte_chars (lo ∷ hi ∷ a ∷ b ∷ p ∷ s ∷ dl ∷ dh ∷ rs)

mcs51_write_regs-reg_file :
    (c : Cpu) (lo hi a b p s dl dh : ℕ) (rs rest : List ℕ)
    → All IsByte (lo ∷ hi ∷ a ∷ b ∷ p ∷ s ∷ dl ∷ dh ∷ rs)
    → length rs ≡ 8
    → mcs51_write_regs c (reg_file lo hi a b p s dl dh rs ++ rest)
      ≡ put_all (hi * 256 + lo) a b p s dl dh rs c
unfolding mcs51_write_regs hex_byte
mcs51_write_regs-reg_file c lo hi a b p s dl dh rs rest
      (v0, (v1, (v2, (v3, (v4, (v5, (v6, (v7, v)))))))) l =
    let end = byte_chars rs ++ rest in
    let t7 = hex_byte dh ++ end in
    let t6 = hex_byte dl ++ t7 in
    let t5 = hex_byte s ++ t6 in
    let t4 = hex_byte p ++ t5 in
    let t3 = hex_byte b ++ t4 in
    let t2 = hex_byte a ++ t3 in
    let c0 = set_pc c (hi * 256 + lo) in
    let c2 = set_sfr (set_sfr c0 sfr_acc a) sfr_b b in
    let c4 = set_sfr (set_sfr c2 sfr_psw p) sfr_sp s in
    let c6 = set_sfr (set_sfr c4 sfr_dpl dl) sfr_dph dh in
    let two : put_sfr sfr_b (put_sfr sfr_acc (put_pc (c, hex_byte lo ++ (hex_byte hi ++ t2))))
        ≡ (c2, t4) =
      ap (λ t. put_sfr sfr_b (put_sfr sfr_acc t)) (put_pc-hex_byte c lo hi t2 v0 v1)
      ∙ put_sfrs c0 sfr_acc sfr_b a b t4 v2 v3 in
    ap (λ t. put_rns 8 0 (put_sfr sfr_dph (put_sfr sfr_dpl (put_sfr sfr_sp (put_sfr sfr_psw t)))))
      two
    ∙ ap (λ t. put_rns 8 0 (put_sfr sfr_dph (put_sfr sfr_dpl t)))
        (put_sfrs c2 sfr_psw sfr_sp p s t6 v4 v5)
    ∙ ap (put_rns 8 0) (put_sfrs c4 sfr_dpl sfr_dph dl dh end v6 v7)
    ∙ ap (λ n. put_rns n 0 (c6, end)) (sym l)
    ∙ put_rns-byte_chars 0 rs rest c6 v

joined : {x y : ℕ} {s t : List ℕ} → x ≡ y → s ≡ t → hex_byte x ++ s ≡ hex_byte y ++ t
joined e f = ap₂ (λ v u. hex_byte v ++ u) e f

mcs51_read_regs-put_all :
    (c : Cpu) (lo hi a b p s dl dh : ℕ) (rs : List ℕ)
    → All IsByte (lo ∷ hi ∷ a ∷ b ∷ p ∷ s ∷ dl ∷ dh ∷ rs)
    → length rs ≡ 8
    → mcs51_read_regs (put_all (hi * 256 + lo) a b p s dl dh rs c) ≡ reg_file lo hi a b p s dl dh rs
unfolding mcs51_read_regs set_sfr set_pc
mcs51_read_regs-put_all c lo hi a b p s dl dh rs (v0, (v1, (v2, (v3, (v4, (v5, (v6, (v7, v))))))))
      l =
    let c1 = set_sfr (set_sfr (set_pc c (hi * 256 + lo)) sfr_acc a) sfr_b b in
    let c2 = set_sfr (set_sfr (set_sfr (set_sfr c1 sfr_psw p) sfr_sp s) sfr_dpl dl) sfr_dph dh in
    let stored = put_bank 0 rs c2 in
    let kept : (i v : ℕ) → c2.sfr i ≡ v % 256 → v < 256 → stored.sfr i ≡ v =
      λ i v e h. ap (λ f. f i) (put_bank-sfr 0 rs c2) ∙ e ∙ mod-eq_of_lt h in
    let counter : stored.pc ≡ hi * 256 + lo =
      put_bank-pc 0 rs c2 ∙ mod-eq_of_lt (omega (arith, v0, v1)) in
    joined (omega (arith, counter, v0, v1)) (
      joined (omega (arith, counter, v0, v1)) (
        joined (kept sfr_acc a refl v2) (
          joined (kept sfr_b b refl v3) (
            joined (kept sfr_psw p refl v4) (
              joined (kept sfr_sp s refl v5) (
                joined (kept sfr_dpl dl refl v6) (
                  joined (kept sfr_dph dh refl v7)
                    (ap (reg_chars stored 0) (sym l) ∙ reg_chars-put_bank 0 rs c2 v))))))))

-- All registers of the 8051 that the client writes, each of one byte, are what it reads next:
-- the program counter, ACC, B, PSW, SP, DPTR, and R0 to R7 of the bank that the written PSW
-- selects. What stands behind them in the buffer does not matter.
pub mcs51_read_regs-mcs51_write_regs :
    (c : Cpu) (lo hi a b p s dl dh : ℕ) (rs rest : List ℕ)
    → All IsByte (lo ∷ hi ∷ a ∷ b ∷ p ∷ s ∷ dl ∷ dh ∷ rs)
    → length rs ≡ 8
    → mcs51_read_regs (mcs51_write_regs c (reg_file lo hi a b p s dl dh rs ++ rest))
      ≡ reg_file lo hi a b p s dl dh rs
mcs51_read_regs-mcs51_write_regs c lo hi a b p s dl dh rs rest v l =
    ap mcs51_read_regs (mcs51_write_regs-reg_file c lo hi a b p s dl dh rs rest v l)
    ∙ mcs51_read_regs-put_all c lo hi a b p s dl dh rs v l

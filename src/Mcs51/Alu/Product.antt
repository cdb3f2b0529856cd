-- ===== src/Mcs51/Alu/Product.antt =====
-- MUL and DIV, and the rotations of the accumulator.
use uc_vm.Common.{
  ℕ, ◌+◌, ◌*◌, ◌/◌, ◌%◌, ◌≤◌, ◌<◌, ◌≡◌, refl, arith, true, false, if◌then◌else◌, nonzero, leb, ◌==◌,
  ◌&&◌, bit_or, u8, all_below, all_below_sound, ==_iff, ◌⊎◌, inl, inr, Bool-cases, u8-eq_of_lt,
}
use uc_vm.Mcs51.Cpu.{Cpu, psw, acc, reg_b, set_sfr, set_pc}
use uc_vm.Mcs51.Decode.Flags.{set_acc, set_cy, set_ov, advance, put_mask}
use uc_vm.Mcs51.Decode.Arith.{op_mul_ab, op_div_ab}
use uc_vm.Mcs51.Decode.Logic.{op_rr_a, op_rl_a, op_rrc_a, op_rlc_a, op_swap_a}
use uc_vm.Mcs51.Alu.Psw.{cy, ov, put_mask-pow, get_cy_lem}

product_bound : (a b : ℕ) → a < 256 → b < 256 → a * b ≤ 255 * 255
product_bound a b ha hb = grind arith

div_bytes :
    (a b : ℕ) → a < 256 → b < 256 → 0 < b → (u8 (a / b) * b + u8 (a % b) ≡ a) × (u8 (a % b) < b)
div_bytes a b ha hb pos =
    let small : a / b < 256 = omega arith in
    let rest : a % b < b = omega arith in
    rw (u8-eq_of_lt (a / b) small, u8-eq_of_lt (a % b) (omega arith)) (grind arith, rest)

module _ (c : Cpu) (hp : psw c < 256) (ha : acc c < 256) (hb : reg_b c < 256) where
  -- With A, B and PSW bytes, MUL AB leaves the product in B and A, clears CY, and sets OV exactly
  -- if the product needs more than A.
  pub op_mul_ab_lem :
      let d = (op_mul_ab c).1 in
      (acc d + 256 * reg_b d ≡ acc c * reg_b c)
      × (cy d ≡ 0)
      × (ov d ≡ (if leb 256 (acc c * reg_b c) then 1 else 0))
  unfolding op_mul_ab set_acc set_sfr set_cy set_ov advance set_pc
  op_mul_ab_lem =
      let fits : acc c * reg_b c ≤ 255 * 255 = product_bound (acc c) (reg_b c) ha hb in
      ground (
        arith,
        put_mask-pow (psw c) 7 false hp,
        put_mask-pow (u8 (put_mask (psw c) 0x80 false)) 2
            (nonzero (u8 (acc c * reg_b c % 65536 / 256 % 256))),
      )

  -- With A, B and PSW bytes, DIV AB clears CY; by 0 it leaves A and B and sets OV, else it leaves
  -- the quotient in A and the remainder in B, and clears OV.
  pub op_div_ab_lem :
      let d = (op_div_ab c).1 in
      (cy d ≡ 0)
      × (((reg_b c ≡ 0) × (acc d ≡ acc c) × (reg_b d ≡ 0) × (ov d ≡ 1))
          ⊎ ((acc d * reg_b c + reg_b d ≡ acc c) × (reg_b d < reg_b c) × (ov d ≡ 0)))
  unfolding op_div_ab set_acc set_sfr set_cy set_ov advance set_pc
  op_div_ab_lem =
      let p = put_mask-pow (psw c) 7 false hp in
      let q = put_mask-pow (u8 (put_mask (psw c) 0x80 false)) 2 in
      elim (Bool-cases (reg_b c == 0)) [
        | inl z ↦ rw z (
          ground (arith, p, q true),
          inl ((==_iff _ _).0 z, refl, (==_iff _ _).0 z, ground (arith, p, q true)),
        )
        | inr n ↦
            let parts = div_bytes (acc c) (reg_b c) ha hb (ground arith) in
            rw n (ground (arith, p, q false), inr (parts.0, parts.1, ground (arith, p, q false)))
      ]

-- What a rotation makes of each byte, with and without the carry.
rotate_table :
    all_below 256 (λ x.
      (u8 (bit_or (u8 (bit_or (x / 2) (x * 128)) * 2) (u8 (bit_or (x / 2) (x * 128)) / 128)) == x)
      && (u8 (bit_or (u8 (bit_or (x * 16) (x / 16)) * 16) (u8 (bit_or (x * 16) (x / 16)) / 16))
          == x))
    ≡ true
unfolding all_below
rotate_table = refl

-- With A a byte, RL undoes RR, and SWAP undoes itself.
pub op_rl_a-op_rr_a :
    (c : Cpu)
    → acc c < 256
    → (acc (op_rl_a (op_rr_a c).1).1 ≡ acc c) × (acc (op_swap_a (op_swap_a c).1).1 ≡ acc c)
unfolding op_rl_a op_rr_a op_swap_a set_acc set_sfr advance set_pc
op_rl_a-op_rr_a c h = ground (arith, all_below_sound 256 _ (acc c) rotate_table h)

rrc_table :
    all_below 256
      (λ x. (u8 (bit_or (x / 2) 0) == x / 2) && (u8 (bit_or (x / 2) 128) == x / 2 + 128))
    ≡ true
unfolding all_below
rrc_table = refl

rlc_table :
    all_below 256
      (λ x. (u8 (bit_or (x * 2) 0) == x * 2 % 256) && (u8 (bit_or (x * 2) 1) == x * 2 % 256 + 1))
    ≡ true
unfolding all_below
rlc_table = refl

op_rrc_a_lem :
    (c : Cpu)
    → acc c < 256
    → psw c < 256
    → let d = (op_rrc_a c).1 in
      (acc d ≡ acc c / 2 + 128 * cy c) × (cy d ≡ acc c % 2) × (psw d < 256)
unfolding op_rrc_a set_acc set_cy set_sfr advance set_pc
op_rrc_a_lem c ha hp = ground (
  arith,
  get_cy_lem c hp,
  all_below_sound 256 _ (acc c) rrc_table ha,
  put_mask-pow (psw c) 7 (nonzero (acc c % 2)) hp,
)

op_rlc_a_lem :
    (c : Cpu)
    → acc c < 256
    → psw c < 256
    → let d = (op_rlc_a c).1 in (acc d ≡ acc c * 2 % 256 + cy c) × (cy d ≡ acc c / 128)
unfolding op_rlc_a set_acc set_cy set_sfr advance set_pc
op_rlc_a_lem c ha hp = ground (
  arith,
  get_cy_lem c hp,
  all_below_sound 256 _ (acc c) rlc_table ha,
  put_mask-pow (psw c) 7 (nonzero (acc c / 128 % 2)) hp,
)

-- With A and PSW bytes, RLC undoes RRC, on the accumulator and on CY.
pub op_rlc_a-op_rrc_a :
    (c : Cpu)
    → acc c < 256
    → psw c < 256
    → let d = (op_rlc_a (op_rrc_a c).1).1 in (acc d ≡ acc c) × (cy d ≡ cy c)
op_rlc_a-op_rrc_a c ha hp =
    let right = op_rrc_a_lem c ha hp in
    let left = op_rlc_a_lem (op_rrc_a c).1 (omega (arith, right)) right.2 in
    omega (arith, right.0, right.1, left)

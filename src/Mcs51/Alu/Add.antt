-- ===== src/Mcs51/Alu/Add.antt =====
-- ADD, ADDC and SUBB against integer arithmetic.
use uc_vm.Common.{ℕ, ◌+◌, ◌-◌, ◌*◌, ◌/◌, ◌%◌, ◌≤◌, ◌<◌, ◌≡◌, ◌↔◌, arith}
use uc_vm.Mcs51.Cpu.{Cpu, psw}
use uc_vm.Mcs51.Decode.Flags.{do_add, do_subb, add_cy, add_ac, add_ov, sub_cy, sub_ac, sub_ov}
use uc_vm.Mcs51.Alu.Psw.{to_bit, cy, ac, ov, psw-do_add, psw-do_subb}

-- A byte read as a two's complement number, plus 128: from 0 for -128 to 255 for 127.
abbrev pub offset8 : ℕ → ℕ
offset8 x = (x + 128) % 256

module _ (a b k : ℕ) (ha : a < 256) (hb : b < 256) (hk : k ≤ 1) where
  add_cy_lem : to_bit (add_cy a b k) ≡ (a + b + k) / 256
  unfolding add_cy
  add_cy_lem = ground arith

  add_ac_lem : to_bit (add_ac a b k) ≡ (a % 16 + b % 16 + k) / 16
  unfolding add_ac
  add_ac_lem = ground arith

  -- No overflow, exactly when the byte stands for the sum of what the operands stand for.
  add_ov_lem :
      (to_bit (add_ov a b k) ≡ 0) ↔ (offset8 ((a + b + k) % 256) + 128 ≡ offset8 a + offset8 b + k)
  unfolding add_ov add_cy
  add_ov_lem = ground arith

  sub_cy_lem : a + 256 * to_bit (sub_cy a b k) ≡ (a + 256 - b - k) % 256 + b + k
  unfolding sub_cy
  sub_cy_lem = ground arith

  sub_ac_lem : a % 16 + 16 * to_bit (sub_ac a b k) ≡ (a % 16 + 16 - b % 16 - k) % 16 + b % 16 + k
  unfolding sub_ac
  sub_ac_lem = ground arith

  sub_ov_lem :
      (to_bit (sub_ov a b k) ≡ 0)
      ↔ (offset8 ((a + 256 - b - k) % 256) + offset8 b + k ≡ offset8 a + 128)
  unfolding sub_ov
  sub_ov_lem = ground arith

-- What stands in the flags that an addition or a subtraction leaves alone.
abbrev pub other_flags : Cpu → ℕ
other_flags c = psw c / 8 % 8 * 4 + psw c % 4

module _ (c : Cpu) (a b k : ℕ) (hp : psw c < 256) (ha : a < 256) (hb : b < 256) (hk : k ≤ 1) where
  -- do_add of bytes and a carry, with PSW a byte: the result and CY are the nine bits of the sum,
  -- AC is the carry out of the low nibble, OV is clear exactly when the signed result is the sum
  -- of the signed operands, and the other flags stay.
  pub do_add_flags :
      let (v, d) = do_add c a b k in
      (v + 256 * cy d ≡ a + b + k)
      × (ac d ≡ (a % 16 + b % 16 + k) / 16)
      × ((ov d ≡ 0) ↔ (offset8 v + 128 ≡ offset8 a + offset8 b + k))
      × (other_flags d ≡ other_flags c)
  unfolding do_add
  do_add_flags = ground (
    arith,
    psw-do_add c a b k hp,
    add_cy_lem a b k ha hb hk,
    add_ac_lem a b k ha hb hk,
    add_ov_lem a b k ha hb hk,
  )

  -- do_subb of bytes and a borrow, with PSW a byte: the result and CY give the difference, AC is
  -- the borrow of the low nibble, OV is clear exactly when the signed result is the difference of
  -- the signed operands, and the other flags stay.
  pub do_subb_flags :
      let (v, d) = do_subb c a b k in
      (v + b + k ≡ a + 256 * cy d)
      × (a % 16 + 16 * ac d ≡ (a % 16 + 16 - b % 16 - k) % 16 + b % 16 + k)
      × ((ov d ≡ 0) ↔ (offset8 v + offset8 b + k ≡ offset8 a + 128))
      × (other_flags d ≡ other_flags c)
  unfolding do_subb
  do_subb_flags = ground (
    arith,
    psw-do_subb c a b k hp,
    sub_cy_lem a b k ha hb hk,
    sub_ac_lem a b k ha hb hk,
    sub_ov_lem a b k ha hb hk,
  )

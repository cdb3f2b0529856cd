-- ===== src/Gdb/Stub.antt =====
-- The state of the stub and what its parts share: src/gdb/gdb_stub.c with the interface of
-- src/gdb/gdb_target.h. A pointer into a string is the list of the bytes from there to the end of
-- its buffer, so that `data + k` drops `k` of them. The sockets are outside: what is written to the
-- client is recorded in `sent`, newest first.
use uc_vm.Common.{
  ℕ, zero, suc, ◌+◌, ◌-◌, ◌*◌, ◌/◌, ◌%◌, ◌^◌, Bool, Option, none, some, List, [], ◌∷◌, ◌++◌,
  if◌then◌else◌, ltb, leb, ◌&&◌, u8, bit_or,
}

-- `gdb_target_ops_t`, the operations on a CPU that the stub calls. A read of memory may run a hook
-- that changes the CPU.
pub record TargetOps (Target : Type 0) : Type 0 where
  pub read_regs : Target → List ℕ
  pub write_regs : Target → List ℕ → Target
  pub read_mem : Target → ℕ → ℕ × Target
  pub write_mem : Target → ℕ → ℕ → Target
  pub get_pc : Target → ℕ
  pub target_pc : Target → ℕ → Target
  pub target_state : Target → ℕ → Target
  pub target_reset : Target → Target

-- `struct gdb_state`. `has_client` says that `client_fd` is not negative; the response buffer holds
-- nothing between two calls and is left out.
pub record Gdb (Target : Type 0) : Type 0 where
  pub cpu : Target
  pub has_client : Bool
  pub is_running : Bool
  pub single_step : Bool
  pub should_quit : Bool
  pub resume_from_pc : ℕ
  pub breakpoints : ℕ → ℕ
  pub bp_count : ℕ
  pub buf : ℕ → ℕ
  pub buf_len : ℕ
  pub sent : List (List ℕ)

-- GDB_BUF_SIZE.
abbrev pub gdb_buf_size : ℕ
gdb_buf_size = 1024

-- GDB_MAX_BREAKPOINTS.
abbrev pub gdb_max_breakpoints : ℕ
gdb_max_breakpoints = 8

-- `hex_chars[n]`.
unfoldable pub hex_char : ℕ → ℕ
hex_char n = if ltb n 10 then 48 + n else 87 + n

-- `hex_val`: none stands for -1.
unfoldable pub hex_val : ℕ → Option ℕ
hex_val c =
    if leb 48 c && leb c 57
    then some (c - 48)
    else if leb 97 c && leb c 102
    then some (c - 87)
    else if leb 65 c && leb c 70
    then some (c - 55)
    else none

-- `hex_byte`: the two characters that it writes.
unfoldable pub hex_byte : ℕ → List ℕ
unfolding hex_char
hex_byte val = hex_char (val / 16 % 16) ∷ hex_char (val % 16) ∷ []

-- `parse_hex`: the number and how many characters it has.
unfoldable pub parse_hex_from : ℕ → ℕ → List ℕ → ℕ × ℕ
parse_hex_from val n [] = (val, n)
parse_hex_from val n (c ∷ s) = elim (hex_val c) [
  | none ↦ (val, n)
  | some h ↦ parse_hex_from (val * 16 % 2 ^ 32 + h) (n + 1) s
]

unfoldable pub parse_hex : List ℕ → ℕ × ℕ
unfolding parse_hex_from
parse_hex s = parse_hex_from 0 0 s

-- `data + k`.
abbrev pub skip {ℓ} : {A : Type ℓ} → ℕ → List A → List A
skip zero s = s
skip (suc k) [] = []
skip (suc k) (c ∷ s) = skip k s

-- `data[0]`; what is behind a buffer is read as NUL.
abbrev pub first : List ℕ → ℕ
first [] = 0
first (c ∷ s) = c

-- `hex_val(c)` in an unsigned type of `m` values.
abbrev pub hex_in : ℕ → ℕ → ℕ
hex_in m c = elim (hex_val c) [ none ↦ m - 1 | some h ↦ h ]

-- `(hex_val(data[0]) << 4) | hex_val(data[1])`, stored into such a type.
unfoldable pub hex_pair_in : ℕ → ℕ → ℕ → ℕ
hex_pair_in m c d = bit_or (hex_in m c * 16 % m) (hex_in m d)

-- The sum of the bytes, in a uint8_t.
unfoldable pub checksum : List ℕ → ℕ
checksum [] = 0
checksum (c ∷ s) = u8 (c + checksum s)

module _ {Target : Type 0} where
  -- `gdb_send_raw`: a write without a client fails, and nothing looks at that.
  unfoldable pub send_raw : Gdb Target → List ℕ → Gdb Target
  send_raw g bytes = if g.has_client then record g { sent = bytes ∷ g.sent } else g

  -- `send_packet`: "$%s#%02x". No response has more than 1022 characters, and the frame has room
  -- for 1031.
  unfoldable pub send_packet : Gdb Target → List ℕ → Gdb Target
  unfolding send_raw
  send_packet g text =
      if g.has_client then send_raw g ((36 ∷ text) ++ (35 ∷ hex_byte (checksum text))) else g

  unfoldable pub send_ok : Gdb Target → Gdb Target
  send_ok g = send_packet g (79 ∷ 75 ∷ [])

  unfoldable pub send_empty : Gdb Target → Gdb Target
  send_empty g = send_packet g []

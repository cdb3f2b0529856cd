-- ===== src/Firmware/Hex.antt =====
-- The Intel HEX loaders: src/util/ihex.c. A shift of the -1 of a failed parse is taken in 32 bits,
-- and the messages on stderr are left out.
use uc_vm.Common.{
  ◌>>=◌, ℕ, zero, suc, ◌+◌, ◌-◌, ◌*◌, ◌^◌, Bool, true, false, ◌&&◌, if◌then◌else◌, List, [], ◌∷◌,
  ltb, leb, ◌==◌, Mem8, update, Option, none, some, length, u8, bit_or,
}
use uc_vm.Firmware.Files.{u32, fgets_lines, c_string, strip_newline, char_at, put_flash}

-- One hexadecimal digit.
unfoldable pub hex_digit : ℕ → Option ℕ
hex_digit c =
    if leb 48 c && leb c 57
    then some (c - 48)
    else if leb 65 c && leb c 70
    then some (c - 65 + 10)
    else if leb 97 c && leb c 102
    then some (c - 97 + 10)
    else none

unfoldable pub hex_pair : ℕ → ℕ → Option ℕ
hex_pair a b = do hi ← hex_digit a; lo ← hex_digit b; some (hi * 16 + lo)

-- `parse_hex_byte(s + k)`.
unfoldable pub parse_hex_byte : List ℕ → ℕ → Option ℕ
parse_hex_byte s k = hex_pair (char_at s k) (char_at s (k + 1))

-- The four fields before the data.
pub record Fields : Type 0 where
  pub byte_count : ℕ
  pub addr : ℕ
  pub rec_type : ℕ

unfoldable pub parse_fields : List ℕ → Option Fields
parse_fields p = do
  byte_count ← parse_hex_byte p 0
  addr_hi ← parse_hex_byte p 2
  addr_lo ← parse_hex_byte p 4
  rec_type ← parse_hex_byte p 6
  some (record { byte_count = byte_count; addr = addr_hi * 256 + addr_lo; rec_type = rec_type })

-- The sum of the bytes of a line; a last odd character stands before the NUL.
unfoldable pub sum_bytes : List ℕ → Option ℕ
sum_bytes [] = some 0
sum_bytes (a ∷ []) = hex_pair a 0
sum_bytes (a ∷ b ∷ rest) = do x ← hex_pair a b; s ← sum_bytes rest; some (u8 (x + s))

-- The bytes of a data record from number `i` on: whether all were read, and the memory then.
unfoldable pub store_data : (Mem8 → ℕ → ℕ → Mem8) → List ℕ → ℕ → ℕ → ℕ → Mem8 → Bool × Mem8
store_data put p start i zero mem = (true, mem)
store_data put p start i (suc n) mem = elim (parse_hex_byte p (8 + i * 2)) [
  | none ↦ (false, mem)
  | some b ↦ store_data put p start (i + 1) n (put mem (u32 (start + i)) b)
]

-- A parsed byte as 32 bits: -1 when it did not parse.
abbrev pub int32 : Option ℕ → ℕ
int32 none = 4294967295
int32 (some b) = b

-- `((hi << 8) | lo) << k`.
unfoldable pub ext_base : List ℕ → ℕ → ℕ
ext_base p k =
    u32 (bit_or (u32 (int32 (parse_hex_byte p 8) * 256)) (int32 (parse_hex_byte p 10)) * 2 ^ k)

-- A line leads to the next one, with the base address, or ends the load with 0 (true) or -1.
pub data Outcome : Type 0 where
  next : ℕ → Mem8 → Outcome
  done : Bool → Mem8 → Outcome

-- The switch of `ihex_load_fp` on the record type.
unfoldable pub load_record : ℕ → List ℕ → Fields → ℕ → Mem8 → Outcome
load_record flash_words p f base flash =
    let (ok, flash1) = store_data (put_flash flash_words) p (base + f.addr) 0 f.byte_count flash in
    if f.rec_type == 0
    then (if ok then next base flash1 else done false flash1)
    else if f.rec_type == 1
    then done true flash
    else if f.rec_type == 2
    then (if f.byte_count == 2 then next (ext_base p 4) flash else done false flash)
    else if f.rec_type == 4
    then (if f.byte_count == 2 then next (ext_base p 16) flash else done false flash)
    else next base flash

-- The fields and the checksum behind the colon.
unfoldable pub load_fields : ℕ → List ℕ → ℕ → Mem8 → Outcome
load_fields flash_words p base flash = elim (parse_fields p) [
  | none ↦ done false flash
  | some f ↦ elim (sum_bytes p) [
    | none ↦ done false flash
    | some sum ↦ if sum == 0 then load_record flash_words p f base flash else done false flash
  ]
]

-- The body of the loop of `ihex_load_fp`.
unfoldable pub load_line : ℕ → List ℕ → ℕ → Mem8 → Outcome
load_line flash_words line base flash = elim (strip_newline (c_string line)) [
  | [] ↦ next base flash
  | c ∷ p ↦
      if (c == 58) && leb 10 (length p)
      then load_fields flash_words p base flash
      else done false flash
]

unfoldable pub load_lines : ℕ → List (List ℕ) → ℕ → Mem8 → Bool × Mem8
load_lines flash_words [] base flash = (true, flash)
load_lines flash_words (line ∷ rest) base flash = elim (load_line flash_words line base flash) [
  | next base1 flash1 ↦ load_lines flash_words rest base1 flash1
  | done ok flash1 ↦ (ok, flash1)
]

unfoldable pub ihex_load_fp : List ℕ → Mem8 → ℕ → Bool × Mem8
ihex_load_fp fp flash flash_words = load_lines flash_words (fgets_lines fp) 0 flash

-- A byte into the code memory; nothing behind its end.
unfoldable pub put_byte : ℕ → Mem8 → ℕ → ℕ → Mem8
put_byte buf_size buf byte_addr b = if ltb byte_addr buf_size then update buf byte_addr b else buf

-- The switch of `ihex_load_bytes_fp`: a line that does not parse ends its own data only.
unfoldable pub load_bytes_record : ℕ → List ℕ → Fields → ℕ → Mem8 → Outcome
load_bytes_record buf_size p f base buf =
    let (ok, buf1) = store_data (put_byte buf_size) p (base + f.addr) 0 f.byte_count buf in
    if f.rec_type == 0
    then next base buf1
    else if f.rec_type == 1
    then done true buf
    else if f.rec_type == 2
    then next (ext_base p 4) buf
    else if f.rec_type == 4
    then next (ext_base p 16) buf
    else next base buf

-- The body of the loop of `ihex_load_bytes_fp`: no checksum is looked at, no line is an error.
unfoldable pub load_bytes_line : ℕ → List ℕ → ℕ → Mem8 → Outcome
load_bytes_line buf_size line base buf = elim (strip_newline (c_string line)) [
  | [] ↦ next base buf
  | c ∷ p ↦
      if (c == 58) && leb 10 (length p)
      then elim (parse_fields p) [
        | none ↦ next base buf
        | some f ↦ load_bytes_record buf_size p f base buf
      ]
      else next base buf
]

unfoldable pub load_bytes_lines : ℕ → List (List ℕ) → ℕ → Mem8 → Bool × Mem8
load_bytes_lines buf_size [] base buf = (true, buf)
load_bytes_lines buf_size (line ∷ rest) base buf = elim (load_bytes_line buf_size line base buf) [
  | next base1 buf1 ↦ load_bytes_lines buf_size rest base1 buf1
  | done ok buf1 ↦ (ok, buf1)
]

unfoldable pub ihex_load_bytes_fp : List ℕ → Mem8 → ℕ → Bool × Mem8
ihex_load_bytes_fp fp buf buf_size = load_bytes_lines buf_size (fgets_lines fp) 0 buf

-- ===== src/Firmware/Ucfm.antt =====
-- The binary format of src/util/ihex.c and src/util/ihex.h, and the choice between the formats.
-- A file that cannot be opened is `none`.
use uc_vm.Common.{
  ℕ, zero, suc, ◌+◌, ◌-◌, ◌*◌, ◌/◌, ◌%◌, Bool, true, false, ◌||◌, ◌&&◌, if◌then◌else◌, List, [],
  ◌∷◌, ◌++◌, ltb, leb, ◌==◌, Mem8, update, Option, none, some, length, u8,
}
use uc_vm.Firmware.Files.{u32, fread, put_flash, char_at}
use uc_vm.Firmware.Hex.{ihex_load_fp, ihex_load_bytes_fp}

abbrev pub eq_list : List ℕ → List ℕ → Bool
eq_list [] [] = true
eq_list [] (y ∷ m) = false
eq_list (x ∷ l) [] = false
eq_list (x ∷ l) (y ∷ m) = (x == y) && eq_list l m

-- `UCFM_MAGIC`.
abbrev pub ucfm_magic : List ℕ
ucfm_magic = 85 ∷ 67 ∷ 70 ∷ 77 ∷ []

-- A uint32_t as its four bytes, the low one first, and back.
unfoldable pub le32 : ℕ → List ℕ
le32 n = n % 256 ∷ n / 256 % 256 ∷ n / 65536 % 256 ∷ n / 16777216 % 256 ∷ []

unfoldable pub of_le32 : List ℕ → ℕ → ℕ
of_le32 l k =
    char_at l k + char_at l (k + 1) * 256 + char_at l (k + 2) * 65536 + char_at l (k + 3) * 16777216

-- The inner loop of `ucfm_load`.
unfoldable pub copy_words : ℕ → Mem8 → ℕ → List ℕ → Mem8
copy_words flash_words flash offset [] = flash
copy_words flash_words flash offset (b ∷ rest) =
    copy_words flash_words (put_flash flash_words flash offset b) (u32 (offset + 1)) rest

-- The inner loop of `ucfm_load_bytes`, which stops at the end of the buffer.
unfoldable pub copy_bytes : ℕ → Mem8 → ℕ → List ℕ → Mem8
copy_bytes buf_size buf offset [] = buf
copy_bytes buf_size buf offset (b ∷ rest) =
    let more = copy_bytes buf_size (update buf offset b) (u32 (offset + 1)) rest in
    if ltb offset buf_size then more else buf

-- The size of the next chunk.
unfoldable pub chunk_size : ℕ → ℕ
chunk_size remain = if ltb remain 256 then remain else 256

-- `while (remain > 0)`, over the inner loop: chunks of at most 256 bytes, until one is short.
unfoldable pub load_range : (Mem8 → ℕ → List ℕ → Mem8) → ℕ → ℕ → ℕ → Mem8 → List ℕ → Mem8 × List ℕ
load_range copy zero remain offset mem fp = (mem, fp)
load_range copy (suc fuel) remain offset mem fp =
    let chunk = chunk_size remain in
    let (data_read, fp1) = fread chunk fp in
    let rest =
      load_range copy fuel (remain - chunk) (u32 (offset + chunk)) (copy mem offset data_read)
        fp1 in
    if remain == 0 then (mem, fp) else if length data_read == chunk then rest else (mem, fp1)

-- The loop over the ranges; as much fuel as bytes remain is enough for each.
unfoldable pub load_ranges : (Mem8 → ℕ → List ℕ → Mem8) → ℕ → Mem8 → List ℕ → Mem8
load_ranges copy zero mem fp = mem
load_ranges copy (suc n) mem fp =
    let (range, fp1) = fread 8 fp in
    let remain = of_le32 range 4 in
    let (mem1, fp2) = load_range copy remain remain (of_le32 range 0) mem fp1 in
    let rest = load_ranges copy n mem1 fp2 in if length range == 8 then rest else mem

-- The header and the ranges.
unfoldable pub load_ucfm : (Mem8 → ℕ → List ℕ → Mem8) → Option (List ℕ) → Mem8 → Bool × Mem8
load_ucfm copy none mem = (false, mem)
load_ucfm copy (some fp) mem =
    let (hdr, fp1) = fread 8 fp in
    if (length hdr == 8) && eq_list (fread 4 hdr).0 ucfm_magic
    then (true, load_ranges copy (char_at hdr 4) mem fp1)
    else (false, mem)

unfoldable pub ucfm_load : Option (List ℕ) → Mem8 → ℕ → Bool × Mem8
ucfm_load file flash flash_words = load_ucfm (copy_words flash_words) file flash

unfoldable pub ucfm_load_bytes : Option (List ℕ) → Mem8 → ℕ → Bool × Mem8
ucfm_load_bytes file buf buf_size = load_ucfm (copy_bytes buf_size) file buf

-- The file that `ucfm_save` writes.
unfoldable pub ucfm_save : List ℕ → ℕ → ℕ → List ℕ
ucfm_save contents start_addr flags =
    ucfm_magic
    ++ (1 ∷ u8 flags ∷ 0 ∷ 0 ∷ [])
    ++ le32 start_addr
    ++ le32 (length contents)
    ++ contents

-- What `fw_detect` returns: 'h', 'b' or -1.
pub data Format : Type 0 where
  hex bin unknown : Format

-- `strrchr(filename, '.')`.
unfoldable pub last_dot : List ℕ → Option (List ℕ)
last_dot [] = none
last_dot (c ∷ cs) = elim (last_dot cs) [
  | none ↦ if c == 46 then some (c ∷ cs) else none
  | some s ↦ some s
]

-- The format by the first bytes of the file.
unfoldable pub peek_format : Option (List ℕ) → Format
peek_format none = unknown
peek_format (some fp) =
    let magic = (fread 4 fp).0 in
    if eq_list magic ucfm_magic
    then bin
    else if leb 1 (length magic) && (char_at magic 0 == 58)
    then hex
    else unknown

unfoldable pub fw_detect : List ℕ → Option (List ℕ) → Format
fw_detect filename file = elim (last_dot filename) [
  | none ↦ peek_format file
  | some dot ↦
      if eq_list dot (46 ∷ 98 ∷ 105 ∷ 110 ∷ [])
      then bin
      else if eq_list dot (46 ∷ 104 ∷ 101 ∷ 120 ∷ []) || eq_list dot (46 ∷ 105 ∷ 104 ∷ 120 ∷ [])
      then hex
      else peek_format file
]

-- `ihex_load` and `ihex_load_bytes`: -1 if the file cannot be opened.
unfoldable pub ihex_load : Option (List ℕ) → Mem8 → ℕ → Bool × Mem8
ihex_load none flash flash_words = (false, flash)
ihex_load (some fp) flash flash_words = ihex_load_fp fp flash flash_words

unfoldable pub ihex_load_bytes : Option (List ℕ) → Mem8 → ℕ → Bool × Mem8
ihex_load_bytes none buf buf_size = (false, buf)
ihex_load_bytes (some fp) buf buf_size = ihex_load_bytes_fp fp buf buf_size

unfoldable pub fw_load : List ℕ → Option (List ℕ) → Mem8 → ℕ → Bool × Mem8
fw_load filename file flash flash_words = elim (fw_detect filename file) [
  | bin ↦ ucfm_load file flash flash_words
  | hex ↦ ihex_load file flash flash_words
  | unknown ↦ ihex_load file flash flash_words
]

unfoldable pub fw_load_bytes : List ℕ → Option (List ℕ) → Mem8 → ℕ → Bool × Mem8
fw_load_bytes filename file buf buf_size = elim (fw_detect filename file) [
  | bin ↦ ucfm_load_bytes file buf buf_size
  | hex ↦ ihex_load_bytes file buf buf_size
  | unknown ↦ ihex_load_bytes file buf buf_size
]

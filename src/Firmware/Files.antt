-- ===== src/Firmware/Files.antt =====
-- The C library calls of src/util/ihex.c on a file, which is the list of its bytes that are still
-- unread, and the strings and the flash that the loaders fill.
use uc_vm.Common.{
  ℕ, zero, suc, ◌+◌, ◌-◌, ◌*◌, ◌/◌, ◌%◌, ◌^◌, Bool, true, false, ◌||◌, ◌&&◌, if◌then◌else◌, List,
  [], ◌∷◌, ltb, ◌==◌, Mem8, update,
}

-- Conversion to uint32_t.
abbrev pub u32 : ℕ → ℕ
u32 n = n % 2 ^ 32

-- `fread` of up to `n` bytes: what is read and what is left.
unfoldable pub fread : ℕ → List ℕ → List ℕ × List ℕ
fread zero f = ([], f)
fread (suc n) [] = ([], [])
fread (suc n) (x ∷ f) = let (d, r) = fread n f in (x ∷ d, r)

abbrev pub is_nil {ℓ} : {A : Type ℓ} → List A → Bool
is_nil [] = true
is_nil (x ∷ l) = false

-- What `fgets` with room for `room` more characters puts into the buffer, and what the following
-- calls, with 599 each, give until the end of the file.
unfoldable pub fgets_from : ℕ → List ℕ → List ℕ × List (List ℕ)
fgets_from room [] = ([], [])
fgets_from room (c ∷ cs) =
    let last = (c == 10) || ltb room 2 in
    let (l, ls) = fgets_from (if last then 599 else room - 1) cs in
    if last then (c ∷ [], if is_nil cs then [] else l ∷ ls) else (c ∷ l, ls)

-- `while (fgets(line, 600, fp))`.
unfoldable pub fgets_lines : List ℕ → List (List ℕ)
fgets_lines cs = let (l, ls) = fgets_from 599 cs in if is_nil cs then [] else l ∷ ls

-- The characters up to the first NUL.
unfoldable pub c_string : List ℕ → List ℕ
c_string [] = []
c_string (c ∷ cs) = let rest = c_string cs in if c == 0 then [] else c ∷ rest

-- Without the newlines and carriage returns at the end.
unfoldable pub strip_newline : List ℕ → List ℕ
strip_newline [] = []
strip_newline (c ∷ cs) =
    let rest = strip_newline cs in if is_nil rest && ((c == 10) || (c == 13)) then [] else c ∷ rest

-- A character of a string; its end is the NUL.
abbrev pub char_at : List ℕ → ℕ → ℕ
char_at [] k = 0
char_at (c ∷ cs) zero = c
char_at (c ∷ cs) (suc k) = char_at cs k

-- A byte into the flash of 16-bit words, the low byte at the even address; nothing behind its end.
unfoldable pub put_flash : ℕ → Mem8 → ℕ → ℕ → Mem8
put_flash flash_words flash byte_addr b =
    let word = byte_addr / 2 in
    if ltb word flash_words
    then (if byte_addr % 2 == 1
        then update flash word (flash word % 256 + b * 256)
        else update flash word (flash word / 256 % 256 * 256 + b))
    else flash

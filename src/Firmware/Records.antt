-- ===== src/Firmware/Records.antt =====
-- What the Intel HEX loader of the AVR makes of a data record that is written by the rules of the
-- format, and of a damaged one.
use uc_vm.Common.{
  all_below, all_below_sound, ==_iff, ap, ap₂, sym, ◌∙◌, refl, ◌≡◌, ◌≢◌, ◌≤◌, ◌<◌, arith, ℕ, zero,
  suc, ◌+◌, ◌-◌, ◌*◌, ◌/◌, ◌%◌, ◌^◌, Bool, true, false, ◌||◌, if◌then◌else◌, List, [], ◌∷◌, ◌++◌,
  ltb, ◌==◌, Mem8, Option, none, some, length, length-append,
}
use uc_vm.Firmware.Files.{u32, c_string, strip_newline, put_flash, char_at}
use uc_vm.Firmware.Hex.{
  hex_digit, hex_pair, parse_hex_byte, Fields, parse_fields, sum_bytes, store_data, next, done,
  load_record, load_fields, load_line,
}
use uc_vm.Firmware.Ucfm.{copy_words}
use uc_vm.Firmware.RoundTrip.{
  AllBytes, overlay, byte_view, copy_words_lem, copy_words_nil, copy_words_cons, char_at_cons,
}

-- A hexadecimal digit as a character, and bytes as pairs of them.
abbrev pub hex_char : ℕ → ℕ
hex_char n = if ltb n 10 then 48 + n else 55 + n

abbrev pub hex_bytes : List ℕ → List ℕ
hex_bytes [] = []
hex_bytes (b ∷ l) = hex_char (b / 16) ∷ hex_char (b % 16) ∷ hex_bytes l

abbrev pub sum : List ℕ → ℕ
sum [] = 0
sum (b ∷ l) = b + sum l

-- The bytes of a data record without its checksum, and the checksum.
abbrev pub record_body : ℕ → List ℕ → List ℕ
record_body addr d = length d ∷ addr / 256 ∷ addr % 256 ∷ 0 ∷ d

abbrev pub checksum : List ℕ → ℕ
checksum l = (256 - sum l % 256) % 256

abbrev pub with_checksum : List ℕ → List ℕ
with_checksum l = l ++ (checksum l ∷ [])

-- The line of a data record, with its newline.
abbrev pub record_line : ℕ → List ℕ → List ℕ
record_line addr d = 58 ∷ (hex_bytes (with_checksum (record_body addr d)) ++ (10 ∷ []))

abbrev is_some : Option ℕ → ℕ → Bool
is_some none b = false
is_some (some x) b = x == b

is_some_sound : (o : Option ℕ) (b : ℕ) → is_some o b ≡ true → o ≡ some b
is_some_sound none b h = absurd (ground (arith, h))
is_some_sound (some x) b h = ap some ((==_iff x b).0 h)

hex_table : all_below 256 (λ b. is_some (hex_pair (hex_char (b / 16)) (hex_char (b % 16))) b) ≡ true
unfolding all_below hex_pair hex_digit
hex_table = refl

hex_pair-hex_char : (b : ℕ) → b < 256 → hex_pair (hex_char (b / 16)) (hex_char (b % 16)) ≡ some b
hex_pair-hex_char b h = is_some_sound _ b (all_below_sound 256 _ b hex_table h)

char_at-drop2 : (x y : ℕ) (l : List ℕ) (k : ℕ) → char_at (x ∷ y ∷ l) (k + 2) ≡ char_at l k
char_at-drop2 x y l k =
    char_at_cons x (y ∷ l) (k + 2) (omega arith)
    ∙ char_at_cons y l (k + 2 - 1) (omega arith)
    ∙ ap (char_at l) (omega arith)

parse_hex_byte-drop2 :
    (x y : ℕ) (l : List ℕ) (k : ℕ) → parse_hex_byte (x ∷ y ∷ l) (k + 2) ≡ parse_hex_byte l k
unfolding parse_hex_byte
parse_hex_byte-drop2 x y l k =
    ap₂ hex_pair (char_at-drop2 x y l k)
      (ap (char_at (x ∷ y ∷ l)) (omega arith) ∙ char_at-drop2 x y l (k + 1))

parse_hex_byte_first :
    (b : ℕ) (l : List ℕ) → b < 256 → parse_hex_byte (hex_bytes (b ∷ l)) 0 ≡ some b
unfolding parse_hex_byte
parse_hex_byte_first b l h = hex_pair-hex_char b h

-- The i-th pair of the digits is the i-th byte.
parse_hex_byte-hex_bytes :
    (l : List ℕ) (i : ℕ)
    → AllBytes l
    → i < length l
    → parse_hex_byte (hex_bytes l) (i * 2) ≡ some (char_at l i)
parse_hex_byte-hex_bytes [] i v h = absurd (omega (arith, h))
parse_hex_byte-hex_bytes (b ∷ l) zero v h = parse_hex_byte_first b l v.0
parse_hex_byte-hex_bytes (b ∷ l) (suc i) v h =
    ap (parse_hex_byte (hex_bytes (b ∷ l))) (omega arith)
    ∙ parse_hex_byte-drop2 _ _ (hex_bytes l) (i * 2)
    ∙ parse_hex_byte-hex_bytes l i v.1 (omega (arith, h))

sum_bytes-hex_bytes : (l : List ℕ) → AllBytes l → sum_bytes (hex_bytes l) ≡ some (sum l % 256)
unfolding sum_bytes
sum_bytes-hex_bytes [] v = refl
sum_bytes-hex_bytes (b ∷ l) v =
    rw (hex_pair-hex_char b v.0, sum_bytes-hex_bytes l v.1) (ap some (omega arith))

-- No character of the list is a NUL or ends a line.
abbrev Clean : List ℕ → Type 0
Clean [] = Unit
Clean (c ∷ l) = (14 ≤ c) × Clean l

hex_bytes-Clean : (l : List ℕ) → Clean (hex_bytes l)
hex_bytes-Clean [] = tt
hex_bytes-Clean (b ∷ l) = (ground arith, (ground arith, hex_bytes-Clean l))

strip_newline-c_string : (l : List ℕ) → Clean l → strip_newline (c_string (l ++ (10 ∷ []))) ≡ l
unfolding c_string strip_newline
strip_newline-c_string [] v = refl
strip_newline-c_string (c ∷ l) v =
    let not_nul : (c == 0) ≡ false = ground (arith, v.0) in
    let kept : ((c == 10) || (c == 13)) ≡ false = ground (arith, v.0) in
    rw not_nul (rw (strip_newline-c_string l v.1) (ground (arith, kept)))

AllBytes-append : (l m : List ℕ) → AllBytes l → AllBytes m → AllBytes (l ++ m)
AllBytes-append [] m v w = w
AllBytes-append (b ∷ l) m v w = (v.0, AllBytes-append l m v.1 w)

sum-append : (l m : List ℕ) → sum (l ++ m) ≡ sum l + sum m
sum-append [] m = omega arith
sum-append (b ∷ l) m = omega (arith, sum-append l m)

length-hex_bytes : (l : List ℕ) → length (hex_bytes l) ≡ length l * 2
length-hex_bytes [] = refl
length-hex_bytes (b ∷ l) = omega (arith, length-hex_bytes l)

-- A line of digits behind a colon is looked at as it was written.
load_line-hex_bytes :
    (fw : ℕ) (l : List ℕ) (base : ℕ) (flash : Mem8)
    → 5 ≤ length l
    → load_line fw (58 ∷ (hex_bytes l ++ (10 ∷ []))) base flash
      ≡ load_fields fw (hex_bytes l) base flash
unfolding load_line
load_line-hex_bytes fw l base flash h =
    rw (load_line, strip_newline-c_string (58 ∷ hex_bytes l) (omega arith, hex_bytes-Clean l))
      (ground (arith, h, length-hex_bytes l))

parse_fields-hex_bytes :
    (a b c d : ℕ) (l : List ℕ)
    → AllBytes (a ∷ b ∷ c ∷ d ∷ l)
    → parse_fields (hex_bytes (a ∷ b ∷ c ∷ d ∷ l))
      ≡ some (record { byte_count = a; addr = b * 256 + c; rec_type = d })
unfolding parse_fields
parse_fields-hex_bytes a b c d l v =
    let m = a ∷ b ∷ c ∷ d ∷ l in
    rw
      (
        parse_hex_byte-hex_bytes m 0 v (omega arith),
        parse_hex_byte-hex_bytes m 1 v (omega arith),
        parse_hex_byte-hex_bytes m 2 v (omega arith),
        parse_hex_byte-hex_bytes m 3 v (omega arith),
      )
      refl

-- The loop over the data stores the bytes that the digits stand for.
store_data_lem :
    (fw : ℕ) (p e : List ℕ) (start i : ℕ) (mem : Mem8)
    → start + i + length e < 2 ^ 32
    → ((j : ℕ) → j < length e → parse_hex_byte p (8 + (i + j) * 2) ≡ some (char_at e j))
    → store_data (put_flash fw) p start i (length e) mem ≡ (true, copy_words fw mem (start + i) e)
unfolding store_data
store_data_lem fw p [] start i mem h digits =
    ap (λ m. (true, m)) (sym (copy_words_nil fw mem (start + i)))
store_data_lem fw p (b ∷ e) start i mem h digits =
    let here : parse_hex_byte p (8 + i * 2) ≡ some b =
      ap (parse_hex_byte p) (omega arith) ∙ digits 0 (omega arith) in
    let at_i : u32 (start + i) ≡ start + i = omega (arith, h) in
    let ih =
      store_data_lem fw p e start (i + 1) (put_flash fw mem (start + i) b) (omega (arith, h))
        (λ j k.
          ap (parse_hex_byte p) (omega arith)
          ∙ digits (j + 1) (omega (arith, k))
          ∙ ap some (char_at_cons b e (j + 1) (omega arith) ∙ ap (char_at e) (omega arith))) in
    let f = put_flash fw mem (start + i) b in
    let joined : copy_words fw f (start + (i + 1)) e ≡ copy_words fw mem (start + i) (b ∷ e) =
      ap (λ o. copy_words fw f o e) (omega arith)
      ∙ sym (copy_words_cons fw mem (start + i) b e (omega (arith, h))) in
    rw (store_data, here) (rw at_i (ih ∙ ap (λ m. (true, m)) joined))

char_at-append : (d e : List ℕ) (j : ℕ) → j < length d → char_at (d ++ e) j ≡ char_at d j
char_at-append [] e j h = absurd (omega (arith, h))
char_at-append (x ∷ d) e zero h = refl
char_at-append (x ∷ d) e (suc j) h = char_at-append d e j (omega (arith, h))

-- The digits of a data record behind the four fields are those of the data.
data_digits :
    (a b c t : ℕ) (d : List ℕ) (k : ℕ)
    → AllBytes (a ∷ b ∷ c ∷ t ∷ (d ++ (k ∷ [])))
    → (j : ℕ) → j < length d
    → parse_hex_byte (hex_bytes (a ∷ b ∷ c ∷ t ∷ (d ++ (k ∷ [])))) (8 + (0 + j) * 2)
      ≡ some (char_at d j)
data_digits a b c t d k v j h =
    let m = a ∷ b ∷ c ∷ t ∷ (d ++ (k ∷ [])) in
    ap (parse_hex_byte (hex_bytes m)) (omega arith)
    ∙ parse_hex_byte-hex_bytes m (j + 4) v (omega (arith, h, length-append d (k ∷ [])))
    ∙ ap some (
        char_at_cons a (b ∷ c ∷ t ∷ (d ++ (k ∷ []))) (j + 4) (omega arith)
        ∙ char_at_cons b (c ∷ t ∷ (d ++ (k ∷ []))) (j + 4 - 1) (omega arith)
        ∙ char_at_cons c (t ∷ (d ++ (k ∷ []))) (j + 4 - 1 - 1) (omega arith)
        ∙ char_at_cons t (d ++ (k ∷ [])) (j + 4 - 1 - 1 - 1) (omega arith)
        ∙ ap (char_at (d ++ (k ∷ []))) (omega arith)
        ∙ char_at-append d (k ∷ []) j h)

load_fields-record :
    (fw addr base : ℕ) (d : List ℕ) (flash : Mem8)
    → AllBytes d
    → length d < 256
    → addr < 65536
    → base + addr + length d < 2 ^ 32
    → load_fields fw (hex_bytes (with_checksum (record_body addr d))) base flash
      ≡ next base (copy_words fw flash (base + addr) d)
unfolding load_fields load_record
load_fields-record fw addr base d flash v hd ha h =
    let l = record_body addr d in
    let k = checksum l in
    let vl : AllBytes (with_checksum l) = (
      hd,
      (omega arith, (omega arith, (omega arith, AllBytes-append d (k ∷ []) v (omega arith, tt)))),
    ) in
    let fields = parse_fields-hex_bytes (length d) (addr / 256) (addr % 256) 0 (d ++ (k ∷ [])) vl in
    let zero_sum : sum (with_checksum l) % 256 ≡ 0 = omega (arith, sum-append l (k ∷ [])) in
    let total = sum_bytes-hex_bytes (with_checksum l) vl ∙ ap some zero_sum in
    let stored =
      store_data_lem fw (hex_bytes (with_checksum l)) d (base + addr) 0 flash (omega (arith, h))
        (data_digits (length d) (addr / 256) (addr % 256) 0 d k vl) in
    let start : base + addr + 0 ≡ base + addr = omega arith in
    let joined : addr / 256 * 256 + addr % 256 ≡ addr = omega arith in
    rw (load_fields, fields, total)
      (rw (load_record, joined, stored) (ap (λ o. next base (copy_words fw flash o d)) start))

-- A line of Intel HEX with up to 255 data bytes, a 16-bit address and its checksum, whose bytes
-- end below 2 ^ 32, is read by the AVR loader without an error, keeps the base address, and stores
-- its bytes at the base plus its address, as far as the flash reaches, and nothing else.
pub load_line-record_line :
    (fw addr base : ℕ) (d : List ℕ) (flash : Mem8)
    → AllBytes d
    → length d < 256
    → addr < 65536
    → base + addr + length d < 2 ^ 32
    → (m : Mem8) × (load_line fw (record_line addr d) base flash ≡ next base m)
      × ((a : ℕ) → byte_view m a ≡ overlay (2 * fw) (byte_view flash) (base + addr) d a)
load_line-record_line fw addr base d flash v hd ha h = (
  copy_words fw flash (base + addr) d,
  load_line-hex_bytes fw (with_checksum (record_body addr d)) base flash
        (omega (arith, length-append (record_body addr d) (checksum (record_body addr d) ∷ [])))
      ∙ load_fields-record fw addr base d flash v hd ha h,
  λ a. copy_words_lem fw flash (base + addr) d a v h,
)

AllBytes-parts :
    (l m : List ℕ) (x : ℕ) → AllBytes (l ++ (x ∷ m)) → (x < 256) × AllBytes l × AllBytes m
AllBytes-parts [] m x v = (v.0, tt, v.1)
AllBytes-parts (b ∷ l) m x v = let r = AllBytes-parts l m x v.1 in (r.0, (v.0, r.1), r.2)

bad_sum :
    (fw : ℕ) (p : List ℕ) (s base : ℕ) (flash : Mem8) (o : Option Fields) (t : Option ℕ)
    → t ≡ some s
    → s ≢ 0
    → elim o [
      | none ↦ done false flash
      | some f ↦ elim t [
        | none ↦ done false flash
        | some sum ↦ if sum == 0 then load_record fw p f base flash else done false flash
      ]
    ]
      ≡ done false flash
bad_sum fw p s base flash none t e h = refl
bad_sum fw p s base flash (some f) none e h = refl
bad_sum fw p s base flash (some f) (some t) e h =
    let wrong : (t == 0) ≡ false = ground (arith, e, h) in rw wrong refl

load_fields_bad_sum :
    (fw : ℕ) (p : List ℕ) (s base : ℕ) (flash : Mem8)
    → sum_bytes p ≡ some s
    → s ≢ 0
    → load_fields fw p base flash ≡ done false flash
unfolding load_fields
load_fields_bad_sum fw p s base flash e h =
    bad_sum fw p s base flash (parse_fields p) (sum_bytes p) e h

-- A record of at least five bytes whose bytes add up to 0 modulo 256 is refused by ihex_load_fp,
-- with -1 and the flash as it was, when any one of its bytes is read as another byte.
pub load_line_damaged :
    (fw base : ℕ) (l m : List ℕ) (x y : ℕ) (flash : Mem8)
    → AllBytes (l ++ (x ∷ m))
    → sum (l ++ (x ∷ m)) % 256 ≡ 0
    → 5 ≤ length (l ++ (x ∷ m))
    → y < 256
    → x ≢ y
    → load_line fw (58 ∷ (hex_bytes (l ++ (y ∷ m)) ++ (10 ∷ []))) base flash ≡ done false flash
load_line_damaged fw base l m x y flash v s n hy h =
    let parts = AllBytes-parts l m x v in
    let w = AllBytes-append l (y ∷ m) parts.1 (hy, parts.2) in
    load_line-hex_bytes fw (l ++ (y ∷ m)) base flash
      (omega (arith, n, length-append l (x ∷ m), length-append l (y ∷ m)))
    ∙ load_fields_bad_sum fw (hex_bytes (l ++ (y ∷ m))) _ base flash
        (sum_bytes-hex_bytes (l ++ (y ∷ m)) w)
        (λ e. ground (arith, e, s, h, parts.0, hy, sum-append l (x ∷ m), sum-append l (y ∷ m)))

-- ===== src/Firmware/RoundTrip.antt =====
-- What the UCVM binary loaders make of the file that `ucfm_save` writes.
use uc_vm.Common.{
  ap, ap₂, sym, ◌∙◌, refl, ◌≡◌, ◌≤◌, ◌<◌, arith, ℕ, zero, suc, ◌+◌, ◌-◌, ◌*◌, ◌/◌, ◌%◌, ◌^◌, true,
  ◌&&◌, if◌then◌else◌, List, [], ◌∷◌, ◌++◌, ltb, leb, ◌==◌, Mem8, update, some, length, Bool-cases,
  inl, inr,
}
use uc_vm.Firmware.Files.{u32, fread, put_flash, char_at}
use uc_vm.Firmware.Ucfm.{
  chunk_size, le32, of_le32, copy_words, copy_bytes, load_range, load_ranges, load_ucfm, ucfm_load,
  ucfm_load_bytes, ucfm_save,
}

-- A read that the file can serve takes its beginning.
fread-append :
    (n : ℕ) (d rest : List ℕ)
    → n ≤ length d
    → (fread n (d ++ rest) ≡ ((fread n d).0, (fread n d).1 ++ rest))
      × (length (fread n d).0 ≡ n)
      × ((fread n d).0 ++ (fread n d).1 ≡ d)
      × (length (fread n d).1 ≡ length d - n)
unfolding fread
fread-append zero d rest h = (refl, refl, refl, omega arith)
fread-append (suc n) [] rest h = absurd (omega (arith, h))
fread-append (suc n) (x ∷ d) rest h =
    let ih = fread-append n d rest (omega arith) in
    (ap (λ p. (x ∷ p.0, p.1)) ih.0, ap suc ih.1, ap (λ l. x ∷ l) ih.2, omega (arith, ih.3))

-- A way to copy bytes into a memory in pieces.
pub record Pieces (copy : Mem8 → ℕ → List ℕ → Mem8) : Type 0 where
  pub nothing : (mem : Mem8) (offset : ℕ) → copy mem offset [] ≡ mem
  pub split :
      (mem : Mem8) (offset : ℕ) (d e : List ℕ)
      → offset + length d + length e < 2 ^ 32
      → copy mem offset (d ++ e) ≡ copy (copy mem offset d) (u32 (offset + length d)) e

chunk_size_lem : (k : ℕ) → (1 ≤ chunk_size (suc k)) × (chunk_size (suc k) ≤ suc k)
unfolding chunk_size
chunk_size_lem k = ground arith

module _ (copy : Mem8 → ℕ → List ℕ → Mem8) (pieces : Pieces copy) where
  -- The loop over chunks copies a whole range, if there is as much fuel as the range has bytes.
  pub load_range-append :
      (fuel : ℕ) (d rest : List ℕ) (offset : ℕ) (mem : Mem8)
      → length d ≤ fuel
      → offset + length d < 2 ^ 32
      → load_range copy fuel (length d) offset mem (d ++ rest) ≡ (copy mem offset d, rest)
  unfolding load_range
  load_range-append zero [] rest offset mem h k =
      ap (λ m. (m, rest)) (sym (pieces.nothing mem offset))
  load_range-append zero (x ∷ d) rest offset mem h k = absurd (omega (arith, h))
  load_range-append (suc fuel) [] rest offset mem h k =
      ap (λ m. (m, rest)) (sym (pieces.nothing mem offset))
  load_range-append (suc fuel) (x ∷ e) rest offset mem h k =
      let d = x ∷ e in
      let n = chunk_size (length d) in
      let size = chunk_size_lem (length e) in
      let taken = fread-append n d rest size.1 in
      let d1 = (fread n d).0 in
      let d2 = (fread n d).1 in
      let ih =
        load_range-append fuel d2 rest (u32 (offset + n)) (copy mem offset d1)
          (omega (arith, h, size, taken.3)) (omega (arith, k, size, taken.3)) in
      let joined =
        sym (pieces.split mem offset d1 d2 (omega (arith, k, taken.1, taken.3)))
        ∙ ap (λ l. copy mem offset l) taken.2 in
      rw taken.0 (
        rw taken.1
          (ground (arith, (rw taken.3 at ih) ∙ ap (λ m. (m, rest)) (rw taken.1 at joined))))

copy_bytes_beyond :
    (bs : ℕ) (buf : Mem8) (offset : ℕ) (d : List ℕ) → bs ≤ offset → copy_bytes bs buf offset d ≡ buf
unfolding copy_bytes
copy_bytes_beyond bs buf offset [] h = refl
copy_bytes_beyond bs buf offset (b ∷ d) h = ground arith

copy_bytes-append :
    (bs : ℕ) (buf : Mem8) (offset : ℕ) (d e : List ℕ)
    → offset + length d + length e < 2 ^ 32
    → copy_bytes bs buf offset (d ++ e)
      ≡ copy_bytes bs (copy_bytes bs buf offset d) (u32 (offset + length d)) e
unfolding copy_bytes
copy_bytes-append bs buf offset [] e h = ap (λ o. copy_bytes bs buf o e) (omega (arith, h))
copy_bytes-append bs buf offset (b ∷ d) e h =
    let here : u32 (offset + 1) ≡ offset + 1 = omega (arith, h) in
    let there : u32 (offset + suc (length d)) ≡ u32 (offset + 1 + length d) = omega (arith, h) in
    let ih = copy_bytes-append bs (update buf offset b) (offset + 1) d e (omega (arith, h)) in
    elim (Bool-cases (ltb offset bs)) [
      | inl r ↦ rw (r, here, there) ih
      | inr r ↦
          rw (r, there)
            (sym (copy_bytes_beyond bs buf (u32 (offset + 1 + length d)) e (ground (arith, h, r))))
    ]

copy_bytes-Pieces : (bs : ℕ) → Pieces (copy_bytes bs)
unfolding copy_bytes
copy_bytes-Pieces bs = record { nothing = λ mem offset. refl; split = copy_bytes-append bs }

copy_words-append :
    (fw : ℕ) (flash : Mem8) (offset : ℕ) (d e : List ℕ)
    → offset + length d + length e < 2 ^ 32
    → copy_words fw flash offset (d ++ e)
      ≡ copy_words fw (copy_words fw flash offset d) (u32 (offset + length d)) e
unfolding copy_words
copy_words-append fw flash offset [] e h = ap (λ o. copy_words fw flash o e) (omega (arith, h))
copy_words-append fw flash offset (b ∷ d) e h =
    let here : u32 (offset + 1) ≡ offset + 1 = omega (arith, h) in
    let there : u32 (offset + suc (length d)) ≡ u32 (offset + 1 + length d) = omega (arith, h) in
    let f = put_flash fw flash offset b in
    ap (λ o. copy_words fw f o (d ++ e)) here
    ∙ copy_words-append fw f (offset + 1) d e (omega (arith, h))
    ∙ ap₂ (λ o o'. copy_words fw (copy_words fw f o d) o' e) (sym here) (sym there)

copy_words-Pieces : (fw : ℕ) → Pieces (copy_words fw)
unfolding copy_words
copy_words-Pieces fw = record { nothing = λ mem offset. refl; split = copy_words-append fw }

append_nil : (d : List ℕ) → d ++ [] ≡ d
append_nil [] = refl
append_nil (x ∷ d) = ap (λ l. x ∷ l) (append_nil d)

-- Loading a saved file copies the contents to where they were saved from, in one piece.
load_ucfm-ucfm_save :
    (copy : Mem8 → ℕ → List ℕ → Mem8)
    → Pieces copy
    → (d : List ℕ) (start flags : ℕ) (mem : Mem8) → start + length d < 2 ^ 32
    → load_ucfm copy (some (ucfm_save d start flags)) mem ≡ (true, copy mem start d)
unfolding load_ucfm ucfm_save fread le32 of_le32 load_ranges
load_ucfm-ucfm_save copy p d start flags mem h =
    let len : length d % 256
          + length d / 256 % 256 * 256
          + length d / 65536 % 256 * 65536
          + length d / 16777216 % 256 * 16777216
        ≡ length d =
      omega (arith, h) in
    let off : start % 256
          + start / 256 % 256 * 256
          + start / 65536 % 256 * 65536
          + start / 16777216 % 256 * 16777216
        ≡ start =
      omega (arith, h) in
    rw (len, off)
      (ap (λ r. (true, r.0))
        (ap (λ f. load_range copy (length d) (length d) start mem f) (sym (append_nil d))
          ∙ load_range-append copy p (length d) d [] start mem (omega arith) h))

-- A memory with the bytes of `d` from address `start` on, as far as it has `size` bytes.
abbrev pub overlay : ℕ → (ℕ → ℕ) → ℕ → List ℕ → ℕ → ℕ
overlay size old start d a =
    if leb start a && ltb a (start + length d) && ltb a size then char_at d (a - start) else old a

pub char_at_cons : (b : ℕ) (d : List ℕ) (k : ℕ) → 1 ≤ k → char_at (b ∷ d) k ≡ char_at d (k - 1)
char_at_cons b d zero h = absurd (omega (arith, h))
char_at_cons b d (suc k) h = ap (char_at d) (omega arith)

length_cons : (b : ℕ) (d : List ℕ) → length (b ∷ d) ≡ length d + 1
length_cons b d = omega arith

overlay_cons :
    (size : ℕ) (old : ℕ → ℕ) (start b : ℕ) (d : List ℕ) (a : ℕ)
    → overlay size old start (b ∷ d) a
      ≡ (if (a == start) && ltb start size then b else overlay size old (start + 1) d a)
overlay_cons size old start b d a = elim (Bool-cases (a == start)) [
  | inl e ↦
      let none_before : a - start ≡ 0 = ground (arith, e) in
      let first : char_at (b ∷ d) (a - start) ≡ b = ap (char_at (b ∷ d)) none_before in
      ground (arith, e, first, length_cons b d)
  | inr e ↦
      let back : a - start - 1 ≡ a - (start + 1) = omega arith in
      ground (arith, e, char_at_cons b d (a - start), length_cons b d, ap (char_at d) back)
]

copy_bytes_nil : (bs : ℕ) (buf : Mem8) (start : ℕ) → copy_bytes bs buf start [] ≡ buf
unfolding copy_bytes
copy_bytes_nil bs buf start = refl

copy_bytes_cons :
    (bs : ℕ) (buf : Mem8) (start b : ℕ) (d : List ℕ)
    → start + 1 < 2 ^ 32
    → copy_bytes bs buf start (b ∷ d)
      ≡ (if ltb start bs then copy_bytes bs (update buf start b) (start + 1) d else buf)
unfolding copy_bytes
copy_bytes_cons bs buf start b d h =
    ap (λ o. if ltb start bs then copy_bytes bs (update buf start b) o d else buf)
      (omega (arith, h))

copy_bytes_lem :
    (bs : ℕ) (buf : Mem8) (start : ℕ) (d : List ℕ) (a : ℕ)
    → start + length d < 2 ^ 32
    → copy_bytes bs buf start d a ≡ overlay bs buf start d a
copy_bytes_lem bs buf start [] a h = ap (λ m. m a) (copy_bytes_nil bs buf start) ∙ ground arith
copy_bytes_lem bs buf start (b ∷ d) a h =
    let ih = copy_bytes_lem bs (update buf start b) (start + 1) d a (omega (arith, h)) in
    rw (copy_bytes_cons bs buf start b d (omega (arith, h)), overlay_cons bs buf start b d a)
      (elim (Bool-cases (ltb start bs)) [
        | inl r ↦ rw r (ih ∙ ground arith)
        | inr r ↦ rw r (ground arith)
      ])

-- The flash as bytes, the low byte of a word first.
abbrev pub byte_view : Mem8 → ℕ → ℕ
byte_view flash a = if a % 2 == 1 then flash (a / 2) / 256 % 256 else flash (a / 2) % 256

put_flash_lem :
    (fw : ℕ) (flash : Mem8) (a b x : ℕ)
    → b < 256
    → byte_view (put_flash fw flash a b) x
      ≡ (if (x == a) && ltb a (2 * fw) then b else byte_view flash x)
unfolding put_flash
put_flash_lem fw flash a b x h = ground arith

pub copy_words_cons :
    (fw : ℕ) (flash : Mem8) (start b : ℕ) (d : List ℕ)
    → start + 1 < 2 ^ 32
    → copy_words fw flash start (b ∷ d) ≡ copy_words fw (put_flash fw flash start b) (start + 1) d
unfolding copy_words
copy_words_cons fw flash start b d h =
    ap (λ o. copy_words fw (put_flash fw flash start b) o d) (omega (arith, h))

pub copy_words_nil : (fw : ℕ) (flash : Mem8) (start : ℕ) → copy_words fw flash start [] ≡ flash
unfolding copy_words
copy_words_nil fw flash start = refl

-- Every element of the list is a byte.
abbrev pub AllBytes : List ℕ → Type 0
AllBytes [] = Unit
AllBytes (b ∷ d) = (b < 256) × AllBytes d

pub copy_words_lem :
    (fw : ℕ) (flash : Mem8) (start : ℕ) (d : List ℕ) (a : ℕ)
    → AllBytes d
    → start + length d < 2 ^ 32
    → byte_view (copy_words fw flash start d) a ≡ overlay (2 * fw) (byte_view flash) start d a
copy_words_lem fw flash start [] a v h =
    ap (λ m. byte_view m a) (copy_words_nil fw flash start) ∙ ground arith
copy_words_lem fw flash start (b ∷ d) a v h =
    let f = put_flash fw flash start b in
    ap (λ m. byte_view m a) (copy_words_cons fw flash start b d (omega (arith, h)))
    ∙ copy_words_lem fw f (start + 1) d a v.1 (omega (arith, h))
    ∙ ap
        (λ o.
          if leb (start + 1) a && ltb a (start + 1 + length d) && ltb a (2 * fw)
          then char_at d (a - (start + 1))
          else o)
        (put_flash_lem fw flash start b a v.0)
    ∙ ground (arith, overlay_cons (2 * fw) (byte_view flash) start b d a)

-- A file that ucfm_save wrote for bytes that end below 2 ^ 32, loaded by ucfm_load_bytes, gives
-- the saved bytes at the saved address, as far as the buffer reaches, and changes no other byte.
pub ucfm_load_bytes-ucfm_save :
    (d : List ℕ) (start flags bs : ℕ) (buf : Mem8)
    → start + length d < 2 ^ 32
    → let (ok, loaded) = ucfm_load_bytes (some (ucfm_save d start flags)) buf bs in
      (ok ≡ true) × ((a : ℕ) → loaded a ≡ overlay bs buf start d a)
unfolding ucfm_load_bytes
ucfm_load_bytes-ucfm_save d start flags bs buf h =
    let whole = load_ucfm-ucfm_save (copy_bytes bs) (copy_bytes-Pieces bs) d start flags buf h in
    (ap (λ r. r.0) whole, λ a. ap (λ r. r.1 a) whole ∙ copy_bytes_lem bs buf start d a h)

-- A file that ucfm_save wrote for bytes that end below 2 ^ 32, loaded into the flash of an AVR by
-- ucfm_load, gives the saved bytes at the saved byte address, as far as the flash reaches, and
-- changes no other byte.
pub ucfm_load-ucfm_save :
    (d : List ℕ) (start flags fw : ℕ) (flash : Mem8)
    → AllBytes d
    → start + length d < 2 ^ 32
    → let (ok, loaded) = ucfm_load (some (ucfm_save d start flags)) flash fw in
      (ok ≡ true) × ((a : ℕ) → byte_view loaded a ≡ overlay (2 * fw) (byte_view flash) start d a)
unfolding ucfm_load
ucfm_load-ucfm_save d start flags fw flash v h =
    let whole = load_ucfm-ucfm_save (copy_words fw) (copy_words-Pieces fw) d start flags flash h in
    (
      ap (λ r. r.0) whole,
      λ a. ap (λ r. byte_view r.1 a) whole ∙ copy_words_lem fw flash start d a v h,
    )

-- ===== src/Firmware/Detect.antt =====
-- Which loader `fw_load_bytes` chooses.
use uc_vm.Common.{
  refl, ◌≡◌, ◌<◌, ℕ, ◌+◌, ◌^◌, true, List, [], ◌∷◌, Mem8, none, some, length, ◌⊎◌, inl, inr,
}
use uc_vm.Firmware.Files.{fread}
use uc_vm.Firmware.Ucfm.{bin, last_dot, peek_format, fw_detect, fw_load_bytes, ucfm_save}
use uc_vm.Firmware.RoundTrip.{overlay, ucfm_load_bytes-ucfm_save}

-- A name without an extension, or with the extension ".bin".
abbrev pub NamedBin : List ℕ → Type 0
NamedBin name = (last_dot name ≡ none) ⊎ (last_dot name ≡ some (46 ∷ 98 ∷ 105 ∷ 110 ∷ []))

pub fw_detect-ucfm_save :
    (name d : List ℕ) (start flags : ℕ)
    → NamedBin name
    → fw_detect name (some (ucfm_save d start flags)) ≡ bin
unfolding fw_detect peek_format ucfm_save fread
fw_detect-ucfm_save name d start flags (inl e) = rw (fw_detect, e) refl
fw_detect-ucfm_save name d start flags (inr e) = rw (fw_detect, e) refl

-- Under a name without an extension, or with .bin, a file that ucfm_save wrote for bytes that end
-- below 2 ^ 32 is taken for a binary one by fw_load_bytes, and its bytes come to the address that
-- they were saved for.
pub fw_load_bytes-ucfm_save :
    (name d : List ℕ) (start flags bs : ℕ) (buf : Mem8)
    → NamedBin name
    → start + length d < 2 ^ 32
    → let (ok, loaded) = fw_load_bytes name (some (ucfm_save d start flags)) buf bs in
      (ok ≡ true) × ((a : ℕ) → loaded a ≡ overlay bs buf start d a)
unfolding fw_load_bytes
fw_load_bytes-ucfm_save name d start flags bs buf n h =
    rw (fw_load_bytes, fw_detect-ucfm_save name d start flags n)
      (ucfm_load_bytes-ucfm_save d start flags bs buf h)

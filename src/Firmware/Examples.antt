-- ===== src/Firmware/Examples.antt =====
-- The theorems on the loaders at concrete files.
use uc_vm.Common.{false, refl, ◌≡◌, arith, ℕ, true, List, [], ◌∷◌, ◌++◌, Mem8, some}
use uc_vm.Firmware.Hex.{next, done, load_line}
use uc_vm.Firmware.Ucfm.{ucfm_load, ucfm_save}
use uc_vm.Firmware.RoundTrip.{overlay, byte_view, ucfm_load-ucfm_save}
use uc_vm.Firmware.Records.{record_line, hex_bytes, load_line-record_line, load_line_damaged}

abbrev blank : Mem8
blank a = 255

-- MOV A,#42; SJMP to itself.
abbrev contents : List ℕ
contents = 0x74 ∷ 42 ∷ 0x80 ∷ 0xFE ∷ []

ucfm_load-ucfm_save_example :
    let (ok, loaded) = ucfm_load (some (ucfm_save contents 3 1)) blank 100 in
    (ok ≡ true) × ((a : ℕ) → byte_view loaded a ≡ overlay 200 (byte_view blank) 3 contents a)
ucfm_load-ucfm_save_example =
    ucfm_load-ucfm_save contents 3 1 100 blank
      (omega arith, (omega arith, (omega arith, (omega arith, tt)))) (omega arith)

load_line-record_line_example :
    (m : Mem8) × (load_line 100 (record_line 0x20 contents) 0 blank ≡ next 0 m)
    × ((a : ℕ) → byte_view m a ≡ overlay 200 (byte_view blank) 0x20 contents a)
load_line-record_line_example =
    load_line-record_line 100 0x20 0 contents blank
      (omega arith, (omega arith, (omega arith, (omega arith, tt)))) (omega arith) (omega arith)
      (omega arith)

-- The end record :00000001FF with its type read as 3.
load_line_damaged_example :
    load_line 100 (58 ∷ (hex_bytes (0 ∷ 0 ∷ 0 ∷ 3 ∷ 255 ∷ []) ++ (10 ∷ []))) 0 blank
    ≡ done false blank
load_line_damaged_example =
    load_line_damaged 100 0 (0 ∷ 0 ∷ 0 ∷ []) (255 ∷ []) 1 3 blank
      (omega arith, (omega arith, (omega arith, (omega arith, (omega arith, tt))))) refl
      (omega arith) (omega arith) (λ e. omega (arith, e))

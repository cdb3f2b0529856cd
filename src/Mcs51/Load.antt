-- ===== src/Mcs51/Load.antt =====
-- Loading a program into an 8051: `mcs51_load_fw` of src/mcs51/mcs51_mcu_ops.c.
use uc_vm.Common.{
  arith, ℕ, ◌+◌, ◌^◌, ◌<◌, ◌≡◌, refl, ap, ◌∙◌, Bool, true, false, if◌then◌else◌, List, Option, some,
  length,
}
use uc_vm.Mcs51.Cpu.{Cpu, running, cpu_reset}
use uc_vm.Mcs51.Memory.{code_read}
use uc_vm.Firmware.Ucfm.{fw_load_bytes, ucfm_save}
use uc_vm.Firmware.RoundTrip.{overlay}
use uc_vm.Firmware.Detect.{NamedBin, fw_load_bytes-ucfm_save}

-- The code memory is filled with 0xFF first, and the CPU reset when the load succeeds.
unfoldable pub load_fw : Cpu → List ℕ → Option (List ℕ) → Bool × Cpu
load_fw c path file =
    let (ok, code) = fw_load_bytes path file (λ _. 255) c.code_size in
    let c1 = record c { code = code } in if ok then (true, cpu_reset c1) else (false, c1)

load_fw_ok :
    (c : Cpu) (path : List ℕ) (file : Option (List ℕ))
    → (fw_load_bytes path file (λ _. 255) c.code_size).0 ≡ true
    → let d = (load_fw c path file).1 in
      ((load_fw c path file).0 ≡ true)
      × (d.pc ≡ 0)
      × (d.state ≡ running)
      × (d.code ≡ (fw_load_bytes path file (λ _. 255) c.code_size).1)
      × (d.code_size ≡ c.code_size)
unfolding load_fw cpu_reset
load_fw_ok c path file e = rw e (refl, refl, refl, refl, refl)

-- After mcs51_load_fw of a file that ucfm_save wrote for bytes that end below 2 ^ 32, under a name
-- without extension or with .bin, the CPU runs from address 0, and mcs51_code_read gives the saved
-- byte where one was saved inside the program memory, and else 0xFF.
pub load_fw-ucfm_save :
    (c : Cpu) (path d : List ℕ) (start flags : ℕ)
    → NamedBin path
    → start + length d < 2 ^ 32
    → let (ok, e) = load_fw c path (some (ucfm_save d start flags)) in
      (ok ≡ true)
      × (e.pc ≡ 0)
      × (e.state ≡ running)
      × ((a : ℕ) → code_read e a ≡ overlay c.code_size (λ _. 255) start d a)
unfolding code_read
load_fw-ucfm_save c path d start flags n h =
    let loaded = fw_load_bytes-ucfm_save path d start flags c.code_size (λ _. 255) n h in
    let r = load_fw_ok c path (some (ucfm_save d start flags)) loaded.0 in
    (r.0, r.1, r.2, λ a. ground (arith, r.4, ap (λ m. m a) r.3 ∙ loaded.1 a))

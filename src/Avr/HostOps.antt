-- ===== src/Avr/HostOps.antt =====
-- The operations for the host on an AVR: src/avr/avr_mcu_ops.c, without the wait of the ESP32.
use uc_vm.Common.{
  ℕ, ◌+◌, ◌*◌, ◌/◌, ◌%◌, ◌^◌, ◌<◌, ◌≡◌, ◌∙◌, refl, ap, arith, Bool, true, false, Option, none, some,
  List, length, if◌then◌else◌, ltb, Mem8, leb,
}
use uc_vm.Avr.Cpu.{AvrCpu, avr_running, avr_halted, set_avr_uart, set_mem}
use uc_vm.Avr.Memory.{flash_read_byte, sync_sp}
use uc_vm.Avr.Uart.{avr_uart_rx_push, avr_uart_tx_pop}
use uc_vm.Avr.Decode.Predecode.{predecode}
use uc_vm.Avr.Variants.{avr_cpu_reset}
use uc_vm.Avr.Twi.{Twi, TwiBus}
use uc_vm.Avr.TwiOps.{avr_twi_set_bus}
use uc_vm.Firmware.Ucfm.{fw_load, ucfm_save}
use uc_vm.Firmware.RoundTrip.{overlay, byte_view, AllBytes, ucfm_load-ucfm_save}
use uc_vm.Firmware.Detect.{NamedBin, fw_detect-ucfm_save}

-- The flash is filled with 0xFFFF first, and the CPU, halted meanwhile, is reset when the load
-- succeeds.
unfoldable pub avr_load_fw : AvrCpu → List ℕ → Option (List ℕ) → Bool × AvrCpu
avr_load_fw c path file =
    let words = c.flash_size / 2 in
    let (ok, loaded) = fw_load path file (λ i. if ltb i words then 0xFFFF else c.flash i) words in
    let c1 = record c { state = avr_halted; flash = loaded } in
    if ok then (true, avr_cpu_reset c1) else (false, c1)

-- `avr_uart_push` and `avr_uart_pop`: nothing without a UART.
unfoldable pub avr_uart_push : AvrCpu → ℕ → AvrCpu
avr_uart_push c byte = if c.periph_uart then avr_uart_rx_push c byte else c

unfoldable pub avr_uart_pop : AvrCpu → Option ℕ × AvrCpu
avr_uart_pop c =
    let (out, u) = avr_uart_tx_pop c.uart in
    if c.periph_uart then (out, set_avr_uart c u) else (none, c)

-- `avr_i2c_attach`, with the object of the interface if there is one.
unfoldable pub avr_i2c_attach :
    {Ctx : Type 0} → Option (Twi Ctx) → Option (TwiBus Ctx) → Ctx → Option (Twi Ctx)
avr_i2c_attach none bus ctx = none
avr_i2c_attach (some twi) bus ctx = some (avr_twi_set_bus twi bus ctx)

fw_load-ucfm_save :
    (path d : List ℕ) (start flags words : ℕ) (flash : Mem8)
    → NamedBin path
    → AllBytes d
    → start + length d < 2 ^ 32
    → let (ok, loaded) = fw_load path (some (ucfm_save d start flags)) flash words in
      (ok ≡ true) × ((a : ℕ) → byte_view loaded a ≡ overlay (2 * words) (byte_view flash) start d a)
unfolding fw_load
fw_load-ucfm_save path d start flags words flash n v h =
    rw (fw_load, fw_detect-ucfm_save path d start flags n)
      (ucfm_load-ucfm_save d start flags words flash v h)

avr_load_fw_ok :
    (c : AvrCpu) (path : List ℕ) (file : Option (List ℕ))
    → let words = c.flash_size / 2 in
      let (ok, loaded) = fw_load path file (λ i. if ltb i words then 0xFFFF else c.flash i) words in
      ok ≡ true
      → avr_load_fw c path file
        ≡ (true, avr_cpu_reset (record c { state = avr_halted; flash = loaded }))
unfolding avr_load_fw
avr_load_fw_ok c path file e = rw e refl

flash-avr_cpu_reset :
    (c : AvrCpu)
    → ((avr_cpu_reset c).flash ≡ c.flash)
      × ((avr_cpu_reset c).flash_size ≡ c.flash_size)
      × ((avr_cpu_reset c).pc ≡ 0)
      × ((avr_cpu_reset c).state ≡ avr_running)
unfolding avr_cpu_reset predecode sync_sp set_mem
flash-avr_cpu_reset c = (refl, refl, refl, refl)

-- The flash read as bytes.
flash_read_byte-byte_view :
    (c : AvrCpu) (a : ℕ)
    → flash_read_byte c a ≡ (if leb c.flash_size a then 0xFF else byte_view c.flash a)
unfolding flash_read_byte
flash_read_byte-byte_view c a = ground arith

-- A flash of 0xFFFF with bytes over it, read up to its end.
erased_overlay :
    (size start a : ℕ) (d : List ℕ) (flash : Mem8)
    → size % 2 ≡ 0
    → (if leb size a
        then 0xFF
        else overlay
            (2 * (size / 2))
            (byte_view (λ i. if ltb i (size / 2) then 0xFFFF else flash i))
            start
            d
            a)
      ≡ overlay size (λ _. 255) start d a
erased_overlay size start a d flash even = ground (arith, even)

-- After avr_load_fw of a file that ucfm_save wrote for bytes that end below 2 ^ 32, under a name
-- without extension or with .bin, into a flash of an even number of bytes, the AVR runs from
-- address 0, and avr_flash_read_byte gives the saved byte where one was saved inside the flash,
-- and else 0xFF.
pub avr_load_fw-ucfm_save :
    (c : AvrCpu) (path d : List ℕ) (start flags : ℕ)
    → NamedBin path
    → AllBytes d
    → start + length d < 2 ^ 32
    → c.flash_size % 2 ≡ 0
    → let (ok, e) = avr_load_fw c path (some (ucfm_save d start flags)) in
      (ok ≡ true)
      × (e.pc ≡ 0)
      × (e.state ≡ avr_running)
      × ((a : ℕ) → flash_read_byte e a ≡ overlay c.flash_size (λ _. 255) start d a)
avr_load_fw-ucfm_save c path d start flags n v h even =
    let words = c.flash_size / 2 in
    let erased : Mem8 = λ i. if ltb i words then 0xFFFF else c.flash i in
    let (ok, view) = fw_load-ucfm_save path d start flags words erased n v h in
    let loaded = (fw_load path (some (ucfm_save d start flags)) erased words).1 in
    let c1 = record c { state = avr_halted; flash = loaded } in
    let (same, size, pc, state) = flash-avr_cpu_reset c1 in
    let whole = avr_load_fw_ok c path (some (ucfm_save d start flags)) ok in
    (
      ap (λ r. r.0) whole,
      ap (λ r. r.1.pc) whole ∙ pc,
      ap (λ r. r.1.state) whole ∙ state,
      λ a.
          ap (λ r. flash_read_byte r.1 a) whole
          ∙ flash_read_byte-byte_view (avr_cpu_reset c1) a
          ∙ ap (λ n. if leb n a then 0xFF else byte_view (avr_cpu_reset c1).flash a) size
          ∙ ap (λ f. if leb c.flash_size a then 0xFF else byte_view f a) same
          ∙ ap (λ b. if leb c.flash_size a then 0xFF else b) (view a)
          ∙ erased_overlay c.flash_size start a d c.flash even,
    )

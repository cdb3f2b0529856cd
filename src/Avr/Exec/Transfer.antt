-- ===== src/Avr/Exec/Transfer.antt =====
-- The handlers that move data, of src/avr/avr_decode.c: registers, I/O, loads, stores, stack and
-- program memory.
use uc_vm.Common.{ℕ, ◌+◌, ◌-◌, u16, bit_and, bit_or, nonzero, ◌==◌}
use uc_vm.Avr.Cpu.{set_mem, avr_r, regw, set_regw, reg_x, reg_y, reg_z}
use uc_vm.Avr.Memory.{
  avr_io_read, avr_io_write, data_read, data_write, flash_read_byte, avr_push, avr_pop,
}
use uc_vm.Avr.Exec.Outcome.{Handler, advance, skip_if, b8}

unfoldable pub h_mov : Handler
h_mov d c = advance 1 1 (set_mem c d.a (avr_r c (b8 d)))

unfoldable pub h_movw : Handler
h_movw d c =
    let c1 = set_mem c d.a (avr_r c (b8 d)) in
    advance 1 1 (set_mem c1 (d.a + 1) (avr_r c1 (b8 d + 1)))

unfoldable pub h_in : Handler
h_in d c = let (v, c1) = avr_io_read c (b8 d) in advance 1 1 (set_mem c1 d.a v)

unfoldable pub h_out : Handler
h_out d c = advance 1 1 (avr_io_write c (b8 d) (avr_r c d.a))

unfoldable pub h_cbi : Handler
h_cbi d c =
    let (v, c1) = avr_io_read c d.a in advance 1 2 (avr_io_write c1 d.a (bit_and v (255 - b8 d)))

unfoldable pub h_sbi : Handler
h_sbi d c = let (v, c1) = avr_io_read c d.a in advance 1 2 (avr_io_write c1 d.a (bit_or v (b8 d)))

unfoldable pub h_sbic : Handler
h_sbic d c = let (v, c1) = avr_io_read c d.a in skip_if (bit_and v (b8 d) == 0) c1

unfoldable pub h_sbis : Handler
h_sbis d c = let (v, c1) = avr_io_read c d.a in skip_if (nonzero (bit_and v (b8 d))) c1

unfoldable pub h_lds : Handler
h_lds d c = let (v, c1) = data_read c d.b in advance 2 2 (set_mem c1 d.a v)

-- Loads through the pointer in registers `p` and `p + 1`: as it is, with an increment after, with
-- a decrement before, and with a displacement.
unfoldable pub load_at : ℕ → Handler
load_at p d c = let (v, c1) = data_read c (regw c p) in advance 1 2 (set_mem c1 d.a v)

unfoldable pub load_post : ℕ → Handler
load_post p d c =
    let at = regw c p in
    let (v, c1) = data_read c at in advance 1 2 (set_regw (set_mem c1 d.a v) p (at + 1))

unfoldable pub load_pre : ℕ → Handler
load_pre p d c =
    let at = u16 (regw c p + 65535) in
    let (v, c1) = data_read (set_regw c p at) at in advance 1 2 (set_mem c1 d.a v)

unfoldable pub load_disp : ℕ → Handler
load_disp p d c = let (v, c1) = data_read c (u16 (regw c p + d.b)) in advance 1 2 (set_mem c1 d.a v)

abbrev pub h_ld_x : Handler
h_ld_x = load_at reg_x

abbrev pub h_ld_xp : Handler
h_ld_xp = load_post reg_x

abbrev pub h_ld_mx : Handler
h_ld_mx = load_pre reg_x

abbrev pub h_ld_yp : Handler
h_ld_yp = load_post reg_y

abbrev pub h_ld_my : Handler
h_ld_my = load_pre reg_y

abbrev pub h_ldd_y : Handler
h_ldd_y = load_disp reg_y

abbrev pub h_ld_zp : Handler
h_ld_zp = load_post reg_z

abbrev pub h_ld_mz : Handler
h_ld_mz = load_pre reg_z

abbrev pub h_ldd_z : Handler
h_ldd_z = load_disp reg_z

unfoldable pub h_sts : Handler
h_sts d c = advance 2 2 (data_write c d.b (avr_r c d.a))

-- Stores through a pointer. The register is read after a decrement, and before an increment.
unfoldable pub store_at : ℕ → Handler
store_at p d c = advance 1 2 (data_write c (regw c p) (avr_r c d.a))

unfoldable pub store_post : ℕ → Handler
store_post p d c =
    let at = regw c p in advance 1 2 (set_regw (data_write c at (avr_r c d.a)) p (at + 1))

unfoldable pub store_pre : ℕ → Handler
store_pre p d c =
    let at = u16 (regw c p + 65535) in
    let c1 = set_regw c p at in advance 1 2 (data_write c1 at (avr_r c1 d.a))

unfoldable pub store_disp : ℕ → Handler
store_disp p d c = advance 1 2 (data_write c (u16 (regw c p + d.b)) (avr_r c d.a))

abbrev pub h_st_x : Handler
h_st_x = store_at reg_x

abbrev pub h_st_xp : Handler
h_st_xp = store_post reg_x

abbrev pub h_st_mx : Handler
h_st_mx = store_pre reg_x

abbrev pub h_st_yp : Handler
h_st_yp = store_post reg_y

abbrev pub h_st_my : Handler
h_st_my = store_pre reg_y

abbrev pub h_std_y : Handler
h_std_y = store_disp reg_y

abbrev pub h_st_zp : Handler
h_st_zp = store_post reg_z

abbrev pub h_st_mz : Handler
h_st_mz = store_pre reg_z

abbrev pub h_std_z : Handler
h_std_z = store_disp reg_z

unfoldable pub h_push : Handler
h_push d c = advance 1 2 (avr_push c (avr_r c d.a))

unfoldable pub h_pop : Handler
h_pop d c = let (v, c1) = avr_pop c in advance 1 2 (set_mem c1 d.a v)

unfoldable pub h_lpm_r0 : Handler
h_lpm_r0 d c = advance 1 3 (set_mem c 0 (flash_read_byte c (regw c reg_z)))

unfoldable pub h_lpm_rd : Handler
h_lpm_rd d c = advance 1 3 (set_mem c d.a (flash_read_byte c (regw c reg_z)))

unfoldable pub h_lpm_rdp : Handler
h_lpm_rdp d c =
    let z = regw c reg_z in
    advance 1 3 (set_regw (set_mem c d.a (flash_read_byte c z)) reg_z (z + 1))

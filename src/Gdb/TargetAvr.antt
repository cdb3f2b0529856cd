-- ===== src/Gdb/TargetAvr.antt =====
-- The AVR as a target of the stub: src/gdb/gdb_target_avr.c. The characters of the registers are
-- written and read by the stub's functions, of which that file has copies.
use uc_vm.Common.{
  ℕ, zero, suc, ◌+◌, ◌-◌, ◌*◌, ◌/◌, ◌%◌, ◌^◌, none, some, List, [], ◌++◌, if◌then◌else◌, ltb, leb,
  ◌&&◌, ◌==◌, u16, bit_or,
}
use uc_vm.Avr.Cpu.{
  AvrCpu, AvrState, avr_running, avr_sleeping, avr_halted, avr_break, avr_r, set_pc, set_sp,
  set_sreg, set_mem, set_avr_state,
}
use uc_vm.Avr.Memory.{flash_read_byte, data_read, data_write}
use uc_vm.Avr.Variants.{avr_cpu_reset}
use uc_vm.Gdb.Stub.{TargetOps, hex_byte, hex_pair_in, first, skip}
use uc_vm.Gdb.Packets.{take_byte}

-- R`i` and the registers behind it, that many.
unfoldable pub avr_reg_chars : AvrCpu → ℕ → ℕ → List ℕ
avr_reg_chars c i zero = []
avr_reg_chars c i (suc n) = hex_byte (avr_r c i) ++ avr_reg_chars c (i + 1) n

-- `avr_read_regs`.
unfoldable pub avr_read_regs : AvrCpu → List ℕ
unfolding avr_reg_chars
avr_read_regs c =
    let pc_bytes = c.pc * 2 in
    avr_reg_chars c 0 32
    ++ (hex_byte c.sreg
        ++ (hex_byte (c.sp % 256)
            ++ (hex_byte (c.sp / 256 % 256)
                ++ (hex_byte (pc_bytes % 256)
                    ++ (hex_byte (pc_bytes / 256 % 256)
                        ++ (hex_byte (pc_bytes / 65536 % 256)
                            ++ hex_byte (pc_bytes / 16777216 % 256)))))))

-- R`i` and the registers behind it, that many, until the string ends.
unfoldable pub put_registers : ℕ → ℕ → AvrCpu × List ℕ → AvrCpu × List ℕ
put_registers zero i (c, p) = (c, p)
put_registers (suc n) i (c, p) = elim (take_byte p) [
  | none ↦ (c, p)
  | some (val, p1) ↦ put_registers n (i + 1) (set_mem c i val, p1)
]

unfoldable pub put_sreg : AvrCpu × List ℕ → AvrCpu × List ℕ
put_sreg (c, p) = elim (take_byte p) [ none ↦ (c, p) | some (val, p1) ↦ (set_sreg c val, p1) ]

-- The stack pointer: both bytes, or it stays.
unfoldable pub put_sp : AvrCpu × List ℕ → AvrCpu × List ℕ
put_sp (c, p) = elim (take_byte p) [
  | none ↦ (c, p)
  | some (spl, p1) ↦ elim (take_byte p1) [
    | none ↦ (c, p1)
    | some (sph, p2) ↦ (set_sp c (sph * 256 + spl), p2)
  ]
]

-- The loop over the four bytes of the program counter from byte `i` on. Each pair of characters is
-- in 32 bits before its shift.
unfoldable pub pc_bytes_from : ℕ → ℕ → ℕ → List ℕ → ℕ
pc_bytes_from zero i val p = val
pc_bytes_from (suc n) i val p = elim (take_byte p) [
  | none ↦ val
  | some (x, p1) ↦
      pc_bytes_from n (i + 1)
        (bit_or val (hex_pair_in (2 ^ 32) (first p) (first (skip 1 p)) * 2 ^ (i * 8) % 2 ^ 32)) p1
]

unfoldable pub put_avr_pc : AvrCpu × List ℕ → AvrCpu
unfolding pc_bytes_from
put_avr_pc (c, p) = elim (take_byte p) [ none ↦ c | some x ↦ set_pc c (pc_bytes_from 4 0 0 p / 2) ]

-- `avr_write_regs`.
unfoldable pub avr_write_regs : AvrCpu → List ℕ → AvrCpu
unfolding put_registers put_sreg put_sp put_avr_pc
avr_write_regs c text = put_avr_pc (put_sp (put_sreg (put_registers 32 0 (c, text))))

-- `avr_read_mem`.
unfoldable pub avr_read_mem : AvrCpu → ℕ → ℕ × AvrCpu
avr_read_mem c addr =
    if ltb addr 0x800000
    then (flash_read_byte c (u16 addr), c)
    else if ltb addr 0x810000
    then data_read c (addr - 0x800000)
    else (0, c)

-- `avr_write_mem`: the flash is not written.
unfoldable pub avr_write_mem : AvrCpu → ℕ → ℕ → AvrCpu
avr_write_mem c addr val =
    if leb 0x800000 addr && ltb addr 0x810000 then data_write c (addr - 0x800000) val else c

-- AVR_STATE_* from its number. The stub passes 0 and 2.
unfoldable pub avr_state_of : ℕ → AvrState
avr_state_of n =
    if n == 0
    then avr_running
    else if n == 1
    then avr_sleeping
    else if n == 2
    then avr_halted
    else avr_break

-- `gdb_target_avr`: its addresses of the program are those of bytes.
abbrev pub gdb_target_avr : TargetOps AvrCpu
gdb_target_avr = record {
  read_regs = avr_read_regs;
  write_regs = avr_write_regs;
  read_mem = avr_read_mem;
  write_mem = avr_write_mem;
  get_pc = λ c. c.pc * 2;
  target_pc = λ c addr. set_pc c (addr / 2);
  target_state = λ c n. set_avr_state c (avr_state_of n);
  target_reset = avr_cpu_reset;
}

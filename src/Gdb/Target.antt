-- ===== src/Gdb/Target.antt =====
-- The 8051 as a target of the stub: src/gdb/gdb_target_mcs51.c. The characters of the registers
-- are written and read by the stub's functions, of which that file has copies.
use uc_vm.Common.{
  ℕ, zero, suc, ◌+◌, ◌-◌, ◌*◌, ◌/◌, ◌%◌, none, some, List, [], ◌++◌, if◌then◌else◌, ltb, leb, ◌&&◌,
  ◌==◌, u16, bit_or,
}
use uc_vm.Mcs51.Cpu.{
  Cpu, CpuState, running, sleeping, halted, break, acc, reg_b, psw, sp, sfr_acc, sfr_b, sfr_psw,
  sfr_sp, sfr_dpl, sfr_dph, reg, reg_bank, set_pc, set_sfr, set_iram, set_state, cpu_reset,
}
use uc_vm.Mcs51.Memory.{direct_read, direct_write, xdata_read, xdata_write, code_read}
use uc_vm.Gdb.Stub.{TargetOps, hex_byte, first, skip, hex_pair_in}
use uc_vm.Gdb.Packets.{take_byte}

-- R`i` and the registers behind it, that many.
unfoldable pub reg_chars : Cpu → ℕ → ℕ → List ℕ
reg_chars c i zero = []
reg_chars c i (suc n) = hex_byte (reg c i) ++ reg_chars c (i + 1) n

-- `mcs51_read_regs`.
unfoldable pub mcs51_read_regs : Cpu → List ℕ
unfolding reg_chars
mcs51_read_regs c =
    hex_byte (c.pc % 256)
    ++ (hex_byte (c.pc / 256 % 256)
        ++ (hex_byte (acc c)
            ++ (hex_byte (reg_b c)
                ++ (hex_byte (psw c)
                    ++ (hex_byte (sp c)
                        ++ (hex_byte (c.sfr sfr_dpl)
                            ++ (hex_byte (c.sfr sfr_dph) ++ reg_chars c 0 8)))))))

-- The program counter: both bytes, or it stays. Its bytes are in a uint16_t each.
unfoldable pub put_pc : Cpu × List ℕ → Cpu × List ℕ
put_pc (c, p) = elim (take_byte p) [
  | none ↦ (c, p)
  | some (lo, p1) ↦ elim (take_byte p1) [
    | none ↦ (c, p1)
    | some (hi, p2) ↦ (
      set_pc c (
          bit_or (u16 (hex_pair_in 65536 (first p1) (first (skip 1 p1)) * 256))
            (hex_pair_in 65536 (first p) (first (skip 1 p)))),
      p2,
    )
  ]
]

-- One register of one byte, if it is there.
unfoldable pub put_sfr : ℕ → Cpu × List ℕ → Cpu × List ℕ
put_sfr i (c, p) = elim (take_byte p) [ none ↦ (c, p) | some (val, p1) ↦ (set_sfr c i val, p1) ]

-- R`i` and the registers behind it, that many, until the string ends. PSW selects their bank.
unfoldable pub put_rns : ℕ → ℕ → Cpu × List ℕ → Cpu
put_rns zero i (c, p) = c
put_rns (suc n) i (c, p) = elim (take_byte p) [
  | none ↦ c
  | some (val, p1) ↦ put_rns n (i + 1) (set_iram c (reg_bank c + i) val, p1)
]

-- `mcs51_write_regs`.
unfoldable pub mcs51_write_regs : Cpu → List ℕ → Cpu
unfolding put_pc put_sfr put_rns
mcs51_write_regs c text =
    let s1 = put_sfr sfr_b (put_sfr sfr_acc (put_pc (c, text))) in
    let s2 = put_sfr sfr_sp (put_sfr sfr_psw s1) in
    put_rns 8 0 (put_sfr sfr_dph (put_sfr sfr_dpl s2))

-- `mcs51_read_mem`.
unfoldable pub mcs51_read_mem : Cpu → ℕ → ℕ × Cpu
mcs51_read_mem c addr =
    if ltb addr 0x10000
    then (code_read c addr, c)
    else if leb 0x0D0000 addr && ltb addr 0x0D0100
    then direct_read c (addr - 0x0D0000)
    else if leb 0x0F0000 addr && ltb addr 0x100000
    then (xdata_read c (addr - 0x0F0000), c)
    else (0xFF, c)

-- `mcs51_write_mem`: the program memory is not written.
unfoldable pub mcs51_write_mem : Cpu → ℕ → ℕ → Cpu
mcs51_write_mem c addr val =
    if leb 0x0D0000 addr && ltb addr 0x0D0100
    then direct_write c (addr - 0x0D0000) val
    else if leb 0x0F0000 addr && ltb addr 0x100000
    then xdata_write c (addr - 0x0F0000) val
    else c

-- MCS51_STATE_* from its number. The stub passes 0 and 2.
unfoldable pub state_of : ℕ → CpuState
state_of n =
    if n == 0 then running else if n == 1 then sleeping else if n == 2 then halted else break

-- `gdb_target_mcs51`.
abbrev pub gdb_target_mcs51 : TargetOps Cpu
gdb_target_mcs51 = record {
  read_regs = mcs51_read_regs;
  write_regs = mcs51_write_regs;
  read_mem = mcs51_read_mem;
  write_mem = mcs51_write_mem;
  get_pc = λ c. c.pc;
  target_pc = set_pc;
  target_state = λ c n. set_state c (state_of n);
  target_reset = cpu_reset;
}

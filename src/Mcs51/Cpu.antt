-- ===== src/Mcs51/Cpu.antt =====
-- The state of the 8051: `struct mcs51_cpu` of src/mcs51/mcs51_cpu.h with the peripheral structs
-- of src/mcs51/mcs51_periph.h, its stores and its reset. A hook that the program registers is a
-- constructor; calls of the host's bridge callback are recorded, newest first.
use uc_vm.Common.{
  ℕ, ◌+◌, ◌*◌, ◌/◌, ◌%◌, Bool, false, Option, List, ◌∷◌, Mem8, update, u8, u16, u64, if◌then◌else◌,
}

-- `MCS51_STATE_*`.
pub data CpuState : Type 0 where
  running sleeping halted break : CpuState

-- The functions that are registered as `sfr_write` and `sfr_read` hooks.
pub data SfrWriteFn : Type 0 where
  port_write sbuf_write : SfrWriteFn

pub data SfrReadFn : Type 0 where
  port_read sbuf_read : SfrReadFn

-- `io_periph_type_t`, as far as the 8051 reports it.
pub data IoPeriph : Type 0 where
  gpio uart : IoPeriph

-- One call of `bridge_cb`: type, resource, value.
pub record BridgeCall : Type 0 where
  pub periph : IoPeriph
  pub resource : ℕ
  pub value : ℕ

-- `mcs51_uart_t`.
pub record Uart : Type 0 where
  pub tx_buf : Mem8
  pub tx_head : ℕ
  pub tx_tail : ℕ
  pub rx_buf : Mem8
  pub rx_head : ℕ
  pub rx_tail : ℕ
  pub tx_active : Bool

-- `mcs51_gpio_t`.
pub record Gpio : Type 0 where
  pub ext_pins : Mem8

-- `struct mcs51_cpu`. `periph_timer`, `periph_uart` and `bridge_cb` say that the pointer is not
-- null; `uart_state` and `gpio_state` are the objects behind the hooks' contexts.
pub record Cpu : Type 0 where
  pub pc : ℕ
  pub cycles : ℕ
  pub state : CpuState
  pub iram : Mem8
  pub sfr : Mem8
  pub code : Mem8
  pub code_size : ℕ
  pub xram : Mem8
  pub xram_size : ℕ
  pub sfr_write : ℕ → Option SfrWriteFn
  pub sfr_read : ℕ → Option SfrReadFn
  pub int_active : ℕ → Bool
  pub int_priority : ℕ
  pub periph_timer : Bool
  pub periph_uart : Bool
  pub uart_state : Uart
  pub gpio_state : Gpio
  pub bridge_cb : Bool
  pub bridge_log : List BridgeCall

-- Indices into `sfr[]`: `SFI(SFR_*)`.
abbrev pub sfr_p0 : ℕ
sfr_p0 = 0x00

abbrev pub sfr_sp : ℕ
sfr_sp = 0x01

abbrev pub sfr_dpl : ℕ
sfr_dpl = 0x02

abbrev pub sfr_dph : ℕ
sfr_dph = 0x03

abbrev pub sfr_tcon : ℕ
sfr_tcon = 0x08

abbrev pub sfr_tmod : ℕ
sfr_tmod = 0x09

abbrev pub sfr_tl0 : ℕ
sfr_tl0 = 0x0A

abbrev pub sfr_tl1 : ℕ
sfr_tl1 = 0x0B

abbrev pub sfr_th0 : ℕ
sfr_th0 = 0x0C

abbrev pub sfr_th1 : ℕ
sfr_th1 = 0x0D

abbrev pub sfr_p1 : ℕ
sfr_p1 = 0x10

abbrev pub sfr_scon : ℕ
sfr_scon = 0x18

abbrev pub sfr_sbuf : ℕ
sfr_sbuf = 0x19

abbrev pub sfr_p2 : ℕ
sfr_p2 = 0x20

abbrev pub sfr_ie : ℕ
sfr_ie = 0x28

abbrev pub sfr_p3 : ℕ
sfr_p3 = 0x30

abbrev pub sfr_ip : ℕ
sfr_ip = 0x38

abbrev pub sfr_t2con : ℕ
sfr_t2con = 0x48

abbrev pub sfr_psw : ℕ
sfr_psw = 0x50

abbrev pub sfr_acc : ℕ
sfr_acc = 0x60

abbrev pub sfr_b : ℕ
sfr_b = 0x70

-- The macros ACC, B, PSW, SP, DPL, DPH and DPTR as reads.
abbrev pub acc : Cpu → ℕ
acc c = c.sfr sfr_acc

abbrev pub reg_b : Cpu → ℕ
reg_b c = c.sfr sfr_b

abbrev pub psw : Cpu → ℕ
psw c = c.sfr sfr_psw

abbrev pub sp : Cpu → ℕ
sp c = c.sfr sfr_sp

-- `DPL | (DPH << 8)`; DPL is below 256.
abbrev pub dptr : Cpu → ℕ
dptr c = u16 (c.sfr sfr_dpl + c.sfr sfr_dph * 256)

-- REG_BANK and REG.
abbrev pub reg_bank : Cpu → ℕ
reg_bank c = psw c / 8 % 4 * 8

abbrev pub reg : Cpu → ℕ → ℕ
reg c n = c.iram (reg_bank c + n)

-- The stores: each keeps what its C type keeps.
unfoldable pub set_pc : Cpu → ℕ → Cpu
set_pc c v = record c { pc = u16 v }

unfoldable pub set_sfr : Cpu → ℕ → ℕ → Cpu
set_sfr c i v = record c { sfr = update c.sfr i (u8 v) }

unfoldable pub set_iram : Cpu → ℕ → ℕ → Cpu
set_iram c a v = record c { iram = update c.iram a (u8 v) }

unfoldable pub set_xram : Cpu → ℕ → ℕ → Cpu
set_xram c a v = record c { xram = update c.xram a (u8 v) }

unfoldable pub set_state : Cpu → CpuState → Cpu
set_state c s = record c { state = s }

unfoldable pub set_int_active : Cpu → ℕ → Bool → Cpu
set_int_active c level v = record c { int_active = update c.int_active level v }

unfoldable pub add_cycles : Cpu → ℕ → Cpu
add_cycles c n = record c { cycles = u64 (c.cycles + n) }

-- `if (bridge_cb) bridge_cb(bridge_ctx, periph, resource, value)`.
unfoldable pub call_bridge : Cpu → IoPeriph → ℕ → ℕ → Cpu
call_bridge c p r v =
    if c.bridge_cb
    then record c { bridge_log = record { periph = p; resource = r; value = v } ∷ c.bridge_log }
    else c

unfoldable pub set_uart : Cpu → Uart → Cpu
set_uart c u = record c { uart_state = u }

-- The SFRs after `mcs51_cpu_reset`: SP is 7, the ports are 0xFF, all else is 0.
unfoldable pub reset_sfr : Mem8
reset_sfr =
    update (update (update (update (update (λ _. 0) sfr_sp 7) sfr_p0 255) sfr_p1 255) sfr_p2 255)
      sfr_p3 255

-- `mcs51_cpu_reset`; `int_priority = -1` is 255 in a uint8_t.
unfoldable pub cpu_reset : Cpu → Cpu
unfolding reset_sfr
cpu_reset c = record c {
  pc = 0;
  cycles = 0;
  state = running;
  iram = λ _. 0;
  sfr = reset_sfr;
  int_active = update (update c.int_active 0 false) 1 false;
  int_priority = 255;
}

-- ===== src/Mcs51/Evolve.antt =====
-- What every store and every memory access of src/mcs51 keeps: the ranges of the C types and of
-- the UART's ring indices, the program memory, the hooks and the cycle count.
pub mod Rules
pub mod Helpers
pub mod Opcodes
pub mod Step
use uc_vm.Common.{ℕ, ◌<◌, ◌≡◌, ◌∙◌, arith}
use uc_vm.Mcs51.Cpu.{Cpu, Uart}

-- The ranges of `mcs51_uart_t`.
pub record IsUart (u : Uart) : Type 0 where
  pub tx_head_in : u.tx_head < 32
  pub tx_tail_in : u.tx_tail < 32
  pub rx_head_in : u.rx_head < 32
  pub rx_tail_in : u.rx_tail < 32
  pub tx_bytes : (a : ℕ) → u.tx_buf a < 256
  pub rx_bytes : (a : ℕ) → u.rx_buf a < 256

-- The ranges of the C types of the program counter, the internal RAM, the SFRs, the external RAM and
-- the UART of `struct mcs51_cpu`.
pub record IsValid (c : Cpu) : Type 0 where
  pub pc_word : c.pc < 65536
  pub iram_bytes : (a : ℕ) → c.iram a < 256
  pub sfr_bytes : (a : ℕ) → c.sfr a < 256
  pub xram_bytes : (a : ℕ) → c.xram a < 256
  pub uart_valid : IsUart c.uart_state

-- From `c` to `d` no range is left, and nothing changes that only the host may set.
pub record Evolves (c d : Cpu) : Type 0 where
  pub keeps_valid : IsValid c → IsValid d
  pub same_code : d.code ≡ c.code
  pub same_code_size : d.code_size ≡ c.code_size
  pub same_xram_size : d.xram_size ≡ c.xram_size
  pub same_sfr_write : d.sfr_write ≡ c.sfr_write
  pub same_sfr_read : d.sfr_read ≡ c.sfr_read
  pub same_gpio : d.gpio_state ≡ c.gpio_state
  pub same_periph_timer : d.periph_timer ≡ c.periph_timer
  pub same_periph_uart : d.periph_uart ≡ c.periph_uart
  pub same_bridge_cb : d.bridge_cb ≡ c.bridge_cb

pub Evolves-trans : {c d e : Cpu} → Evolves c d → Evolves d e → Evolves c e
Evolves-trans p q = record {
  keeps_valid = λ v. q.keeps_valid (p.keeps_valid v);
  same_code = q.same_code ∙ p.same_code;
  same_code_size = q.same_code_size ∙ p.same_code_size;
  same_xram_size = q.same_xram_size ∙ p.same_xram_size;
  same_sfr_write = q.same_sfr_write ∙ p.same_sfr_write;
  same_sfr_read = q.same_sfr_read ∙ p.same_sfr_read;
  same_gpio = q.same_gpio ∙ p.same_gpio;
  same_periph_timer = q.same_periph_timer ∙ p.same_periph_timer;
  same_periph_uart = q.same_periph_uart ∙ p.same_periph_uart;
  same_bridge_cb = q.same_bridge_cb ∙ p.same_bridge_cb;
}

-- ===== src/Avr/Cpu.antt =====
-- The state of the AVR: `struct avr_cpu` of src/avr/avr_cpu.h with the peripheral structs of
-- src/avr/avr_periph.h, and its stores. A hook that the program registers is a constructor; calls
-- of the host's bridge callback are recorded, newest first. `skip_next` is never read and left out.
use uc_vm.Common.{
  ℕ, ◌+◌, ◌*◌, ◌/◌, ◌%◌, ◌^◌, Bool, Option, List, ◌∷◌, Mem8, update, u8, u16, u64, if◌then◌else◌,
  bit_or,
}
use uc_vm.Mcs51.Cpu.{IoPeriph, BridgeCall}

-- `AVR_STATE_*`.
pub data AvrState : Type 0 where
  avr_running avr_sleeping avr_halted avr_break : AvrState

-- `enum avr_op`, in its order, without the final count.
pub data AvrOp : Type 0 where
  op_add op_adc op_sub op_sbc op_cp op_cpc op_cpse : AvrOp
  op_subi op_sbci op_cpi op_ldi : AvrOp
  op_and op_or op_eor op_andi op_ori : AvrOp
  op_com op_neg op_swap op_inc op_dec op_asr op_lsr op_ror : AvrOp
  op_mov op_movw : AvrOp
  op_adiw op_sbiw : AvrOp
  op_mul op_muls op_mulsu op_fmul op_fmuls op_fmulsu : AvrOp
  op_in op_out op_cbi op_sbi op_sbic op_sbis : AvrOp
  op_rjmp op_rcall op_jmp op_call op_ijmp op_icall op_ret op_reti op_brbs op_brbc : AvrOp
  op_sbrc op_sbrs : AvrOp
  op_bset op_bclr op_bst op_bld : AvrOp
  op_lds op_ld_x op_ld_xp op_ld_mx op_ld_yp op_ld_my op_ldd_y op_ld_zp op_ld_mz op_ldd_z : AvrOp
  op_sts op_st_x op_st_xp op_st_mx op_st_yp op_st_my op_std_y op_st_zp op_st_mz op_std_z : AvrOp
  op_push op_pop : AvrOp
  op_lpm_r0 op_lpm_rd op_lpm_rdp : AvrOp
  op_subi_brne op_dec_brne op_delay2 op_delay3 : AvrOp
  op_nop op_sleep op_wdr op_break op_spm op_fault op_data : AvrOp

-- `avr_decoded_t`.
pub record Decoded : Type 0 where
  pub op : AvrOp
  pub a : ℕ
  pub b : ℕ

-- The functions that are registered as `io_read` and `io_write` hooks.
pub data IoReadFn : Type 0 where
  sreg_read spl_read sph_read timer_read pin_read port_read ddr_read : IoReadFn
  udr_read ucsra_read generic_read : IoReadFn

pub data IoWriteFn : Type 0 where
  sreg_write spl_write sph_write timer_write pin_write port_write ddr_write : IoWriteFn
  udr_write ucsra_write ucsrb_write adc_write : IoWriteFn

-- `avr_variant_t`, without its name and the size of the EEPROM.
pub record Variant : Type 0 where
  pub data_size : ℕ
  pub sram_start : ℕ
  pub num_vectors : ℕ
  pub vector_size : ℕ
  pub flags : ℕ

-- `avr_timer0_config_t`.
pub record Timer0Config : Type 0 where
  pub tccr0a : ℕ
  pub tccr0b : ℕ
  pub tcnt0 : ℕ
  pub ocr0a : ℕ
  pub ocr0b : ℕ
  pub timsk : ℕ
  pub tifr : ℕ
  pub toie_bit : ℕ
  pub ocie0a_bit : ℕ
  pub tov_vec : ℕ
  pub oca_vec : ℕ

-- `avr_timer0_t`.
pub record Timer0 : Type 0 where
  pub config : Timer0Config
  pub prescaler_count : ℕ
  pub counting_up : Bool

-- `avr_gpio_port_config_t`, without the number of pins, which nothing reads.
pub record PortConfig : Type 0 where
  pub pin_io : ℕ
  pub ddr_io : ℕ
  pub port_io : ℕ
  pub port_id : ℕ

-- `avr_gpio_t`.
pub record AvrGpio : Type 0 where
  pub ports : List PortConfig
  pub ext_pins : Mem8

-- `avr_uart_config_t`.
pub record UartConfig : Type 0 where
  pub udr_io : ℕ
  pub ucsra_io : ℕ
  pub ucsrb_io : ℕ
  pub ucsrc_io : ℕ
  pub ubrrl_io : ℕ
  pub ubrrh_io : ℕ
  pub rxc_vec : ℕ
  pub udre_vec : ℕ
  pub txc_vec : ℕ

-- `avr_uart_t`.
pub record AvrUart : Type 0 where
  pub config : UartConfig
  pub tx_buf : Mem8
  pub tx_head : ℕ
  pub tx_tail : ℕ
  pub rx_buf : Mem8
  pub rx_head : ℕ
  pub rx_tail : ℕ

-- `struct avr_cpu`; its array `data` is `mem`. `periph_timer`, `periph_uart` and `bridge_cb` say
-- that the pointer is not null; `timer`, `gpio` and `uart` are the objects behind the hooks'
-- contexts. `mem` has a byte at every index; the array ends at the variant's data size.
pub record AvrCpu : Type 0 where
  pub pc : ℕ
  pub sreg : ℕ
  pub sp : ℕ
  pub cycles : ℕ
  pub state : AvrState
  pub periph_accum : ℕ
  pub flash : ℕ → ℕ
  pub flash_size : ℕ
  pub variant : Variant
  pub io_read : ℕ → Option IoReadFn
  pub io_write : ℕ → Option IoWriteFn
  pub irq_pending : ℕ
  pub periph_timer : Bool
  pub timer : Timer0
  pub gpio : AvrGpio
  pub periph_uart : Bool
  pub uart : AvrUart
  pub decode_cache : ℕ → Decoded
  pub bridge_cb : Bool
  pub bridge_log : List BridgeCall
  pub mem : Mem8

-- The stores: each keeps what its C type keeps.
unfoldable pub set_pc : AvrCpu → ℕ → AvrCpu
set_pc c v = record c { pc = u16 v }

unfoldable pub set_sreg : AvrCpu → ℕ → AvrCpu
set_sreg c v = record c { sreg = u8 v }

unfoldable pub set_sp : AvrCpu → ℕ → AvrCpu
set_sp c v = record c { sp = u16 v }

unfoldable pub set_mem : AvrCpu → ℕ → ℕ → AvrCpu
set_mem c i v = record c { mem = update c.mem i (u8 v) }

unfoldable pub set_avr_state : AvrCpu → AvrState → AvrCpu
set_avr_state c s = record c { state = s }

unfoldable pub set_periph_accum : AvrCpu → ℕ → AvrCpu
set_periph_accum c v = record c { periph_accum = u16 v }

unfoldable pub add_cycles : AvrCpu → ℕ → AvrCpu
add_cycles c n = record c { cycles = u64 (c.cycles + n) }

unfoldable pub set_irq_pending : AvrCpu → ℕ → AvrCpu
set_irq_pending c v = record c { irq_pending = v % 2 ^ 32 }

-- `irq_pending |= 1u << vec`; a vector is below 32.
unfoldable pub raise_irq : AvrCpu → ℕ → AvrCpu
raise_irq c vec = set_irq_pending c (bit_or c.irq_pending (2 ^ vec))

unfoldable pub set_avr_uart : AvrCpu → AvrUart → AvrCpu
set_avr_uart c u = record c { uart = u }

unfoldable pub set_counter : AvrCpu → ℕ → Bool → AvrCpu
set_counter c n up = record c {
  timer = record c.timer { prescaler_count = u16 n; counting_up = up };
}

-- `if (bridge_cb) bridge_cb(bridge_ctx, periph, resource, value)`.
unfoldable pub avr_call_bridge : AvrCpu → IoPeriph → ℕ → ℕ → AvrCpu
avr_call_bridge c p r v =
    if c.bridge_cb
    then record c { bridge_log = record { periph = p; resource = r; value = v } ∷ c.bridge_log }
    else c

-- The macros AVR_R, AVR_X, AVR_Y, AVR_Z and AVR_REGW; a register is below 256.
abbrev pub avr_r : AvrCpu → ℕ → ℕ
avr_r c n = c.mem n

unfoldable pub regw : AvrCpu → ℕ → ℕ
regw c n = u16 (c.mem n + c.mem (n + 1) * 256)

unfoldable pub set_regw : AvrCpu → ℕ → ℕ → AvrCpu
set_regw c n v = set_mem (set_mem c n (v % 256)) (n + 1) (v / 256)

abbrev pub reg_x : ℕ
reg_x = 26

abbrev pub reg_y : ℕ
reg_y = 28

abbrev pub reg_z : ℕ
reg_z = 30

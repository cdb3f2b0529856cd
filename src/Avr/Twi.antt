-- ===== src/Avr/Twi.antt =====
-- The two-wire interface: src/avr/avr_twi.c with its types of src/avr/avr_periph.h. The registers
-- are in the data space of the CPU, and the object of the interface stands beside the CPU. What is
-- attached to the bus is a parameter, with its own state.
use uc_vm.Common.{
  ℕ, ◌+◌, ◌*◌, ◌%◌, Bool, false, Option, none, some, if◌then◌else◌, ltb, nonzero, bit_and, bit_or,
  ◌==◌,
}
use uc_vm.Avr.Cpu.{AvrCpu, set_mem, raise_irq}

-- `avr_twi_bus_t`; none stands for a null pointer. An acknowledge is `true`, and a negative result
-- of a read is none.
pub record TwiBus (Ctx : Type 0) : Type 0 where
  pub start : Option (Ctx → Ctx)
  pub write_byte : Option (Ctx → ℕ → Bool × Ctx)
  pub read_byte : Option (Ctx → Bool → Option ℕ × Ctx)
  pub stop : Option (Ctx → Ctx)

-- `avr_twi_config_t`.
pub record TwiConfig : Type 0 where
  pub twbr_io : ℕ
  pub twsr_io : ℕ
  pub twar_io : ℕ
  pub twdr_io : ℕ
  pub twcr_io : ℕ
  pub twamr_io : ℕ
  pub twi_vec : ℕ

-- The states of the bus, and the operations in progress.
pub data TwiState : Type 0 where
  twi_idle start_sent mt_addr_sent mt_data_sent mr_addr_sent mr_data_received : TwiState

pub data TwiOp : Type 0 where
  twi_none twi_start twi_sla_w twi_sla_r twi_data_tx twi_data_rx twi_stop : TwiOp

-- `avr_twi_t`, with the object behind `bus->ctx`.
pub record Twi (Ctx : Type 0) : Type 0 where
  pub config : TwiConfig
  pub bus : Option (TwiBus Ctx)
  pub bus_ctx : Ctx
  pub bus_state : TwiState
  pub status : ℕ
  pub slave_rw : Bool
  pub cycles_remaining : ℕ
  pub pending_op : TwiOp
  pub pending_data : ℕ
  pub pending_ack : Bool

-- `prescaler_values`.
unfoldable pub twi_prescaler : ℕ → ℕ
twi_prescaler n = if n == 0 then 1 else if n == 1 then 4 else if n == 2 then 16 else 64

unfoldable pub scl_period : AvrCpu → TwiConfig → ℕ
scl_period c cfg =
    let twbr = c.mem (cfg.twbr_io + 0x20) in
    let twsr = c.mem (cfg.twsr_io + 0x20) in
    let period = 16 + 2 * (twbr * twi_prescaler (twsr % 4)) in if ltb period 16 then 16 else period

-- The hooks of the registers. `twbr_write` and `twar_write` store the byte, and `twcr_read` and
-- `twdr_read` load it.
unfoldable pub twi_load : AvrCpu → ℕ → ℕ
twi_load c io_addr = c.mem (io_addr + 0x20)

unfoldable pub twi_store : AvrCpu → ℕ → ℕ → AvrCpu
twi_store c io_addr val = set_mem c (io_addr + 0x20) val

unfoldable pub twsr_write : AvrCpu → ℕ → ℕ → AvrCpu
twsr_write c io_addr val =
    set_mem c (io_addr + 0x20) (bit_or (bit_and (c.mem (io_addr + 0x20)) 0xFC) (val % 4))

unfoldable pub twamr_write : AvrCpu → ℕ → ℕ → AvrCpu
twamr_write c io_addr val = set_mem c (io_addr + 0x20) (bit_and val 0xFE)

module _ {Ctx : Type 0} where
  unfoldable pub twsr_read : AvrCpu → ℕ → Twi Ctx → ℕ
  twsr_read c io_addr twi = bit_or (bit_and twi.status 0xF8) (c.mem (io_addr + 0x20) % 4)

  -- A write while TWINT is low sets TWWC, and is done all the same.
  unfoldable pub twdr_write : AvrCpu → ℕ → ℕ → Twi Ctx → AvrCpu
  twdr_write c io_addr val twi =
      let at = twi.config.twcr_io + 0x20 in
      let twcr = c.mem at in
      let c1 =
        if nonzero (bit_and twcr 0x80)
        then set_mem c at (bit_and twcr 0xF7)
        else set_mem c at (bit_or twcr 0x08) in
      set_mem c1 (io_addr + 0x20) val

  unfoldable pub twi_set_twint : AvrCpu → Twi Ctx → AvrCpu
  twi_set_twint c twi =
      let at = twi.config.twcr_io + 0x20 in
      let c1 = set_mem c at (bit_or (c.mem at) 0x80) in
      if nonzero (bit_and (c1.mem at) 0x01) then raise_irq c1 twi.config.twi_vec else c1

  -- The calls of the bus, if there is one and it has the operation.
  unfoldable pub bus_start : Twi Ctx → Ctx
  bus_start twi = elim twi.bus [
    | none ↦ twi.bus_ctx
    | some b ↦ elim b.start [ none ↦ twi.bus_ctx | some f ↦ f twi.bus_ctx ]
  ]

  unfoldable pub bus_write : Twi Ctx → Bool × Ctx
  bus_write twi = elim twi.bus [
    | none ↦ (false, twi.bus_ctx)
    | some b ↦ elim b.write_byte [
      | none ↦ (false, twi.bus_ctx)
      | some f ↦ f twi.bus_ctx twi.pending_data
    ]
  ]

  unfoldable pub bus_read : Twi Ctx → Option ℕ × Ctx
  bus_read twi = elim twi.bus [
    | none ↦ (none, twi.bus_ctx)
    | some b ↦ elim b.read_byte [
      | none ↦ (none, twi.bus_ctx)
      | some f ↦ f twi.bus_ctx twi.pending_ack
    ]
  ]

  unfoldable pub bus_stop : Twi Ctx → Ctx
  bus_stop twi = elim twi.bus [
    | none ↦ twi.bus_ctx
    | some b ↦ elim b.stop [ none ↦ twi.bus_ctx | some f ↦ f twi.bus_ctx ]
  ]

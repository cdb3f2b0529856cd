-- ===== src/Avr/TwiOps.antt =====
-- The operations of the two-wire interface: what completes and what is started next, the write of
-- TWCR and the tick of src/avr/avr_twi.c.
use uc_vm.Common.{
  ℕ, ◌+◌, ◌-◌, ◌*◌, Bool, true, false, Option, none, some, if◌then◌else◌, leb, nonzero, bit_and,
  bit_or, ◌==◌, ◌||◌,
}
use uc_vm.Avr.Cpu.{AvrCpu, set_mem}
use uc_vm.Avr.Twi.{
  Twi, TwiBus, TwiConfig, TwiState, twi_idle, start_sent, mt_addr_sent, mt_data_sent, mr_addr_sent,
  mr_data_received, TwiOp, twi_none, twi_start, twi_sla_w, twi_sla_r, twi_data_tx, twi_data_rx,
  twi_stop, scl_period, twi_set_twint, bus_start, bus_write, bus_read, bus_stop,
}

unfoldable pub is_idle : TwiState → Bool
is_idle twi_idle = true
is_idle start_sent = false
is_idle mt_addr_sent = false
is_idle mt_data_sent = false
is_idle mr_addr_sent = false
is_idle mr_data_received = false

unfoldable pub is_none_op : TwiOp → Bool
is_none_op twi_none = true
is_none_op twi_start = false
is_none_op twi_sla_w = false
is_none_op twi_sla_r = false
is_none_op twi_data_tx = false
is_none_op twi_data_rx = false
is_none_op twi_stop = false

module _ {Ctx : Type 0} where
  -- A byte sent, with the status and the state that follow.
  unfoldable pub sent_byte : AvrCpu → Twi Ctx → ℕ → ℕ → TwiState → Bool → AvrCpu × Twi Ctx
  unfolding bus_write
  sent_byte c twi acked refused state rw =
      let (ack, ctx) = bus_write twi in
      let twi1 = record twi {
        bus_ctx = ctx;
        status = if ack then acked else refused;
        bus_state = state;
        slave_rw = rw;
      } in
      (twi_set_twint c twi1, twi1)

  -- The switch of `twi_complete_op`.
  unfoldable pub finish_op : TwiOp → AvrCpu → Twi Ctx → AvrCpu × Twi Ctx
  unfolding sent_byte bus_start bus_read bus_stop is_idle
  finish_op twi_none c twi = (c, twi)
  finish_op twi_start c twi =
      let twi1 = record twi {
        bus_ctx = bus_start twi;
        status = if is_idle twi.bus_state then 0x08 else 0x10;
        bus_state = start_sent;
      } in
      (twi_set_twint c twi1, twi1)
  finish_op twi_sla_w c twi = sent_byte c twi 0x18 0x20 mt_addr_sent false
  finish_op twi_sla_r c twi = sent_byte c twi 0x40 0x48 mr_addr_sent true
  finish_op twi_data_tx c twi = sent_byte c twi 0x28 0x30 mt_data_sent twi.slave_rw
  finish_op twi_data_rx c twi =
      let (byte, ctx) = bus_read twi in
      let val : ℕ = elim byte [ none ↦ 0xFF | some b ↦ b ] in
      let c1 = set_mem c (twi.config.twdr_io + 0x20) val in
      let twi1 = record twi {
        bus_ctx = ctx;
        status = if twi.pending_ack then 0x50 else 0x58;
        bus_state = mr_data_received;
      } in
      (twi_set_twint c1 twi1, twi1)
  finish_op twi_stop c twi =
      let at = twi.config.twcr_io + 0x20 in
      (
        set_mem c at (bit_and (c.mem at) 0xEF),
        record twi { bus_ctx = bus_stop twi; bus_state = twi_idle; status = 0xF8 },
      )

  unfoldable pub twi_complete_op : AvrCpu → Twi Ctx → AvrCpu × Twi Ctx
  unfolding finish_op
  twi_complete_op c twi =
      finish_op twi.pending_op c (record twi { pending_op = twi_none; cycles_remaining = 0 })

  -- The operation that follows when neither START nor STOP is asked for, by the state of the bus.
  unfoldable pub next_op : TwiState → AvrCpu → Twi Ctx → ℕ → ℕ → Twi Ctx
  next_op twi_idle c twi val scl = twi
  next_op start_sent c twi val scl =
      let sla = c.mem (twi.config.twdr_io + 0x20) in
      record twi {
        pending_data = sla;
        pending_op = if nonzero (bit_and sla 0x01) then twi_sla_r else twi_sla_w;
        cycles_remaining = 9 * scl;
      }
  next_op mt_addr_sent c twi val scl = record twi {
    pending_data = c.mem (twi.config.twdr_io + 0x20);
    pending_op = twi_data_tx;
    cycles_remaining = 9 * scl;
  }
  next_op mt_data_sent c twi val scl = record twi {
    pending_data = c.mem (twi.config.twdr_io + 0x20);
    pending_op = twi_data_tx;
    cycles_remaining = 9 * scl;
  }
  next_op mr_addr_sent c twi val scl = record twi {
    pending_ack = nonzero (bit_and val 0x40);
    pending_op = twi_data_rx;
    cycles_remaining = 9 * scl;
  }
  next_op mr_data_received c twi val scl = record twi {
    pending_ack = nonzero (bit_and val 0x40);
    pending_op = twi_data_rx;
    cycles_remaining = 9 * scl;
  }

  -- What `twcr_write` starts once TWINT was cleared.
  unfoldable pub start_op : AvrCpu → Twi Ctx → ℕ → AvrCpu × Twi Ctx
  unfolding next_op twi_complete_op
  start_op c twi val =
      let scl = scl_period c twi.config in
      let stopping = record twi { pending_op = twi_stop; cycles_remaining = scl } in
      let (c1, stopped) = twi_complete_op c stopping in
      let starting : Twi Ctx → Twi Ctx =
        λ t. record t { pending_op = twi_start; cycles_remaining = scl } in
      if nonzero (bit_and val 0x10)
      then if nonzero (bit_and val 0x20) then (c1, starting stopped) else (c, stopping)
      else if nonzero (bit_and val 0x20)
      then (c, starting twi)
      else (c, next_op twi.bus_state c twi val scl)

  -- TWINT is cleared by writing 1 to it, and TWWC is not written.
  unfoldable pub twcr_write : AvrCpu → ℕ → ℕ → Twi Ctx → AvrCpu × Twi Ctx
  unfolding start_op
  twcr_write c io_addr val twi =
      let at = io_addr + 0x20 in
      let clearing = nonzero (bit_and val 0x80) in
      let kept = bit_or (bit_and val 0xF7) (bit_and (c.mem at) 0x08) in
      let c1 = set_mem c at (if clearing then bit_and kept 0x7F else kept) in
      let go = start_op c1 twi val in
      if nonzero (bit_and val 0x04) then if clearing then go else (c1, twi) else (
        set_mem c at (bit_and val 0x6F),
        record twi {
          pending_op = twi_none;
          cycles_remaining = 0;
          bus_state = twi_idle;
          status = 0xF8;
        },
      )

  unfoldable pub avr_twi_tick : AvrCpu → Twi Ctx → ℕ → AvrCpu × Twi Ctx
  unfolding twi_complete_op is_none_op
  avr_twi_tick c twi cycles =
      let done = twi_complete_op c twi in
      if is_none_op twi.pending_op || (twi.cycles_remaining == 0)
      then (c, twi)
      else if leb twi.cycles_remaining cycles
      then done
      else (c, record twi { cycles_remaining = twi.cycles_remaining - cycles })

  -- `avr_twi_init`, but for the registration of the hooks.
  unfoldable pub avr_twi_init : AvrCpu → TwiConfig → Ctx → AvrCpu × Twi Ctx
  avr_twi_init c cfg ctx = (
    set_mem c (cfg.twsr_io + 0x20) 0xF8,
    record {
      config = cfg;
      bus = none;
      bus_ctx = ctx;
      bus_state = twi_idle;
      status = 0xF8;
      slave_rw = false;
      cycles_remaining = 0;
      pending_op = twi_none;
      pending_data = 0;
      pending_ack = false;
    },
  )

  -- `avr_twi_set_bus`.
  unfoldable pub avr_twi_set_bus : Twi Ctx → Option (TwiBus Ctx) → Ctx → Twi Ctx
  avr_twi_set_bus twi bus ctx = record twi { bus = bus; bus_ctx = ctx }

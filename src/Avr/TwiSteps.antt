-- ===== src/Avr/TwiSteps.antt =====
-- The steps of a transfer over the two-wire interface of src/avr/avr_twi.c with the slave of
-- src/avr/avr_twi_slave.c, as firmware makes them: it writes TWDR and TWCR, and goes on when the
-- operation has completed.
use uc_vm.Common.{
  ℕ, ◌+◌, ◌<◌, ◌≡◌, ◌≢◌, ◌∙◌, refl, ap, arith, Bool, true, false, some, if◌then◌else◌, nonzero,
  bit_and, bit_or, u8,
}
use uc_vm.Avr.Cpu.{AvrCpu, set_mem, raise_irq, set_irq_pending}
use uc_vm.Avr.Twi.{
  Twi, TwiConfig, TwiState, TwiOp, twi_start, twi_data_rx, twi_stop, twi_idle, start_sent,
  mt_addr_sent, mt_data_sent, mr_addr_sent, mr_data_received, twi_none, twi_sla_w, twi_sla_r,
  twi_data_tx, twdr_write, twi_set_twint, bus_start, bus_read, bus_stop,
}
use uc_vm.Avr.TwiOps.{is_idle, finish_op, sent_byte, twi_complete_op, next_op, start_op, twcr_write}
use uc_vm.Avr.TwiSlave.{VirtSlave, virt_start, virt_read, virt_stop, virt_bus}

-- An interface at rest, with the slave on its bus.
abbrev pub at_bus : TwiConfig → VirtSlave → TwiState → ℕ → Bool → ℕ → Bool → Twi VirtSlave
at_bus cfg s state x dir d k = record {
  config = cfg;
  bus = some virt_bus;
  bus_ctx = s;
  bus_state = state;
  status = x;
  slave_rw = dir;
  cycles_remaining = 0;
  pending_op = twi_none;
  pending_data = d;
  pending_ack = k;
}

-- A write of TWCR, and what it starts completes.
abbrev pub perform : ℕ → AvrCpu × Twi VirtSlave → AvrCpu × Twi VirtSlave
perform val (c, twi) =
    let (c1, t1) = twcr_write c twi.config.twcr_io val twi in twi_complete_op c1 t1

-- START, STOP, a byte sent, and a byte received without an acknowledge.
abbrev pub begin : AvrCpu × Twi VirtSlave → AvrCpu × Twi VirtSlave
begin m = perform 0xA4 m

abbrev pub conclude : AvrCpu × Twi VirtSlave → AvrCpu × Twi VirtSlave
conclude m = perform 0x94 m

abbrev pub receive : AvrCpu × Twi VirtSlave → AvrCpu × Twi VirtSlave
receive m = perform 0x84 m

abbrev pub send : ℕ → AvrCpu × Twi VirtSlave → AvrCpu × Twi VirtSlave
send b (c, twi) = perform 0x84 (twdr_write c twi.config.twdr_io b twi, twi)

pub begin-at_bus :
    (c : AvrCpu) (cfg : TwiConfig) (s : VirtSlave) (st : TwiState) (x d : ℕ) (dir k : Bool)
    → (begin (c, at_bus cfg s st x dir d k)).1
      ≡ at_bus cfg (virt_start s) start_sent (if is_idle st then 0x08 else 0x10) dir d k
unfolding twcr_write start_op twi_complete_op finish_op bus_start
begin-at_bus c cfg s st x d dir k = refl

pub conclude-at_bus :
    (c : AvrCpu) (cfg : TwiConfig) (s : VirtSlave) (st : TwiState) (x d : ℕ) (dir k : Bool)
    → (conclude (c, at_bus cfg s st x dir d k)).1 ≡ at_bus cfg (virt_stop s) twi_idle 0xF8 dir d k
unfolding twcr_write start_op twi_complete_op finish_op bus_stop
conclude-at_bus c cfg s st x d dir k = refl

-- TWDR after the write of TWCR.
twdr_kept :
    (c : AvrCpu) (cfg : TwiConfig) (b v : ℕ)
    → b < 256
    → cfg.twdr_io ≢ cfg.twcr_io
    → (set_mem (set_mem c (cfg.twdr_io + 0x20) b) (cfg.twcr_io + 0x20) v).mem (cfg.twdr_io + 0x20)
      ≡ b
unfolding set_mem
twdr_kept c cfg b v h apart = ground (arith, h, apart)

-- What becomes of the interface does not depend on the CPU.
finish_op_any :
    (o : TwiOp) (c c1 : AvrCpu) (twi : Twi VirtSlave)
    → (finish_op o c twi).1 ≡ (finish_op o c1 twi).1
unfolding finish_op sent_byte
finish_op_any twi_none c c1 twi = refl
finish_op_any twi_start c c1 twi = refl
finish_op_any twi_sla_w c c1 twi = refl
finish_op_any twi_sla_r c c1 twi = refl
finish_op_any twi_data_tx c c1 twi = refl
finish_op_any twi_data_rx c c1 twi = refl
finish_op_any twi_stop c c1 twi = refl

-- The CPU after the write of TWDR has left TWWC clear, or set it.
abbrev noted : AvrCpu → TwiConfig → AvrCpu
noted c cfg =
    let at = cfg.twcr_io + 0x20 in
    if nonzero (bit_and (c.mem at) 0x80)
    then set_mem c at (bit_and (c.mem at) 0xF7)
    else set_mem c at (bit_or (c.mem at) 0x08)

-- The CPU after TWDR and TWCR were written.
abbrev written : AvrCpu → TwiConfig → ℕ → AvrCpu
written c cfg b =
    let c0 = set_mem (noted c cfg) (cfg.twdr_io + 0x20) b in
    set_mem c0 (cfg.twcr_io + 0x20)
      (bit_and (bit_or 0x84 (bit_and (c0.mem (cfg.twcr_io + 0x20)) 0x08)) 0x7F)

abbrev pub sla : Bool → TwiOp
sla reading = if reading then twi_sla_r else twi_sla_w

pub send-start_sent :
    (c : AvrCpu) (cfg : TwiConfig) (s : VirtSlave) (x d b : ℕ) (dir k reading : Bool)
    → nonzero (bit_and b 1) ≡ reading
    → b < 256
    → cfg.twdr_io ≢ cfg.twcr_io
    → (send b (c, at_bus cfg s start_sent x dir d k)).1
      ≡ (finish_op (sla reading) c (at_bus cfg s start_sent x dir b k)).1
unfolding twcr_write start_op next_op twi_complete_op twdr_write
send-start_sent c cfg s x d b dir k reading even h apart =
    let c1 = written c cfg b in
    ap (λ t. (finish_op (sla (nonzero (bit_and t 1))) c1 (at_bus cfg s start_sent x dir t k)).1)
      (twdr_kept (noted c cfg) cfg b _ h apart)
    ∙ ap (λ r. (finish_op (sla r) c1 (at_bus cfg s start_sent x dir b k)).1) even
    ∙ finish_op_any (sla reading) c1 c (at_bus cfg s start_sent x dir b k)

pub send-mt_addr_sent :
    (c : AvrCpu) (cfg : TwiConfig) (s : VirtSlave) (x d b : ℕ) (dir k : Bool)
    → b < 256
    → cfg.twdr_io ≢ cfg.twcr_io
    → (send b (c, at_bus cfg s mt_addr_sent x dir d k)).1
      ≡ (finish_op twi_data_tx c (at_bus cfg s mt_addr_sent x dir b k)).1
unfolding twcr_write start_op next_op twi_complete_op twdr_write
send-mt_addr_sent c cfg s x d b dir k h apart =
    let c1 = written c cfg b in
    ap (λ t. (finish_op twi_data_tx c1 (at_bus cfg s mt_addr_sent x dir t k)).1)
      (twdr_kept (noted c cfg) cfg b _ h apart)
    ∙ finish_op_any twi_data_tx c1 c (at_bus cfg s mt_addr_sent x dir b k)

pub send-mt_data_sent :
    (c : AvrCpu) (cfg : TwiConfig) (s : VirtSlave) (x d b : ℕ) (dir k : Bool)
    → b < 256
    → cfg.twdr_io ≢ cfg.twcr_io
    → (send b (c, at_bus cfg s mt_data_sent x dir d k)).1
      ≡ (finish_op twi_data_tx c (at_bus cfg s mt_data_sent x dir b k)).1
unfolding twcr_write start_op next_op twi_complete_op twdr_write
send-mt_data_sent c cfg s x d b dir k h apart =
    let c1 = written c cfg b in
    ap (λ t. (finish_op twi_data_tx c1 (at_bus cfg s mt_data_sent x dir t k)).1)
      (twdr_kept (noted c cfg) cfg b _ h apart)
    ∙ finish_op_any twi_data_tx c1 c (at_bus cfg s mt_data_sent x dir b k)

twdr-twi_set_twint :
    (c : AvrCpu) (twi : Twi VirtSlave)
    → twi.config.twdr_io ≢ twi.config.twcr_io
    → (twi_set_twint c twi).mem (twi.config.twdr_io + 0x20) ≡ c.mem (twi.config.twdr_io + 0x20)
unfolding twi_set_twint set_mem raise_irq set_irq_pending
twdr-twi_set_twint c twi apart = ground (arith, apart)

pub twdr-receive :
    (c : AvrCpu) (cfg : TwiConfig) (s : VirtSlave) (x d : ℕ) (dir k : Bool)
    → s.addressed ≡ true
    → cfg.twdr_io ≢ cfg.twcr_io
    → (receive (c, at_bus cfg s mr_addr_sent x dir d k)).0.mem (cfg.twdr_io + 0x20)
      ≡ u8 (s.regs s.reg_ptr)
unfolding twcr_write start_op next_op twi_complete_op finish_op bus_read virt_read set_mem
twdr-receive c cfg s x d dir k on apart = twdr-twi_set_twint _ _ apart ∙ ground (arith, on)

pub twdr-conclude :
    (c : AvrCpu) (cfg : TwiConfig) (s : VirtSlave) (st : TwiState) (x d : ℕ) (dir k : Bool)
    → cfg.twdr_io ≢ cfg.twcr_io
    → (conclude (c, at_bus cfg s st x dir d k)).0.mem (cfg.twdr_io + 0x20)
      ≡ c.mem (cfg.twdr_io + 0x20)
unfolding twcr_write start_op twi_complete_op finish_op set_mem
twdr-conclude c cfg s st x d dir k apart = ground (arith, apart)

pub receive-at_bus :
    (c : AvrCpu) (cfg : TwiConfig) (s : VirtSlave) (x d : ℕ) (dir k : Bool)
    → (receive (c, at_bus cfg s mr_addr_sent x dir d k)).1
      ≡ at_bus cfg (virt_read s false).1 mr_data_received 0x58 dir d false
unfolding twcr_write start_op next_op twi_complete_op finish_op bus_read
receive-at_bus c cfg s x d dir k = refl

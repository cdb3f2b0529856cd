-- ===== src/Avr/TwiTransfer.antt =====
-- Registers of the slave of src/avr/avr_twi_slave.c, written and read by firmware over the two-wire
-- interface of src/avr/avr_twi.c.
use uc_vm.Common.{
  ℕ, ◌+◌, ◌*◌, ◌/◌, ◌%◌, ◌<◌, ◌≡◌, ◌≢◌, ◌∙◌, refl, ap, arith, Bool, true, false, if◌then◌else◌,
  nonzero, bit_and, ◌==◌, update, u8, update_self, bit_at, nonzero-bit_and,
}
use native.Mathlib.Nat.{mod-eq_of_lt}
use uc_vm.Avr.Cpu.{AvrCpu}
use uc_vm.Avr.Twi.{
  Twi, TwiConfig, TwiState, twi_idle, mt_addr_sent, mt_data_sent, mr_addr_sent, mr_data_received,
  twi_load, bus_write,
}
use uc_vm.Avr.TwiOps.{is_idle, finish_op, sent_byte}
use uc_vm.Avr.TwiSlave.{VirtSlave, virt_start, virt_write, virt_stop}
use uc_vm.Avr.TwiSteps.{
  at_bus, begin, conclude, receive, send, begin-at_bus, conclude-at_bus, receive-at_bus,
  send-start_sent, send-mt_addr_sent, send-mt_data_sent, twdr-receive, twdr-conclude,
}

-- The first bit of the address byte, and the slave that it is for.
low_bit : (b : ℕ) → nonzero (bit_and b 1) ≡ (b % 2 == 1)
unfolding bit_at
low_bit b = nonzero-bit_and 0 b

abbrev called : VirtSlave → Bool → VirtSlave
called s first = record s { addressed = true; first_byte = first }

virt_write-addr :
    (s : VirtSlave) (i : ℕ)
    → i < 2
    → virt_write (virt_start s) (s.addr * 2 + i) ≡ (true, called s (i == 0))
unfolding virt_write virt_start
virt_write-addr s i h =
    let mine : ((s.addr * 2 + i) / 2 == s.addr) ≡ true = ground (arith, h) in
    let dir : ((s.addr * 2 + i) % 2 == 0) ≡ (i == 0) = ground (arith, h) in rw (mine, dir) refl

-- START and the address of the slave, with the direction.
abbrev call : ℕ → AvrCpu × Twi VirtSlave → AvrCpu × Twi VirtSlave
call b m = send b (begin m)

call-write :
    (c : AvrCpu) (cfg : TwiConfig) (s : VirtSlave) (st : TwiState) (x d : ℕ) (dir k : Bool)
    → s.addr < 128
    → cfg.twdr_io ≢ cfg.twcr_io
    → (call (s.addr * 2 + 0) (c, at_bus cfg s st x dir d k)).1
      ≡ at_bus cfg (called s true) mt_addr_sent 0x18 false (s.addr * 2 + 0) k
unfolding finish_op sent_byte bus_write
call-write c cfg s st x d dir k h apart =
    let m = begin (c, at_bus cfg s st x dir d k) in
    let b = s.addr * 2 + 0 in
    let y : ℕ = if is_idle st then 0x08 else 0x10 in
    ap (λ t. (send b (m.0, t)).1) (begin-at_bus c cfg s st x d dir k)
    ∙ send-start_sent m.0 cfg (virt_start s) y d b dir k false (low_bit b ∙ ground arith)
        (omega (arith, h)) apart
    ∙ ap (λ w. at_bus cfg w.1 mt_addr_sent (if w.0 then 0x18 else 0x20) false b k)
        (virt_write-addr s 0 (omega arith))

call-read :
    (c : AvrCpu) (cfg : TwiConfig) (s : VirtSlave) (st : TwiState) (x d : ℕ) (dir k : Bool)
    → s.addr < 128
    → cfg.twdr_io ≢ cfg.twcr_io
    → (call (s.addr * 2 + 1) (c, at_bus cfg s st x dir d k)).1
      ≡ at_bus cfg (called s false) mr_addr_sent 0x40 true (s.addr * 2 + 1) k
unfolding finish_op sent_byte bus_write
call-read c cfg s st x d dir k h apart =
    let m = begin (c, at_bus cfg s st x dir d k) in
    let b = s.addr * 2 + 1 in
    let y : ℕ = if is_idle st then 0x08 else 0x10 in
    ap (λ t. (send b (m.0, t)).1) (begin-at_bus c cfg s st x d dir k)
    ∙ send-start_sent m.0 cfg (virt_start s) y d b dir k true (low_bit b ∙ ground arith)
        (omega (arith, h)) apart
    ∙ ap (λ w. at_bus cfg w.1 mr_addr_sent (if w.0 then 0x40 else 0x48) true b k)
        (virt_write-addr s 1 (omega arith))

-- The address of a register behind the address of the slave.
abbrev pub select : ℕ → ℕ → AvrCpu × Twi VirtSlave → AvrCpu × Twi VirtSlave
select a r m = send r (call (a * 2 + 0) m)

select-at_bus :
    (c : AvrCpu) (cfg : TwiConfig) (s : VirtSlave) (st : TwiState) (x d r : ℕ) (dir k : Bool)
    → s.addr < 128
    → r < 256
    → cfg.twdr_io ≢ cfg.twcr_io
    → (select s.addr r (c, at_bus cfg s st x dir d k)).1
      ≡ at_bus cfg
          (record s { addressed = true; first_byte = false; reg_ptr = r })
          mt_data_sent
          0x28
          false
          r
          k
unfolding finish_op sent_byte bus_write virt_write
select-at_bus c cfg s st x d r dir k h hr apart =
    let m = call (s.addr * 2 + 0) (c, at_bus cfg s st x dir d k) in
    ap (λ t. (send r (m.0, t)).1) (call-write c cfg s st x d dir k h apart)
    ∙ send-mt_addr_sent m.0 cfg (called s true) 0x18 (s.addr * 2 + 0) r false k hr apart

-- START, the address of the slave, that of a register, a byte, STOP.
abbrev pub write_register : ℕ → ℕ → ℕ → AvrCpu × Twi VirtSlave → AvrCpu × Twi VirtSlave
write_register a r v m = conclude (send v (select a r m))

write_register-at_bus :
    (c : AvrCpu) (cfg : TwiConfig) (s : VirtSlave) (st : TwiState) (x d r v : ℕ) (dir k : Bool)
    → s.addr < 128
    → r < 256
    → v < 256
    → cfg.twdr_io ≢ cfg.twcr_io
    → (write_register s.addr r v (c, at_bus cfg s st x dir d k)).1
      ≡ at_bus cfg
          (record s {
            addressed = false;
            first_byte = false;
            reg_ptr = u8 (r + 1);
            regs = update s.regs r v;
          })
          twi_idle
          0xF8
          false
          v
          k
unfolding finish_op sent_byte bus_write virt_write virt_stop
write_register-at_bus c cfg s st x d r v dir k h hr hv apart =
    let m = select s.addr r (c, at_bus cfg s st x dir d k) in
    let s1 = record s { addressed = true; first_byte = false; reg_ptr = r } in
    let s2 = record s1 { reg_ptr = u8 (r + 1); regs = update s.regs r v } in
    let m1 = send v m in
    let sent : m1.1 ≡ at_bus cfg s2 mt_data_sent 0x28 false v k =
      ap (λ t. (send v (m.0, t)).1) (select-at_bus c cfg s st x d r dir k h hr apart)
      ∙ send-mt_data_sent m.0 cfg s1 0x28 r v false k hv apart in
    ap (λ t. (conclude (m1.0, t)).1) sent ∙ conclude-at_bus m1.0 cfg s2 mt_data_sent 0x28 v false k

-- START, the address of the slave, that of a register, START again, the address for reading, a
-- byte that is not acknowledged, STOP.
abbrev pub read_register : ℕ → ℕ → AvrCpu × Twi VirtSlave → AvrCpu × Twi VirtSlave
read_register a r m = conclude (receive (call (a * 2 + 1) (select a r m)))

twdr-read_register :
    (c : AvrCpu) (cfg : TwiConfig) (s : VirtSlave) (st : TwiState) (x d r : ℕ) (dir k : Bool)
    → s.addr < 128
    → r < 256
    → cfg.twdr_io ≢ cfg.twcr_io
    → (read_register s.addr r (c, at_bus cfg s st x dir d k)).0.mem (cfg.twdr_io + 0x20)
      ≡ u8 (s.regs r)
twdr-read_register c cfg s st x d r dir k h hr apart =
    let at = cfg.twdr_io + 0x20 in
    let m = select s.addr r (c, at_bus cfg s st x dir d k) in
    let s1 = record s { addressed = true; first_byte = false; reg_ptr = r } in
    let m1 = call (s.addr * 2 + 1) m in
    let b = s.addr * 2 + 1 in
    let reading : m1.1 ≡ at_bus cfg (called s1 false) mr_addr_sent 0x40 true b k =
      ap (λ t. (call b (m.0, t)).1) (select-at_bus c cfg s st x d r dir k h hr apart)
      ∙ call-read m.0 cfg s1 mt_data_sent 0x28 r false k h apart in
    let m2 = receive m1 in
    let m3 = receive (m1.0, at_bus cfg (called s1 false) mr_addr_sent 0x40 true b k) in
    ap (λ t. (conclude (receive (m1.0, t))).0.mem at) reading
    ∙ ap (λ t. (conclude (m3.0, t)).0.mem at)
        (receive-at_bus m1.0 cfg (called s1 false) 0x40 b true k)
    ∙ twdr-conclude m3.0 cfg _ mr_data_received 0x58 b true false apart
    ∙ twdr-receive m1.0 cfg (called s1 false) 0x40 b true k refl apart

-- With the virtual slave on the bus of the AVR's two-wire interface, at rest in any state of the
-- bus, the slave's address of 7 bits, a register number and a value of a byte each, and TWDR
-- another register than TWCR: when firmware sends START, the address for writing, the register
-- number, the value and STOP, each operation run to its completion, exactly that register of the
-- slave takes the value, and when it then sends START, the address for writing, the number,
-- START again and the address for reading, receives a byte and sends STOP, it finds the value in
-- TWDR.
pub read_register-write_register :
    (c : AvrCpu) (cfg : TwiConfig) (s : VirtSlave) (st : TwiState) (x d r v : ℕ) (dir k : Bool)
    → s.addr < 128
    → r < 256
    → v < 256
    → cfg.twdr_io ≢ cfg.twcr_io
    → let m = write_register s.addr r v (c, at_bus cfg s st x dir d k) in
      (m.1.bus_ctx.regs ≡ update s.regs r v)
      × (twi_load (read_register s.addr r m).0 cfg.twdr_io ≡ v)
unfolding twi_load
read_register-write_register c cfg s st x d r v dir k h hr hv apart =
    let m = write_register s.addr r v (c, at_bus cfg s st x dir d k) in
    let done = write_register-at_bus c cfg s st x d r v dir k h hr hv apart in
    let s1 = record s {
      addressed = false;
      first_byte = false;
      reg_ptr = u8 (r + 1);
      regs = update s.regs r v;
    } in
    (
      ap (λ t. t.bus_ctx.regs) done,
      ap (λ t. (read_register s.addr r (m.0, t)).0.mem (cfg.twdr_io + 0x20)) done
          ∙ twdr-read_register m.0 cfg s1 twi_idle 0xF8 v r false k h hr apart
          ∙ ap u8 (update_self s.regs r v)
          ∙ mod-eq_of_lt hv,
    )

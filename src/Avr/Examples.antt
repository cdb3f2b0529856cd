-- ===== src/Avr/Examples.antt =====
-- The theorems on the AVR, applied at concrete states of an ATtiny85.
use uc_vm.Common.{
  some, true, inl, [], ◌∷◌, ◌++◌, ℕ, ◌+◌, ◌-◌, ◌/◌, ◌%◌, ◌⊎◌, ◌≡◌, ◌≢◌, refl, arith, update, bit_at,
  false, u8, ltb, ◌||◌, ◌==◌,
}
use uc_vm.Avr.Cpu.{AvrCpu, op_ret, op_reti, op_subi, op_sbci, op_brbc, set_sreg}
use uc_vm.Avr.Decode.Operands.{decoded}
use uc_vm.Avr.Variants.{blank_avr_cpu, avr_attiny85}
use uc_vm.Avr.Exec.Arith.{h_subi, h_sbci, sub8}
use uc_vm.Avr.Exec.Branch.{h_reti, h_brbc}
use uc_vm.Avr.Exec.Fused.{h_subi_brne, h_delay2}
use uc_vm.Avr.Irq.{enter_vector, avr_check_irq}
use uc_vm.Avr.Timer.{timer_loop, timer0_tick, timer_wgm}
use uc_vm.Avr.Prescaler.{turns, counter, waiting, divisor, timer_loop-turns, timer0_tick_normal}
use uc_vm.Avr.Vectors.{IsLowest, NonePending, avr_check_irq-IsLowest}
use uc_vm.Avr.Flags.{flags_add, flags_sub, bit7}
use uc_vm.Avr.Calls.{h_reti-enter_vector}
use uc_vm.Avr.Fusion.Pairs.{and_then, h_subi_brne-h_subi}
use uc_vm.Avr.Fusion.Delay2.{h_delay2-h_subi}
use uc_vm.Avr.Sreg.Arith.{signed, flags_add-FlagsAre, flags_sub-FlagsAre}
use uc_vm.Avr.Sreg.Fields.{FlagsAre}
use uc_vm.Avr.Twi.{Twi, TwiConfig, twi_idle, twi_start, twi_load}
use uc_vm.Avr.TwiOps.{twi_complete_op, is_none_op}
use uc_vm.Avr.TwiSlave.{VirtSlave, new_slave}
use uc_vm.Avr.TwiSteps.{at_bus}
use uc_vm.Avr.TwiTransfer.{write_register, read_register, read_register-write_register}
use uc_vm.Avr.TwiTiming.{twi_ticks, total, twi_ticks-twi_complete_op}
use uc_vm.Avr.Cpu.{avr_running}
use uc_vm.Avr.Memory.{flash_read_byte}
use uc_vm.Avr.HostOps.{avr_load_fw, avr_load_fw-ucfm_save}
use uc_vm.Firmware.Ucfm.{ucfm_save, last_dot}
use uc_vm.Firmware.RoundTrip.{overlay}

-- Interrupts are enabled, SP is in SRAM, R24 is 1, and a delay loop of two bytes stands at 10.
abbrev machine : AvrCpu
unfolding blank_avr_cpu
machine = record (blank_avr_cpu avr_attiny85 (λ _. 0) 64) {
  pc = 10;
  sreg = 0x82;
  sp = 0x200;
  mem = update (λ _. 0) 24 1;
  decode_cache =
      update
        (update (update (λ _. decoded op_ret 0 0) 10 (decoded op_subi 24 1)) 11
          (decoded op_sbci 25 0))
        12 (decoded op_brbc 2 10);
}

h_reti-enter_vector_example :
    let d = (h_reti (decoded op_reti 0 0) (enter_vector machine 5)).1 in
    (d.pc ≡ 10)
    × (d.sp ≡ 0x200)
    × (d.sreg ≡ 0x82)
    × ((a : ℕ)
        → a ≢ 0x200
        → a ≢ 0x200 - 1
        → a ≢ 0x5D
        → a ≢ 0x5E
        → a ≢ 0x5F
        → d.mem a ≡ machine.mem a)
unfolding blank_avr_cpu
h_reti-enter_vector_example =
    h_reti-enter_vector machine 5 (decoded op_reti 0 0)
      (record {
        above_io = omega arith;
        room = omega arith;
        inside = omega arith;
        small = omega arith;
      })
      (omega arith) (omega arith) (omega arith)

h_subi_brne-h_subi_example :
    let c = record machine { pc = 11 } in
    h_subi_brne (decoded op_subi 24 1) c ≡ and_then (h_subi (decoded op_subi 24 1) c) h_brbc
unfolding blank_avr_cpu
h_subi_brne-h_subi_example =
    h_subi_brne-h_subi (record machine { pc = 11 }) (decoded op_subi 24 1) (omega arith) refl

h_delay2-h_subi_example :
    let (o, e) = h_delay2 (decoded op_subi 24 1) machine in
    let (o', e') = and_then (and_then (h_subi (decoded op_subi 24 1) machine) h_sbci) h_brbc in
    (o ≡ o') × (set_sreg e 0 ≡ set_sreg e' 0) × (bit_at 1 e'.sreg ≡ 1 → e ≡ e')
unfolding blank_avr_cpu
h_delay2-h_subi_example = h_delay2-h_subi machine (decoded op_subi 24 1) (record {
  pc_small = omega arith;
  sbci_0 = refl;
  brne = refl;
  distinct = omega arith;
  sreg_byte = omega arith;
  lo_byte = omega arith;
  hi_byte = omega arith;
})

flags_add-FlagsAre_example :
    let r = u8 (200 + 100 + 1) in
    let total = signed 200 + signed 100 + 1 in
    FlagsAre 0x82
      (flags_add machine 200 100 r).sreg
      (ltb 15 (200 % 16 + 100 % 16 + 1))
      (ltb total 256)
      (ltb total 128 || ltb 383 total)
      (bit7 r)
      (r == 0)
      (ltb 255 (200 + 100 + 1))
unfolding blank_avr_cpu
flags_add-FlagsAre_example =
    flags_add-FlagsAre machine 200 100 1 (omega arith) (omega arith) (omega arith) (omega arith)

flags_sub-FlagsAre_example :
    let r = sub8 100 200 1 in
    let total = signed 100 + 512 - signed 200 - 1 in
    FlagsAre 0x82
      (flags_sub machine 100 200 r false).sreg
      (ltb (100 % 16) (200 % 16 + 1))
      (ltb total 512)
      (ltb total 384 || ltb 639 total)
      (bit7 r)
      (r == 0)
      (ltb 100 (200 + 1))
unfolding blank_avr_cpu
flags_sub-FlagsAre_example =
    flags_sub-FlagsAre machine 100 200 1 false (omega arith) (omega arith) (omega arith)
      (omega arith)

-- TCCR0B selects the divisor 8, TCNT0 is 250, and 5 cycles wait.
abbrev clocked : AvrCpu
unfolding blank_avr_cpu
clocked = record machine {
  mem = update (update (λ _. 0) 0x53 2) 0x52 250;
  timer = record machine.timer { prescaler_count = 5 };
  irq_pending = 0x420;
}

timer_loop-turns_example :
    (timer_loop 5 2 0 2 clocked ≡ turns (5 / 2) 2 0 2 clocked)
    × ((timer_loop 5 2 0 2 clocked).timer.prescaler_count ≡ 5 % 2)
unfolding blank_avr_cpu
timer_loop-turns_example =
    timer_loop-turns 5 2 0 2 clocked (omega arith) (omega arith) (omega arith)

timer0_tick_normal_example :
    (counter (timer0_tick clocked 64) ≡ u8 (250 + waiting clocked 64 / divisor clocked))
    × ((timer0_tick clocked 64).timer.prescaler_count ≡ waiting clocked 64 % divisor clocked)
unfolding blank_avr_cpu timer_wgm
timer0_tick_normal_example =
    timer0_tick_normal clocked 64 (omega arith, omega arith) (refl, omega arith, omega arith)

avr_check_irq-IsLowest_example :
    ((vec : ℕ) × IsLowest 0x420 1 15 vec × (avr_check_irq clocked ≡ enter_vector clocked vec))
    ⊎ (NonePending 0x420 1 15 × (avr_check_irq clocked ≡ clocked))
unfolding blank_avr_cpu
avr_check_irq-IsLowest_example = avr_check_irq-IsLowest clocked refl (omega arith)

-- The registers of the ATmega328P, and the slave at address 0x50.
abbrev two_wire : TwiConfig
two_wire = record {
  twbr_io = 0x98;
  twsr_io = 0x99;
  twar_io = 0x9A;
  twdr_io = 0x9B;
  twcr_io = 0x9C;
  twamr_io = 0x9D;
  twi_vec = 24;
}

abbrev resting : Twi VirtSlave
unfolding new_slave
resting = at_bus two_wire (new_slave 0x50) twi_idle 0xF8 false 0 false

read_register-write_register_example :
    let m = write_register 0x50 7 0xA5 (machine, resting) in
    (m.1.bus_ctx.regs ≡ update u8 7 0xA5) × (twi_load (read_register 0x50 7 m).0 0x9B ≡ 0xA5)
unfolding new_slave resting
read_register-write_register_example =
    read_register-write_register machine two_wire (new_slave 0x50) twi_idle 0xF8 0 7 0xA5 false
      false (omega arith) (omega arith) (omega arith) (omega arith)

-- A START of 16 cycles, in ticks of 5, 10 and 3.
abbrev starting : Twi VirtSlave
unfolding resting
starting = record resting { pending_op = twi_start; cycles_remaining = 16 }

twi_ticks-twi_complete_op_example :
    (twi_ticks (5 ∷ 10 ∷ []) machine starting ≡ (
      machine,
      record starting { cycles_remaining = starting.cycles_remaining - total (5 ∷ 10 ∷ []) },
    ))
    × (twi_ticks ((5 ∷ 10 ∷ []) ++ (3 ∷ [])) machine starting ≡ twi_complete_op machine starting)
unfolding starting resting is_none_op
twi_ticks-twi_complete_op_example =
    twi_ticks-twi_complete_op (5 ∷ 10 ∷ []) 3 machine starting refl (omega arith) (omega arith)

-- A file with the name "a", with LDI R16, 42 at byte 0.
avr_load_fw-ucfm_save_example :
    let (ok, e) = avr_load_fw machine (97 ∷ []) (some (ucfm_save (0x0A ∷ 0xE2 ∷ []) 0 0)) in
    (ok ≡ true)
    × (e.pc ≡ 0)
    × (e.state ≡ avr_running)
    × ((a : ℕ) → flash_read_byte e a ≡ overlay machine.flash_size (λ _. 255) 0 (0x0A ∷ 0xE2 ∷ []) a)
unfolding last_dot machine blank_avr_cpu
avr_load_fw-ucfm_save_example =
    avr_load_fw-ucfm_save machine (97 ∷ []) (0x0A ∷ 0xE2 ∷ []) 0 0 (inl refl)
      (omega arith, (omega arith, tt)) (omega arith) refl

-- ===== src/Mcs51/Examples.antt =====
-- Runs of the 8051 model on small programs, and the theorems at concrete states.
use uc_vm.Common.{
  bit_at, ◌==◌, ℕ, ◌+◌, ◌-◌, ◌*◌, ◌/◌, ◌%◌, ◌<◌, ◌≡◌, ◌↔◌, refl, arith, true, false, if◌then◌else◌,
  nonzero, leb, ◌⊎◌, inl, inr, [], ◌∷◌, some, Mem8, update, u16, ◌||◌,
}
use uc_vm.Mcs51.Cpu.{
  set_int_active, Cpu, Uart, running, sleeping, acc, psw, reg_b, sfr_tcon, sfr_tmod, sfr_scon,
  sfr_ie, sfr_ip, sfr_acc, sfr_b, sfr_psw, sfr_p1, set_sfr, set_state, set_uart, cpu_reset,
}
use uc_vm.Mcs51.Uart.{tx_put, rx_put, sbuf_read_hook, uart_rx_push}
use uc_vm.Mcs51.Decode.Flags.{do_add, do_subb, set_acc}
use uc_vm.Mcs51.Decode.Arith.{op_da_a, op_mul_ab, op_div_ab}
use uc_vm.Mcs51.Decode.Branch.{op_reti}
use uc_vm.Mcs51.Decode.Table.{decode_execute}
use uc_vm.Mcs51.Timer.{timer_ticks}
use uc_vm.Mcs51.Irq.{IntSource, source, int_sources, accept, check_irq, is_high, is_blocked}
use uc_vm.Mcs51.Step.{cpu_init, cpu_step, cpu_run, periph_init, uart_init, gpio_init}
use uc_vm.Mcs51.Evolve.{IsUart, IsValid, Evolves}
use uc_vm.Mcs51.Evolve.Rules.{Evolves-refl, Evolves-set_sfr, rx_put-IsUart, tx_put-IsUart}
use uc_vm.Mcs51.Evolve.Opcodes.{Takes, decode_execute-Evolves}
use uc_vm.Mcs51.Evolve.Step.{cpu_run-cpu_init}
use uc_vm.Mcs51.Alu.Psw.{cy, ac, ov}
use uc_vm.Mcs51.Alu.Add.{offset8, other_flags, do_add_flags, do_subb_flags}
use uc_vm.Mcs51.Alu.Decimal.{IsBcd, bcd, do_add-op_da_a}
use uc_vm.Mcs51.Alu.Product.{op_mul_ab_lem, op_div_ab_lem}
use uc_vm.Mcs51.Calls.{Returned, op_reti-accept}
use uc_vm.Mcs51.Priority.{FirstReady, NoneReady}
use uc_vm.Mcs51.Requests.Entries.{is_due}
use uc_vm.Mcs51.Requests.{IsFirstDue, IsServed, check_irq-IsServed, check_irq_masked}
use uc_vm.Mcs51.Ticks.{count_of, tf}
use uc_vm.Mcs51.Ticks.Repeat.{timer_ticks_mode1}
use uc_vm.Mcs51.Steps.{ones, cpu_step_parity}
use uc_vm.Mcs51.Step.{host_turn}
use uc_vm.Mcs51.Cpu.{add_cycles}
use uc_vm.Mcs51.Waking.{host_turn_wakes}
use uc_vm.Firmware.Ucfm.{ucfm_save, last_dot}
use uc_vm.Firmware.RoundTrip.{overlay}
use uc_vm.Mcs51.Load.{load_fw, load_fw-ucfm_save}
use uc_vm.Mcs51.Memory.{code_read, bit_write, sfr_register}
use uc_vm.Mcs51.BitMemory.{bit_write_port}
use uc_vm.Mcs51.Serial.{
  rx_queue, dequeue, get_or, IsReceived, uart_rx_push_refines, sbuf_read_hook_refines,
}

-- MOV A,#42; ADD A,#100; LCALL 0x0010; and at 0x0010 RET.
abbrev program : Mem8
program =
    update
      (update
        (update
          (update (update (update (update (update (λ _. 0) 0 0x74) 1 42) 2 0x24) 3 100) 4 0x12) 5
          0x00)
        6 0x10)
      0x10 0x22

abbrev loaded : Cpu
loaded = record cpu_init { code = program }

loaded-IsValid : IsValid loaded
unfolding cpu_run
loaded-IsValid = (cpu_run-cpu_init program 0).0

-- A and B as given, and the program status word of a reset.
abbrev with_ab : ℕ → ℕ → Cpu
with_ab a b = set_sfr (set_sfr loaded sfr_acc a) sfr_b b

with_ab-IsValid : (a b : ℕ) → IsValid (with_ab a b)
with_ab-IsValid a b =
    (Evolves-set_sfr sfr_b b (Evolves-set_sfr sfr_acc a (Evolves-refl loaded))).keeps_valid
      loaded-IsValid

-- Timer 0 runs in the given mode.
abbrev with_timer : ℕ → Cpu
with_timer mode = set_sfr (set_sfr loaded sfr_tmod mode) sfr_tcon 0x10

with_timer-IsValid : (mode : ℕ) → IsValid (with_timer mode)
with_timer-IsValid mode =
    (Evolves-set_sfr sfr_tcon 0x10
        (Evolves-set_sfr sfr_tmod mode (Evolves-refl loaded))).keeps_valid
      loaded-IsValid

-- INT0 and Timer 0 wait, enabled, Timer 0 at the high level.
abbrev with_irq : Cpu
with_irq = set_sfr (set_sfr (set_sfr loaded sfr_tcon 0x22) sfr_ie 0x83) sfr_ip 0x02

with_irq-IsValid : IsValid with_irq
with_irq-IsValid =
    (Evolves-set_sfr sfr_ip 0x02 (
        Evolves-set_sfr sfr_ie 0x83
          (Evolves-set_sfr sfr_tcon 0x22 (Evolves-refl loaded)))).keeps_valid
      loaded-IsValid

abbrev timer0 : IntSource
timer0 = source 0x000B 0x02 0x02 sfr_tcon 5 true

-- Two bytes received and one sent.
abbrev busy_uart : Uart
busy_uart = tx_put (rx_put (rx_put loaded.uart_state 7) 9) 65

busy_uart-IsUart : IsUart busy_uart
busy_uart-IsUart =
    tx_put-IsUart _ 65 (omega arith)
      (rx_put-IsUart _ 9 (omega arith) (rx_put-IsUart _ 7 (omega arith) loaded-IsValid.uart_valid))

decode_execute-Evolves_example :
    Evolves loaded (decode_execute loaded).1 × Takes (decode_execute loaded).0
decode_execute-Evolves_example = decode_execute-Evolves loaded

cpu_run-cpu_init_example : IsValid (cpu_run 4 loaded) × ((cpu_run 4 loaded).code ≡ program)
cpu_run-cpu_init_example = cpu_run-cpu_init program 4

do_add_flags_example :
    let (v, d) = do_add loaded 200 100 1 in
    (v + 256 * cy d ≡ 301)
    × (ac d ≡ (200 % 16 + 100 % 16 + 1) / 16)
    × ((ov d ≡ 0) ↔ (offset8 v + 128 ≡ offset8 200 + offset8 100 + 1))
    × (other_flags d ≡ other_flags loaded)
do_add_flags_example =
    do_add_flags loaded 200 100 1 (loaded-IsValid.sfr_bytes sfr_psw) (omega arith) (omega arith)
      (omega arith)

do_subb_flags_example :
    let (v, d) = do_subb loaded 100 200 1 in
    (v + 200 + 1 ≡ 100 + 256 * cy d)
    × (100 % 16 + 16 * ac d ≡ (100 % 16 + 16 - 200 % 16 - 1) % 16 + 200 % 16 + 1)
    × ((ov d ≡ 0) ↔ (offset8 v + offset8 200 + 1 ≡ offset8 100 + 128))
    × (other_flags d ≡ other_flags loaded)
do_subb_flags_example =
    do_subb_flags loaded 100 200 1 (loaded-IsValid.sfr_bytes sfr_psw) (omega arith) (omega arith)
      (omega arith)

do_add-op_da_a_example :
    let (v, d) = do_add loaded 0x47 0x85 0 in
    let e = (op_da_a (set_acc d v)).1 in IsBcd (acc e) × (bcd (acc e) + 100 * cy e ≡ 132)
do_add-op_da_a_example =
    do_add-op_da_a loaded 0x47 0x85 0 (loaded-IsValid.sfr_bytes sfr_psw)
      (record { low_digit = omega arith; high_digit = omega arith })
      (record { low_digit = omega arith; high_digit = omega arith }) (omega arith)

op_mul_ab_lem_example :
    let d = (op_mul_ab (with_ab 12 34)).1 in
    (acc d + 256 * reg_b d ≡ 12 * 34) × (cy d ≡ 0) × (ov d ≡ 1)
unfolding set_sfr
op_mul_ab_lem_example =
    op_mul_ab_lem (with_ab 12 34) ((with_ab-IsValid 12 34).sfr_bytes sfr_psw) (omega arith)
      (omega arith)

op_div_ab_lem_example :
    let c = with_ab 200 7 in
    let d = (op_div_ab c).1 in
    (cy d ≡ 0)
    × (((reg_b c ≡ 0) × (acc d ≡ acc c) × (reg_b d ≡ 0) × (ov d ≡ 1))
        ⊎ ((acc d * reg_b c + reg_b d ≡ acc c) × (reg_b d < reg_b c) × (ov d ≡ 0)))
op_div_ab_lem_example =
    op_div_ab_lem (with_ab 200 7) ((with_ab-IsValid 200 7).sfr_bytes sfr_psw)
      ((with_ab-IsValid 200 7).sfr_bytes sfr_acc) ((with_ab-IsValid 200 7).sfr_bytes sfr_b)

op_reti-accept_example :
    let d = (op_reti (accept loaded timer0)).1 in
    Returned loaded d loaded.pc × ((l : ℕ) → d.int_active l ≡ loaded.int_active l)
unfolding is_blocked is_high cpu_init cpu_reset
op_reti-accept_example = op_reti-accept loaded timer0 loaded-IsValid (omega arith) refl

check_irq-IsServed_example :
    (((n : ℕ) → n < 6 → is_due with_irq n ≡ false) × (check_irq with_irq ≡ with_irq))
    ⊎ ((n : ℕ) × IsFirstDue with_irq n × IsServed with_irq (check_irq with_irq) n)
unfolding set_sfr bit_at
check_irq-IsServed_example = check_irq-IsServed with_irq with_irq-IsValid refl

-- The same two interrupts wait at the low level, while one of the low level is active.
abbrev busy_irq : Cpu
busy_irq = set_int_active (set_sfr with_irq sfr_ip 0xC0) 0 true

check_irq_masked_example : check_irq busy_irq ≡ busy_irq
unfolding set_int_active set_sfr
check_irq_masked_example = check_irq_masked busy_irq (inr (inr (refl, refl)))

timer_ticks_mode1_example :
    let c = with_timer 1 in
    let d = timer_ticks 70000 c in
    (count_of d 0 ≡ (count_of c 0 + 70000) % 65536)
    × (tf d 0 ≡ (if nonzero (tf c 0) || leb 65536 (count_of c 0 + 70000) then 1 else 0))
unfolding set_sfr
timer_ticks_mode1_example =
    timer_ticks_mode1 70000 (with_timer 1)
      (record { in_range = with_timer-IsValid 1; run = refl; mode = refl })

cpu_step_parity_example : psw (cpu_step loaded).1 % 2 ≡ ones (acc (cpu_step loaded).1) % 2
unfolding cpu_init cpu_reset
cpu_step_parity_example = cpu_step_parity loaded loaded-IsValid refl

-- Two bytes wait, and REN is set.
abbrev listening : Cpu
listening = set_uart (set_sfr loaded sfr_scon 0x50) busy_uart

uart_rx_push_refines_example :
    ((bit_at 4 (listening.sfr sfr_scon) ≡ 0) × (uart_rx_push listening 11 ≡ listening))
    ⊎ ((bit_at 4 (listening.sfr sfr_scon) ≡ 1)
        × IsReceived listening (uart_rx_push listening 11) 11)
unfolding set_uart
uart_rx_push_refines_example = uart_rx_push_refines listening 11 busy_uart-IsUart (omega arith)

sbuf_read_hook_refines_example :
    let c = set_uart loaded busy_uart in
    let (out, d) = sbuf_read_hook c in
    (out ≡ get_or (dequeue (rx_queue c.uart_state)).0 0)
    × (rx_queue d.uart_state ≡ (dequeue (rx_queue c.uart_state)).1)
unfolding set_uart
sbuf_read_hook_refines_example = sbuf_read_hook_refines (set_uart loaded busy_uart) busy_uart-IsUart

-- Pin 5 of each port is held low from outside.
abbrev pulled : Cpu
pulled = record loaded { gpio_state = record loaded.gpio_state { ext_pins = λ _. 0xDF } }

bit_write_port_example : bit_at 5 ((bit_write pulled 0x93 false).sfr sfr_p1) ≡ (
    if 5 == 3
    then 0
    else if bit_at 5 (pulled.gpio_state.ext_pins 1) == 1
    then bit_at 5 (pulled.sfr sfr_p1)
    else 0)
unfolding cpu_init cpu_reset periph_init uart_init gpio_init sfr_register
bit_write_port_example = bit_write_port pulled 3 false (omega arith) refl refl 5 (omega arith)

load_fw-ucfm_save_example :
    let (ok, e) = load_fw loaded (97 ∷ []) (some (ucfm_save (0x74 ∷ 42 ∷ []) 0 0)) in
    (ok ≡ true)
    × (e.pc ≡ 0)
    × (e.state ≡ running)
    × ((a : ℕ) → code_read e a ≡ overlay loaded.code_size (λ _. 255) 0 (0x74 ∷ 42 ∷ []) a)
unfolding last_dot
load_fw-ucfm_save_example =
    load_fw-ucfm_save loaded (97 ∷ []) (0x74 ∷ 42 ∷ []) 0 0 (inl refl) (omega arith)

abbrev asleep : Cpu
asleep = set_state with_irq sleeping

host_turn_wakes_example :
    let w = add_cycles asleep 1 in
    let d = host_turn asleep.state asleep in
    (NoneReady w 0 int_sources × (d.state ≡ sleeping))
    ⊎ ((s : IntSource) × FirstReady w 0 int_sources s × (d.state ≡ running) × (d.pc ≡ u16 s.vector))
unfolding set_state set_sfr
host_turn_wakes_example = host_turn_wakes asleep refl refl

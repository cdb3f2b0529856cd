-- ===== src/Mcs51/Evolve/Rules.antt =====
-- One rule for each store, hook and memory access: with them `search` shows that an instruction
-- keeps what `Evolves` says.
use uc_vm.Common.{
  ℕ, ◌-◌, ◌<◌, refl, arith, Bool, true, false, Option, none, some, if◌then◌else◌, ltb, Bool-cases,
  inl, inr, u8, u8-lt, bit_and,
}
use uc_vm.Mcs51.Cpu.{
  Cpu, CpuState, Uart, SfrReadFn, SfrWriteFn, IoPeriph, port_read, port_write, sbuf_read,
  sbuf_write, set_pc, set_sfr, set_iram, set_xram, set_state, set_int_active, add_cycles,
  call_bridge, set_uart,
}
use uc_vm.Mcs51.Uart.{tx_put, rx_put, sbuf_read_hook, sbuf_write_hook, ring_empty}
use uc_vm.Mcs51.Gpio.{port_write_hook, port_id}
use uc_vm.Mcs51.Memory.{
  run_read_hook, run_write_hook, direct_read, direct_write, indirect_write, bit_read, bit_write,
  xdata_write, push, pop,
}
use uc_vm.Mcs51.Evolve.{IsUart, Evolves, Evolves-trans}

pub Evolves-refl : (c : Cpu) → Evolves c c
Evolves-refl c = record {
  keeps_valid = λ v. v;
  same_code = refl;
  same_code_size = refl;
  same_xram_size = refl;
  same_sfr_write = refl;
  same_sfr_read = refl;
  same_gpio = refl;
  same_periph_timer = refl;
  same_periph_uart = refl;
  same_bridge_cb = refl;
}

set_pc_step : (c : Cpu) (n : ℕ) → Evolves c (set_pc c n)
unfolding set_pc
set_pc_step c n = record {
  keeps_valid = λ v. record {
    pc_word = omega arith;
    iram_bytes = v.iram_bytes;
    sfr_bytes = v.sfr_bytes;
    xram_bytes = v.xram_bytes;
    uart_valid = v.uart_valid;
  };
  same_code = refl;
  same_code_size = refl;
  same_xram_size = refl;
  same_sfr_write = refl;
  same_sfr_read = refl;
  same_gpio = refl;
  same_periph_timer = refl;
  same_periph_uart = refl;
  same_bridge_cb = refl;
}

pub Evolves-set_pc : {c d : Cpu} (n : ℕ) → Evolves c d → Evolves c (set_pc d n)
Evolves-set_pc {d = d} n e = Evolves-trans e (set_pc_step d n)

set_sfr_step : (c : Cpu) (i n : ℕ) → Evolves c (set_sfr c i n)
unfolding set_sfr
set_sfr_step c i n = record {
  keeps_valid = λ v. record {
    pc_word = v.pc_word;
    iram_bytes = v.iram_bytes;
    sfr_bytes = λ a. ground (arith, v.sfr_bytes a);
    xram_bytes = v.xram_bytes;
    uart_valid = v.uart_valid;
  };
  same_code = refl;
  same_code_size = refl;
  same_xram_size = refl;
  same_sfr_write = refl;
  same_sfr_read = refl;
  same_gpio = refl;
  same_periph_timer = refl;
  same_periph_uart = refl;
  same_bridge_cb = refl;
}

pub Evolves-set_sfr : {c d : Cpu} (i n : ℕ) → Evolves c d → Evolves c (set_sfr d i n)
Evolves-set_sfr {d = d} i n e = Evolves-trans e (set_sfr_step d i n)

set_iram_step : (c : Cpu) (i n : ℕ) → Evolves c (set_iram c i n)
unfolding set_iram
set_iram_step c i n = record {
  keeps_valid = λ v. record {
    pc_word = v.pc_word;
    iram_bytes = λ a. ground (arith, v.iram_bytes a);
    sfr_bytes = v.sfr_bytes;
    xram_bytes = v.xram_bytes;
    uart_valid = v.uart_valid;
  };
  same_code = refl;
  same_code_size = refl;
  same_xram_size = refl;
  same_sfr_write = refl;
  same_sfr_read = refl;
  same_gpio = refl;
  same_periph_timer = refl;
  same_periph_uart = refl;
  same_bridge_cb = refl;
}

pub Evolves-set_iram : {c d : Cpu} (i n : ℕ) → Evolves c d → Evolves c (set_iram d i n)
Evolves-set_iram {d = d} i n e = Evolves-trans e (set_iram_step d i n)

set_xram_step : (c : Cpu) (i n : ℕ) → Evolves c (set_xram c i n)
unfolding set_xram
set_xram_step c i n = record {
  keeps_valid = λ v. record {
    pc_word = v.pc_word;
    iram_bytes = v.iram_bytes;
    sfr_bytes = v.sfr_bytes;
    xram_bytes = λ a. ground (arith, v.xram_bytes a);
    uart_valid = v.uart_valid;
  };
  same_code = refl;
  same_code_size = refl;
  same_xram_size = refl;
  same_sfr_write = refl;
  same_sfr_read = refl;
  same_gpio = refl;
  same_periph_timer = refl;
  same_periph_uart = refl;
  same_bridge_cb = refl;
}

pub Evolves-set_xram : {c d : Cpu} (i n : ℕ) → Evolves c d → Evolves c (set_xram d i n)
Evolves-set_xram {d = d} i n e = Evolves-trans e (set_xram_step d i n)

set_state_step : (c : Cpu) (s : CpuState) → Evolves c (set_state c s)
unfolding set_state
set_state_step c s = record {
  keeps_valid = λ v. record {
    pc_word = v.pc_word;
    iram_bytes = v.iram_bytes;
    sfr_bytes = v.sfr_bytes;
    xram_bytes = v.xram_bytes;
    uart_valid = v.uart_valid;
  };
  same_code = refl;
  same_code_size = refl;
  same_xram_size = refl;
  same_sfr_write = refl;
  same_sfr_read = refl;
  same_gpio = refl;
  same_periph_timer = refl;
  same_periph_uart = refl;
  same_bridge_cb = refl;
}

pub Evolves-set_state : {c d : Cpu} (s : CpuState) → Evolves c d → Evolves c (set_state d s)
Evolves-set_state {d = d} s e = Evolves-trans e (set_state_step d s)

set_int_active_step : (c : Cpu) (l : ℕ) (b : Bool) → Evolves c (set_int_active c l b)
unfolding set_int_active
set_int_active_step c l b = record {
  keeps_valid = λ v. record {
    pc_word = v.pc_word;
    iram_bytes = v.iram_bytes;
    sfr_bytes = v.sfr_bytes;
    xram_bytes = v.xram_bytes;
    uart_valid = v.uart_valid;
  };
  same_code = refl;
  same_code_size = refl;
  same_xram_size = refl;
  same_sfr_write = refl;
  same_sfr_read = refl;
  same_gpio = refl;
  same_periph_timer = refl;
  same_periph_uart = refl;
  same_bridge_cb = refl;
}

pub Evolves-set_int_active :
    {c d : Cpu} (l : ℕ) (b : Bool) → Evolves c d → Evolves c (set_int_active d l b)
Evolves-set_int_active {d = d} l b e = Evolves-trans e (set_int_active_step d l b)

add_cycles_step : (c : Cpu) (n : ℕ) → Evolves c (add_cycles c n)
unfolding add_cycles
add_cycles_step c n = record {
  keeps_valid = λ v. record {
    pc_word = v.pc_word;
    iram_bytes = v.iram_bytes;
    sfr_bytes = v.sfr_bytes;
    xram_bytes = v.xram_bytes;
    uart_valid = v.uart_valid;
  };
  same_code = refl;
  same_code_size = refl;
  same_xram_size = refl;
  same_sfr_write = refl;
  same_sfr_read = refl;
  same_gpio = refl;
  same_periph_timer = refl;
  same_periph_uart = refl;
  same_bridge_cb = refl;
}

pub Evolves-add_cycles : {c d : Cpu} (n : ℕ) → Evolves c d → Evolves c (add_cycles d n)
Evolves-add_cycles {d = d} n e = Evolves-trans e (add_cycles_step d n)

pub Evolves-if :
    {c x y : Cpu} (b : Bool) → Evolves c x → Evolves c y → Evolves c (if b then x else y)
Evolves-if true p q = p
Evolves-if false p q = q

call_bridge_step : (c : Cpu) (p : IoPeriph) (r v : ℕ) → Evolves c (call_bridge c p r v)
unfolding call_bridge
call_bridge_step c p r n =
    Evolves-if c.bridge_cb
      (record {
        keeps_valid = λ v. record {
          pc_word = v.pc_word;
          iram_bytes = v.iram_bytes;
          sfr_bytes = v.sfr_bytes;
          xram_bytes = v.xram_bytes;
          uart_valid = v.uart_valid;
        };
        same_code = refl;
        same_code_size = refl;
        same_xram_size = refl;
        same_sfr_write = refl;
        same_sfr_read = refl;
        same_gpio = refl;
        same_periph_timer = refl;
        same_periph_uart = refl;
        same_bridge_cb = refl;
      })
      (Evolves-refl c)

-- A new UART state that is in range where the old one is.
pub Evolves-set_uart :
    (c : Cpu) (u : Uart) → (IsUart c.uart_state → IsUart u) → Evolves c (set_uart c u)
unfolding set_uart
Evolves-set_uart c u keep = record {
  keeps_valid = λ v. record {
    pc_word = v.pc_word;
    iram_bytes = v.iram_bytes;
    sfr_bytes = v.sfr_bytes;
    xram_bytes = v.xram_bytes;
    uart_valid = keep v.uart_valid;
  };
  same_code = refl;
  same_code_size = refl;
  same_xram_size = refl;
  same_sfr_write = refl;
  same_sfr_read = refl;
  same_gpio = refl;
  same_periph_timer = refl;
  same_periph_uart = refl;
  same_bridge_cb = refl;
}

pub tx_put-IsUart : (u : Uart) (n : ℕ) → n < 256 → IsUart u → IsUart (tx_put u n)
unfolding tx_put
tx_put-IsUart u n h v = record {
  tx_head_in = ground arith;
  tx_tail_in = ground arith;
  rx_head_in = ground arith;
  rx_tail_in = ground arith;
  tx_bytes = λ a. ground (arith, v.tx_bytes a);
  rx_bytes = λ a. ground (arith, v.rx_bytes a);
}

pub rx_put-IsUart : (u : Uart) (n : ℕ) → n < 256 → IsUart u → IsUart (rx_put u n)
unfolding rx_put
rx_put-IsUart u n h v = record {
  tx_head_in = ground arith;
  tx_tail_in = ground arith;
  rx_head_in = ground arith;
  rx_tail_in = ground arith;
  tx_bytes = λ a. ground (arith, v.tx_bytes a);
  rx_bytes = λ a. ground (arith, v.rx_bytes a);
}

sbuf_write_hook_step : (c : Cpu) (n : ℕ) → n < 256 → Evolves c (sbuf_write_hook c n)
unfolding sbuf_write_hook
sbuf_write_hook_step c n h =
    Evolves-trans (Evolves-set_uart c (tx_put c.uart_state n) (tx_put-IsUart c.uart_state n h))
      (call_bridge_step (set_uart c (tx_put c.uart_state n)) IoPeriph.uart 0 n)

sbuf_read_hook_step : (c : Cpu) → Evolves c (sbuf_read_hook c).1
unfolding sbuf_read_hook
sbuf_read_hook_step c = elim (Bool-cases (ring_empty c.uart_state.rx_head c.uart_state.rx_tail)) [
  | inl e ↦ rw e (Evolves-refl c)
  | inr e ↦ rw e (
      Evolves-set_uart c _ (λ v. record {
        tx_head_in = v.tx_head_in;
        tx_tail_in = v.tx_tail_in;
        rx_head_in = v.rx_head_in;
        rx_tail_in = omega arith;
        tx_bytes = v.tx_bytes;
        rx_bytes = v.rx_bytes;
      }))
]

port_write_hook_step : (c : Cpu) (i n : ℕ) → Evolves c (port_write_hook c i n)
unfolding port_write_hook
port_write_hook_step c i n =
    elim (port_id i)
      as (λ p. Evolves c (elim p [ none ↦ c | some p ↦ call_bridge c IoPeriph.gpio p n ])) [
        | none ↦ Evolves-refl c
        | some p ↦ call_bridge_step c IoPeriph.gpio p n
      ]

run_read_hook_step : (c : Cpu) (i : ℕ) (h : Option SfrReadFn) → Evolves c (run_read_hook c i h).1
unfolding run_read_hook
run_read_hook_step c i none = Evolves-refl c
run_read_hook_step c i (some port_read) = Evolves-refl c
run_read_hook_step c i (some sbuf_read) = sbuf_read_hook_step c

run_write_hook_step :
    (c : Cpu) (i n : ℕ) (h : Option SfrWriteFn) → n < 256 → Evolves c (run_write_hook c i n h)
unfolding run_write_hook
run_write_hook_step c i n none b = Evolves-refl c
run_write_hook_step c i n (some port_write) b = port_write_hook_step c i n
run_write_hook_step c i n (some sbuf_write) b = sbuf_write_hook_step c n b

pub Evolves-direct_read : {c d : Cpu} (a : ℕ) → Evolves c d → Evolves c (direct_read d a).1
unfolding direct_read
Evolves-direct_read {d = d} a e = Evolves-trans e (elim (Bool-cases (ltb a 0x80)) [
  | inl p ↦ rw p (Evolves-refl d)
  | inr p ↦ rw p (run_read_hook_step d (a - 0x80) (d.sfr_read (a - 0x80)))
])

pub Evolves-direct_write : {c d : Cpu} (a n : ℕ) → Evolves c d → Evolves c (direct_write d a n)
unfolding direct_write
Evolves-direct_write {d = d} a n e = Evolves-trans e (
    Evolves-if (ltb a 0x80) (set_iram_step d a n) (
      Evolves-trans (set_sfr_step d (a - 0x80) n) (
        run_write_hook_step (set_sfr d (a - 0x80) n) (a - 0x80) (u8 n) (d.sfr_write (a - 0x80))
          (u8-lt n))))

pub Evolves-indirect_write : {c d : Cpu} (a n : ℕ) → Evolves c d → Evolves c (indirect_write d a n)
unfolding indirect_write
Evolves-indirect_write a n e = Evolves-set_iram a n e

pub Evolves-bit_read : {c d : Cpu} (a : ℕ) → Evolves c d → Evolves c (bit_read d a).1
unfolding bit_read
Evolves-bit_read {d = d} a e = Evolves-trans e (elim (Bool-cases (ltb a 0x80)) [
  | inl p ↦ rw p (Evolves-refl d)
  | inr p ↦ rw p (Evolves-direct_read (bit_and a 0xF8) (Evolves-refl d))
])

pub Evolves-bit_write : {c d : Cpu} (a : ℕ) (v : Bool) → Evolves c d → Evolves c (bit_write d a v)
unfolding bit_write
Evolves-bit_write {d = d} a v e = Evolves-trans e (
    Evolves-if (ltb a 0x80) (set_iram_step d _ _)
      (Evolves-direct_write _ _ (Evolves-direct_read (bit_and a 0xF8) (Evolves-refl d))))

pub Evolves-xdata_write : {c d : Cpu} (a n : ℕ) → Evolves c d → Evolves c (xdata_write d a n)
unfolding xdata_write
Evolves-xdata_write {d = d} a n e = Evolves-if (ltb a d.xram_size) (Evolves-set_xram a n e) e

pub Evolves-push : {c d : Cpu} (n : ℕ) → Evolves c d → Evolves c (push d n)
unfolding push
Evolves-push n e = Evolves-set_iram _ n (Evolves-set_sfr _ _ e)

pub Evolves-pop : {c d : Cpu} → Evolves c d → Evolves c (pop d).1
unfolding pop
Evolves-pop e = Evolves-set_sfr _ _ e

pub ruleset evolve = (
  Evolves-refl, Evolves-if, Evolves-set_pc, Evolves-set_sfr, Evolves-set_iram, Evolves-set_xram,
  Evolves-set_state, Evolves-set_int_active, Evolves-add_cycles, Evolves-direct_read,
  Evolves-direct_write, Evolves-indirect_write, Evolves-bit_read, Evolves-bit_write,
  Evolves-xdata_write, Evolves-push, Evolves-pop,
)

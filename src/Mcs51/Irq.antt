-- ===== src/Mcs51/Irq.antt =====
-- Interrupt dispatch of the 8051: `mcs51_cpu_check_irq` of src/mcs51/mcs51_cpu.c.
use uc_vm.Common.{
  ℕ, ◌+◌, ◌-◌, ◌/◌, ◌%◌, ◌^◌, Bool, true, false, not, ◌&&◌, ◌||◌, List, [], ◌∷◌, bit_and,
  if◌then◌else◌, nonzero, ◌==◌,
}
use uc_vm.Mcs51.Cpu.{
  Cpu, CpuState, running, sleeping, halted, break, sfr_tcon, sfr_scon, sfr_t2con, sfr_ie, sfr_ip,
  set_pc, set_sfr, set_state, set_int_active, add_cycles,
}
use uc_vm.Mcs51.Decode.Branch.{push_ret}

-- An entry of `int_sources`.
pub record IntSource : Type 0 where
  pub vector : ℕ
  pub ie_bit : ℕ
  pub ip_bit : ℕ
  pub flag_sfr : ℕ
  pub flag_bit : ℕ
  pub auto_clear : Bool

abbrev pub source : ℕ → ℕ → ℕ → ℕ → ℕ → Bool → IntSource
source v e p s b a = record {
  vector = v;
  ie_bit = e;
  ip_bit = p;
  flag_sfr = s;
  flag_bit = b;
  auto_clear = a;
}

-- In the order of polling: INT0, Timer 0, INT1, Timer 1, serial port, Timer 2.
abbrev pub int_sources : List IntSource
int_sources =
    source 0x0003 0x01 0x01 sfr_tcon 1 true
    ∷ source 0x000B 0x02 0x02 sfr_tcon 5 true
    ∷ source 0x0013 0x04 0x04 sfr_tcon 3 true
    ∷ source 0x001B 0x08 0x08 sfr_tcon 7 true
    ∷ source 0x0023 0x10 0x10 sfr_scon 0 false
    ∷ source 0x002B 0x20 0x20 sfr_t2con 7 false
    ∷ []

-- The flag of source number `i`: RI or TI, TF2 or EXF2, else the one bit.
unfoldable pub flag_set : Cpu → ℕ → IntSource → Bool
flag_set c i s =
    if i == 4
    then nonzero (bit_and (c.sfr s.flag_sfr) 0x03)
    else if i == 5
    then nonzero (bit_and (c.sfr s.flag_sfr) 0xC0)
    else nonzero (c.sfr s.flag_sfr / 2 ^ s.flag_bit % 2)

-- The level of a source: true is high.
unfoldable pub is_high : Cpu → IntSource → Bool
is_high c s = nonzero (bit_and (c.sfr sfr_ip) s.ip_bit)

-- An active interrupt of the same or a higher level keeps the source waiting.
unfoldable pub is_blocked : Cpu → Bool → Bool
is_blocked c prio = c.int_active 1 || (c.int_active 0 && not prio)

-- The source passes every `continue` of the loop.
unfoldable pub is_ready : Cpu → ℕ → IntSource → Bool
is_ready c i s =
    nonzero (bit_and (c.sfr sfr_ie) s.ie_bit) && flag_set c i s && not (is_blocked c (is_high c s))

-- `if (state == SLEEPING) state = RUNNING`.
unfoldable pub wake : CpuState → CpuState
wake sleeping = running
wake running = running
wake halted = halted
wake break = break

-- What the loop does with the source that it accepts.
unfoldable pub accept : Cpu → IntSource → Cpu
unfolding wake
accept c s =
    let prio = is_high c s in
    let c1 =
      if s.auto_clear
      then set_sfr c s.flag_sfr (bit_and (c.sfr s.flag_sfr) (255 - 2 ^ s.flag_bit))
      else c in
    let c2 = set_pc (push_ret c1 c1.pc) s.vector in
    let c3 = add_cycles (set_int_active c2 (if prio then 1 else 0) true) 2 in
    set_state c3 (wake c3.state)

-- The loop from source number `i` on: at most one source is accepted.
unfoldable pub poll_sources : Cpu → ℕ → List IntSource → Cpu
poll_sources c i [] = c
poll_sources c i (s ∷ rest) =
    let later = poll_sources c (i + 1) rest in if is_ready c i s then accept c s else later

-- `mcs51_cpu_check_irq`: nothing unless EA is set.
unfoldable pub check_irq : Cpu → Cpu
check_irq c = if nonzero (bit_and (c.sfr sfr_ie) 0x80) then poll_sources c 0 int_sources else c

-- ===== src/Gdb/Running.antt =====
-- The loop of pc/main.c under the stub: how far a continued CPU runs, and what a single step does.
use uc_vm.Common.{
  ℕ, zero, suc, ◌<◌, ◌≤◌, ◌≡◌, ◌∙◌, refl, ap, arith, Bool, true, false, [], ◌∷◌, if◌then◌else◌, u16,
  ◌==◌,
}
use uc_vm.Mcs51.Cpu.{Cpu, running, set_state}
use uc_vm.Mcs51.Step.{cpu_step}
use uc_vm.Gdb.Stub.{Gdb, gdb_buf_size}
use uc_vm.Gdb.Packets.{handle_packet, handle_step}
use uc_vm.Gdb.Poll.{bytes, gdb_poll, gdb_check_breakpoint, gdb_notify_stop, is_breakpoint}
use uc_vm.Gdb.Target.{gdb_target_mcs51}
use uc_vm.Gdb.Host.{step_target, try_step, debug_step, debug_steps, debug_turn}
use uc_vm.Gdb.Digits.{All}
use uc_vm.Gdb.Framing.{IsPlain, ended, received, gdb_poll-frame}

-- The CPU after `n` steps.
abbrev pub after : ℕ → Cpu → Cpu
after zero c = c
after (suc n) c = after n (cpu_step c).1

-- Whether the stub holds a breakpoint at the CPU's program counter.
abbrev pub at_breakpoint : Gdb Cpu → Cpu → Bool
at_breakpoint g c = is_breakpoint g.bp_count g.breakpoints (u16 c.pc)

-- A stub that no longer looks at where it was resumed, and runs without single steps.
pub record IsContinued (g : Gdb Cpu) : Type 0 where
  pub left : g.resume_from_pc ≡ 0xFFFF
  pub continued : g.single_step ≡ false

gdb_check_breakpoint-left :
    (g : Gdb Cpu)
    → g.resume_from_pc ≡ 0xFFFF
    → gdb_check_breakpoint gdb_target_mcs51 g ≡ (at_breakpoint g g.cpu, g)
unfolding gdb_check_breakpoint
gdb_check_breakpoint-left g h =
    ap
      (λ b.
        if b
        then (at_breakpoint g g.cpu, g)
        else if g.cpu.pc == g.resume_from_pc
        then (false, g)
        else (at_breakpoint g g.cpu, record g { resume_from_pc = 0xFFFF }))
      (ap (λ k. k == 0xFFFF) h)

try_step-hit :
    (g : Gdb Cpu)
    → g.resume_from_pc ≡ 0xFFFF
    → at_breakpoint g g.cpu ≡ true
    → try_step g ≡ (false, gdb_notify_stop gdb_target_mcs51 g)
unfolding try_step
try_step-hit g h hit =
    ap (λ r. if r.0 then (false, gdb_notify_stop gdb_target_mcs51 r.1) else step_target r.1)
      (gdb_check_breakpoint-left g h)
    ∙ ap (λ b. if b then (false, gdb_notify_stop gdb_target_mcs51 g) else step_target g) hit

try_step-miss :
    (g : Gdb Cpu)
    → g.resume_from_pc ≡ 0xFFFF
    → at_breakpoint g g.cpu ≡ false
    → try_step g ≡ step_target g
unfolding try_step
try_step-miss g h miss =
    ap (λ r. if r.0 then (false, gdb_notify_stop gdb_target_mcs51 r.1) else step_target r.1)
      (gdb_check_breakpoint-left g h)
    ∙ ap (λ b. if b then (false, gdb_notify_stop gdb_target_mcs51 g) else step_target g) miss

debug_step-running : (g : Gdb Cpu) → g.cpu.state ≡ running → debug_step g.cpu.state g ≡ try_step g
unfolding debug_step
debug_step-running g h = ap (λ s. debug_step s g) h

debug_steps-more :
    (m : ℕ) (g g1 : Gdb Cpu)
    → debug_step g.cpu.state g ≡ (true, g1)
    → debug_steps (suc m) g ≡ debug_steps m g1
unfolding debug_steps
debug_steps-more m g g1 h = ap (λ r. if r.0 then debug_steps m r.1 else r.1) h

debug_steps-stop :
    (m : ℕ) (g g1 : Gdb Cpu) → debug_step g.cpu.state g ≡ (false, g1) → debug_steps (suc m) g ≡ g1
unfolding debug_steps
debug_steps-stop m g g1 h = ap (λ r. if r.0 then debug_steps m r.1 else r.1) h

step_target-continued :
    (g : Gdb Cpu)
    → g.single_step ≡ false
    → step_target g ≡ (true, record g { cpu = (cpu_step g.cpu).1 })
unfolding step_target
step_target-continued g h =
    let g1 = record g { cpu = (cpu_step g.cpu).1 } in
    ap (λ b. if b then (false, gdb_notify_stop gdb_target_mcs51 g1) else (true, g1)) h

step_target-single :
    (g : Gdb Cpu)
    → g.single_step ≡ true
    → step_target g
      ≡ (false, gdb_notify_stop gdb_target_mcs51 (record g { cpu = (cpu_step g.cpu).1 }))
unfolding step_target
step_target-single g h =
    let g1 = record g { cpu = (cpu_step g.cpu).1 } in
    ap (λ b. if b then (false, gdb_notify_stop gdb_target_mcs51 g1) else (true, g1)) h

nothing_below : (n : ℕ) (A : Type 0) → n < 0 → A
nothing_below n A h = ground (arith, h)

-- Under the debugger, a continued 8051 that has left the place where it was resumed, runs
-- through `n` steps without a breakpoint at its program counter and then has one there: in more
-- than `n` turns the inner loop of pc/main.c executes exactly these `n` steps, stops, and tells
-- the client.
pub debug_steps-breakpoint :
    (n m : ℕ) (g : Gdb Cpu)
    → IsContinued g
    → ((k : ℕ) → k ≤ n → (after k g.cpu).state ≡ running)
    → ((k : ℕ) → k < n → at_breakpoint g (after k g.cpu) ≡ false)
    → at_breakpoint g (after n g.cpu) ≡ true
    → n < m
    → debug_steps m g ≡ gdb_notify_stop gdb_target_mcs51 (record g { cpu = after n g.cpu })
debug_steps-breakpoint zero zero g v runs miss hit h = nothing_below 0 _ h
debug_steps-breakpoint (suc n) zero g v runs miss hit h = nothing_below (suc n) _ h
debug_steps-breakpoint zero (suc m) g v runs miss hit h =
    debug_steps-stop m g _ (debug_step-running g (runs 0 (omega arith)) ∙ try_step-hit g v.left hit)
debug_steps-breakpoint (suc n) (suc m) g v runs miss hit h =
    let g1 = record g { cpu = (cpu_step g.cpu).1 } in
    let one : debug_step g.cpu.state g ≡ (true, g1) =
      debug_step-running g (runs 0 (omega arith))
      ∙ try_step-miss g v.left (miss 0 (omega arith))
      ∙ step_target-continued g v.continued in
    debug_steps-more m g g1 one
    ∙ debug_steps-breakpoint n m g1 (record { left = v.left; continued = v.continued })
        (λ k p. runs (suc k) (omega (arith, p))) (λ k p. miss (suc k) (omega (arith, p))) hit
        (omega (arith, h))

IsPlain-step : All IsPlain (b's' ∷ [])
IsPlain-step = ground arith

-- The step command without an address.
handle_step-plain :
    (g : Gdb Cpu)
    → handle_packet gdb_target_mcs51
        (received g (b's' ∷ []))
        (ended g.buf (b's' ∷ []) gdb_buf_size)
        1
      ≡ record (received g (b's' ∷ [])) {
        is_running = true;
        single_step = true;
        cpu = set_state g.cpu running;
      }
unfolding handle_packet handle_step uc_vm.Gdb.Packets.resume_at uc_vm.Gdb.Target.state_of
handle_step-plain g = refl

-- With a client, no place that the CPU was resumed from, and no breakpoint at the program
-- counter: a turn of the loop of pc/main.c in which the step command arrives acknowledges it,
-- executes one step of the 8051 and no more, stops, and tells the client.
pub debug_turn-step :
    (g : Gdb Cpu) (x y : ℕ)
    → g.has_client ≡ true
    → g.resume_from_pc ≡ 0xFFFF
    → at_breakpoint g g.cpu ≡ false
    → debug_turn (bytes (b'$' ∷ b's' ∷ b'#' ∷ x ∷ y ∷ [])) g
      ≡ gdb_notify_stop gdb_target_mcs51 (record (received g (b's' ∷ [])) {
        is_running = true;
        single_step = true;
        cpu = (cpu_step (set_state g.cpu running)).1;
      })
unfolding debug_turn set_state
debug_turn-step g x y client left miss =
    let polled = gdb_poll gdb_target_mcs51 (bytes (b'$' ∷ b's' ∷ b'#' ∷ x ∷ y ∷ [])) g in
    let ready = record (received g (b's' ∷ [])) {
      is_running = true;
      single_step = true;
      cpu = set_state g.cpu running;
    } in
    let arrived : polled ≡ ready =
      gdb_poll-frame gdb_target_mcs51 g (b's' ∷ []) x y client IsPlain-step (omega arith)
      ∙ handle_step-plain g in
    ap (λ g1. if g1.is_running then debug_steps 1000 g1 else g1) arrived
    ∙ debug_steps-stop 999 ready _ (
        debug_step-running ready refl
        ∙ try_step-miss ready left miss
        ∙ step_target-single ready refl)

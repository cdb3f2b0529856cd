-- ===== src/Gdb/Poll.antt =====
-- The stub between packets: `gdb_init`, `gdb_poll`, `gdb_check_breakpoint` and `gdb_notify_stop` of
-- src/gdb/gdb_stub.c. What the sockets have for the stub is an argument of a poll.
use uc_vm.Common.{
  ℕ, zero, suc, ◌+◌, ◌-◌, Bool, true, false, ◌||◌, List, [], ◌∷◌, if◌then◌else◌, ltb, ◌==◌, u16,
  update,
}
use uc_vm.Gdb.Stub.{TargetOps, Gdb, gdb_buf_size, send_raw, send_packet}
use uc_vm.Gdb.Packets.{handle_packet}

-- What `select` and `accept`, or `read`, find. A `read` gives at most the 256 bytes of `tmp`; here it
-- may give any number of them.
pub data Arrival : Type 0 where
  nothing connection closed : Arrival
  bytes : List ℕ → Arrival

-- The characters of the buffer from index `i` on, over that many.
abbrev pub chars : (ℕ → ℕ) → ℕ → ℕ → List ℕ
chars buf i zero = []
chars buf i (suc n) = buf i ∷ chars buf (i + 1) n

-- `gdb_init` with sockets that can be opened.
unfoldable pub gdb_init : {Target : Type 0} → Target → Gdb Target
gdb_init cpu = record {
  cpu = cpu;
  has_client = false;
  is_running = false;
  single_step = false;
  should_quit = false;
  resume_from_pc = 0xFFFF;
  breakpoints = λ _. 0;
  bp_count = 0;
  buf = λ _. 0;
  buf_len = 0;
  sent = [];
}

-- The loop of `gdb_check_breakpoint`.
unfoldable pub is_breakpoint : ℕ → (ℕ → ℕ) → ℕ → Bool
is_breakpoint zero table pc = false
is_breakpoint (suc n) table pc = is_breakpoint n table pc || (table n == pc)

module _ {Target : Type 0} (ops : TargetOps Target) where
  -- `buf[buf_len++] = c`, where there is room for a NUL behind it.
  unfoldable pub store_char : Gdb Target → ℕ → Gdb Target
  store_char g c =
      if ltb g.buf_len (gdb_buf_size - 1)
      then record g { buf = update g.buf g.buf_len c; buf_len = g.buf_len + 1 }
      else g

  -- `#`: the string is ended, acknowledged and handled.
  unfoldable pub end_packet : Gdb Target → Gdb Target
  end_packet g =
      let g1 = send_raw (record g { buf = update g.buf g.buf_len 0 }) (43 ∷ []) in
      handle_packet ops g1 (chars g1.buf 0 gdb_buf_size) g1.buf_len

  unfoldable pub interrupt : Gdb Target → Gdb Target
  interrupt g =
      send_packet (record g { is_running = false; single_step = false }) (83 ∷ 48 ∷ 50 ∷ [])

  -- One character other than `#`.
  unfoldable pub feed_char : Gdb Target → ℕ → Gdb Target
  unfolding interrupt store_char
  feed_char g c =
      if c == 3
      then interrupt g
      else if (c == b'+') || (c == b'-')
      then g
      else if c == b'$'
      then record g { buf_len = 0 }
      else store_char g c

  -- The loop over what was read; `skipped` characters more are passed over behind a `#`.
  unfoldable pub feed : ℕ → List ℕ → Gdb Target → Gdb Target
  feed skipped [] g = g
  feed (suc k) (c ∷ s) g = feed k s g
  feed zero (c ∷ s) g =
      feed (if c == b'#' then 2 else 0) s (if c == b'#' then end_packet g else feed_char g c)

  -- A new client: the CPU is halted and reset.
  unfoldable pub accept_client : Gdb Target → Gdb Target
  accept_client g = record g {
    is_running = false;
    cpu = ops.target_reset (ops.target_state g.cpu 2);
    has_client = true;
    should_quit = false;
    single_step = false;
    resume_from_pc = 0xFFFF;
    bp_count = 0;
  }

  unfoldable pub close_client : Gdb Target → Gdb Target
  close_client g = record g { has_client = false; is_running = true; single_step = false }

  -- With a client, by what `read` gives, and without one, by what `accept` gives.
  unfoldable pub poll_client : Arrival → Gdb Target → Gdb Target
  unfolding feed close_client
  poll_client nothing g = g
  poll_client connection g = g
  poll_client closed g = close_client g
  poll_client (bytes s) g = feed 0 s g

  unfoldable pub poll_listen : Arrival → Gdb Target → Gdb Target
  unfolding accept_client
  poll_listen nothing g = g
  poll_listen connection g = accept_client g
  poll_listen closed g = g
  poll_listen (bytes s) g = g

  unfoldable pub gdb_poll : Arrival → Gdb Target → Gdb Target
  unfolding poll_client poll_listen
  gdb_poll arrival g = if g.has_client then poll_client arrival g else poll_listen arrival g

  -- `gdb_check_breakpoint`: the CPU may leave the place that it was resumed from.
  unfoldable pub gdb_check_breakpoint : Gdb Target → Bool × Gdb Target
  unfolding is_breakpoint
  gdb_check_breakpoint g =
      let bp_pc = ops.get_pc g.cpu in
      let hit = is_breakpoint g.bp_count g.breakpoints (u16 bp_pc) in
      if g.resume_from_pc == 0xFFFF
      then (hit, g)
      else if bp_pc == g.resume_from_pc
      then (false, g)
      else (hit, record g { resume_from_pc = 0xFFFF })

  unfoldable pub gdb_notify_stop : Gdb Target → Gdb Target
  gdb_notify_stop g =
      send_packet (record g { is_running = false; single_step = false }) (83 ∷ 48 ∷ 53 ∷ [])

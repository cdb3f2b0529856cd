-- ===== src/Gdb/Bounds.antt =====
-- The arrays of `struct gdb_state` in src/gdb/gdb_stub.c are never left.
use uc_vm.Common.{
  ℕ, suc, zero, ◌≤◌, ◌<◌, arith, List, [], ◌∷◌, if◌then◌else◌, Bool, true, false, Option, none,
  some, ◌==◌,
}
use uc_vm.Gdb.Stub.{TargetOps, Gdb, send_packet, send_ok, send_empty, send_raw, skip}
use uc_vm.Gdb.Packets.{
  handle_read_registers, handle_write_registers, handle_read_memory, handle_write_memory,
  handle_set_breakpoint, handle_clear_breakpoint, remove_breakpoint, resume_at, handle_continue,
  handle_step, detach, handle_query, handle_packet,
}
use uc_vm.Gdb.Poll.{
  Arrival, nothing, connection, closed, bytes, store_char, end_packet, interrupt, feed_char, feed,
  accept_client, close_client, gdb_poll,
}

-- No more breakpoints than entries, and room for a NUL behind the characters received.
pub record IsBounded {Target : Type 0} (g : Gdb Target) : Type 0 where
  pub few_breakpoints : g.bp_count ≤ 8
  pub room_for_nul : g.buf_len < 1024

module _ {Target : Type 0} where
  if-IsBounded :
      (b : Bool) {x y : Gdb Target} → IsBounded x → IsBounded y → IsBounded (if b then x else y)
  if-IsBounded true p q = p
  if-IsBounded false p q = q

  send-IsBounded : (g : Gdb Target) (text : List ℕ) → IsBounded g → IsBounded (send_packet g text)
  unfolding send_packet
  send-IsBounded g text v = ground (arith, v)

  module _ (ops : TargetOps Target) where
    set-IsBounded :
        (g : Gdb Target) (s : List ℕ) → IsBounded g → IsBounded (handle_set_breakpoint ops g s)
    unfolding handle_set_breakpoint send_ok send_empty send_packet
    set-IsBounded g s v = ground (arith, v)

    remove-IsBounded :
        (g : Gdb Target) (found : Option ℕ)
        → IsBounded g
        → IsBounded (remove_breakpoint ops g found)
    unfolding remove_breakpoint
    remove-IsBounded g none v = v
    remove-IsBounded g (some i) v = omega (arith, v)

    clear-IsBounded :
        (g : Gdb Target) (s : List ℕ) → IsBounded g → IsBounded (handle_clear_breakpoint ops g s)
    unfolding handle_clear_breakpoint send_ok send_empty
    clear-IsBounded g s v = grind (arith, v, send-IsBounded, remove-IsBounded)

    resume-IsBounded :
        (g : Gdb Target) (pkt : List ℕ) (len : ℕ)
        → IsBounded g
        → IsBounded (resume_at ops g pkt len)
    unfolding resume_at
    resume-IsBounded g pkt len v = ground (arith, v)

    continue-IsBounded :
        (g : Gdb Target) (pkt : List ℕ) (len : ℕ)
        → IsBounded g
        → IsBounded (handle_continue ops g pkt len)
    unfolding handle_continue
    continue-IsBounded g pkt len v = omega (arith, resume-IsBounded g pkt len v)

    step-IsBounded :
        (g : Gdb Target) (pkt : List ℕ) (len : ℕ)
        → IsBounded g
        → IsBounded (handle_step ops g pkt len)
    unfolding handle_step
    step-IsBounded g pkt len v = omega (arith, resume-IsBounded g pkt len v)

    detach-IsBounded : (g : Gdb Target) → IsBounded g → IsBounded (detach ops g)
    unfolding detach
    detach-IsBounded g v = omega (arith, v)

    query-IsBounded :
        (g : Gdb Target) (pkt : List ℕ) → IsBounded g → IsBounded (handle_query ops g pkt)
    unfolding handle_query send_empty send_packet
    query-IsBounded g pkt v = ground (arith, v)

    memory-IsBounded :
        (g : Gdb Target) (s : List ℕ) → IsBounded g → IsBounded (handle_read_memory ops g s)
    unfolding handle_read_memory
    memory-IsBounded g s v = send-IsBounded _ _ (omega (arith, v))

    registers-IsBounded : (g : Gdb Target) → IsBounded g → IsBounded (handle_read_registers ops g)
    unfolding handle_read_registers
    registers-IsBounded g v = send-IsBounded g _ v

    write-IsBounded :
        (g : Gdb Target) (s : List ℕ) → IsBounded g → IsBounded (handle_write_registers ops g s)
    unfolding handle_write_registers send_ok
    write-IsBounded g s v = send-IsBounded _ _ (omega (arith, v))

    store-IsBounded :
        (g : Gdb Target) (s : List ℕ) → IsBounded g → IsBounded (handle_write_memory ops g s)
    unfolding handle_write_memory send_ok
    store-IsBounded g s v = send-IsBounded _ _ (omega (arith, v))

    packet-IsBounded :
        (g : Gdb Target) (pkt : List ℕ) (len : ℕ)
        → IsBounded g
        → IsBounded (handle_packet ops g pkt len)
    unfolding handle_packet send_ok send_empty
    packet-IsBounded g pkt len v = ground (
      arith,
      v,
      send-IsBounded g (83 ∷ 48 ∷ 53 ∷ []) v,
      send-IsBounded g (79 ∷ 75 ∷ []) v,
      send-IsBounded g [] v,
      registers-IsBounded g v,
      write-IsBounded g (skip 1 pkt) v,
      memory-IsBounded g (skip 1 pkt) v,
      store-IsBounded g (skip 1 pkt) v,
      continue-IsBounded g pkt len v,
      step-IsBounded g pkt len v,
      set-IsBounded g (skip 1 pkt) v,
      clear-IsBounded g (skip 1 pkt) v,
      detach-IsBounded (send_packet g (79 ∷ 75 ∷ [])) (send-IsBounded g (79 ∷ 75 ∷ []) v),
      detach-IsBounded g v,
      query-IsBounded g pkt v,
    )

    end-IsBounded : (g : Gdb Target) → IsBounded g → IsBounded (end_packet ops g)
    unfolding end_packet send_raw
    end-IsBounded g v = packet-IsBounded _ _ _ (ground (arith, v))

    char-IsBounded : (g : Gdb Target) (c : ℕ) → IsBounded g → IsBounded (feed_char ops g c)
    unfolding feed_char interrupt store_char send_packet
    char-IsBounded g c v = ground (arith, v)

    feed-IsBounded :
        (k : ℕ) (s : List ℕ) (g : Gdb Target) → IsBounded g → IsBounded (feed ops k s g)
    unfolding feed
    feed-IsBounded zero [] g v = v
    feed-IsBounded (suc k) [] g v = v
    feed-IsBounded (suc k) (c ∷ s) g v = feed-IsBounded k s g v
    feed-IsBounded zero (c ∷ s) g v =
        feed-IsBounded (if c == b'#' then 2 else 0) s _
          (if-IsBounded (c == b'#') (end-IsBounded g v) (char-IsBounded g c v))

    -- Whatever the client sends and whatever the CPU is, a poll keeps the breakpoints within
    -- their table of 8 and the characters received within the buffer of 1024, with room for
    -- a NUL, where they were so before.
    pub gdb_poll-IsBounded :
        (arrival : Arrival) (g : Gdb Target) → IsBounded g → IsBounded (gdb_poll ops arrival g)
    unfolding gdb_poll close_client accept_client
    gdb_poll-IsBounded nothing g v = if-IsBounded g.has_client v v
    gdb_poll-IsBounded connection g v = ground (arith, v)
    gdb_poll-IsBounded closed g v = ground (arith, v)
    gdb_poll-IsBounded (bytes s) g v = if-IsBounded g.has_client (feed-IsBounded 0 s g v) v

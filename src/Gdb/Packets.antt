-- ===== src/Gdb/Packets.antt =====
-- The commands of the stub: the handlers and `handle_packet` of src/gdb/gdb_stub.c.
use uc_vm.Common.{
  ℕ, zero, suc, ◌+◌, ◌-◌, ◌%◌, ◌^◌, Bool, true, false, Option, none, some, List, [], ◌∷◌, ◌++◌,
  if◌then◌else◌, ltb, leb, ◌&&◌, ◌==◌, u16, update, nonzero, not,
}
use uc_vm.Gdb.Stub.{
  TargetOps, Gdb, gdb_max_breakpoints, hex_byte, parse_hex, skip, first, hex_pair_in, send_packet,
  send_ok, send_empty,
}

-- The two characters behind a pointer, where neither is NUL, as a byte, and the pointer behind them.
unfoldable pub take_byte : List ℕ → Option (ℕ × List ℕ)
take_byte [] = none
take_byte (c ∷ s) =
    if nonzero c && nonzero (first s) then some (hex_pair_in 256 c (first s), skip 1 s) else none

-- `strncmp(pkt, text, length of text) == 0`.
unfoldable pub has_prefix : List ℕ → List ℕ → Bool
has_prefix [] pkt = true
has_prefix (c ∷ text) [] = false
has_prefix (c ∷ text) (d ∷ pkt) = (c == d) && has_prefix text pkt

-- "qSupported", "qAttached", "qTStatus", and the answer "PacketSize=400".
abbrev pub q_supported : List ℕ
q_supported = 113 ∷ 83 ∷ 117 ∷ 112 ∷ 112 ∷ 111 ∷ 114 ∷ 116 ∷ 101 ∷ 100 ∷ []

abbrev pub q_attached : List ℕ
q_attached = 113 ∷ 65 ∷ 116 ∷ 116 ∷ 97 ∷ 99 ∷ 104 ∷ 101 ∷ 100 ∷ []

abbrev pub q_t_status : List ℕ
q_t_status = 113 ∷ 84 ∷ 83 ∷ 116 ∷ 97 ∷ 116 ∷ 117 ∷ 115 ∷ []

abbrev pub packet_size : List ℕ
packet_size = 80 ∷ 97 ∷ 99 ∷ 107 ∷ 101 ∷ 116 ∷ 83 ∷ 105 ∷ 122 ∷ 101 ∷ 61 ∷ 52 ∷ 48 ∷ 48 ∷ []

-- The loop of `handle_clear_breakpoint` from entry `i` on, over that many entries: the index of the
-- first entry that is `pc`.
unfoldable pub find_breakpoint : ℕ → ℕ → (ℕ → ℕ) → ℕ → Option ℕ
find_breakpoint zero i table pc = none
find_breakpoint (suc n) i table pc =
    let later = find_breakpoint n (i + 1) table pc in if table i == pc then some i else later

module _ {Target : Type 0} (ops : TargetOps Target) where
  unfoldable pub handle_read_registers : Gdb Target → Gdb Target
  handle_read_registers g = send_packet g (ops.read_regs g.cpu)

  unfoldable pub handle_write_registers : Gdb Target → List ℕ → Gdb Target
  handle_write_registers g data_at = send_ok (record g { cpu = ops.write_regs g.cpu data_at })

  -- The loop of `handle_read_memory`.
  unfoldable pub read_bytes : ℕ → ℕ → Target → List ℕ × Target
  read_bytes zero addr t = ([], t)
  read_bytes (suc n) addr t =
      let (val, t1) = ops.read_mem t addr in
      let (rest, t2) = read_bytes n ((addr + 1) % 2 ^ 32) t1 in (hex_byte val ++ rest, t2)

  -- At most 511 bytes are read.
  unfoldable pub handle_read_memory : Gdb Target → List ℕ → Gdb Target
  unfolding read_bytes
  handle_read_memory g data_at =
      let (addr, len1) = parse_hex data_at in
      let (length, len2) = parse_hex (skip (len1 + 1) data_at) in
      let (text, t) = read_bytes (if ltb 511 length then 511 else length) addr g.cpu in
      send_packet (record g { cpu = t }) text

  -- The loop of `handle_write_memory`, over the characters that are left: it ends with the length or
  -- the string.
  unfoldable pub write_bytes : ℕ → ℕ → List ℕ → Target → Target
  write_bytes length addr [] t = t
  write_bytes length addr (c ∷ []) t = t
  write_bytes length addr (c ∷ d ∷ s) t =
      let rest =
        write_bytes (length - 1) ((addr + 1) % 2 ^ 32) s
          (ops.write_mem t addr (hex_pair_in 256 c d)) in
      if nonzero length && nonzero c && nonzero d then rest else t

  unfoldable pub handle_write_memory : Gdb Target → List ℕ → Gdb Target
  unfolding write_bytes
  handle_write_memory g data_at =
      let (addr, len1) = parse_hex data_at in
      let data1 = skip (len1 + 1) data_at in
      let (length, len2) = parse_hex data1 in
      send_ok (record g { cpu = write_bytes length addr (skip (len2 + 1) data1) g.cpu })

  -- Only breakpoints of type 0 are known.
  unfoldable pub handle_set_breakpoint : Gdb Target → List ℕ → Gdb Target
  handle_set_breakpoint g data_at =
      let pc = u16 (parse_hex (skip 2 data_at)).0 in
      if not (first data_at == 48)
      then send_empty g
      else if leb gdb_max_breakpoints g.bp_count
      then send_packet g (69 ∷ 48 ∷ 49 ∷ [])
      else send_ok
          (record g { breakpoints = update g.breakpoints g.bp_count pc; bp_count = g.bp_count + 1 })

  -- The last entry takes the place of the one that is removed.
  unfoldable pub remove_breakpoint : Gdb Target → Option ℕ → Gdb Target
  remove_breakpoint g none = g
  remove_breakpoint g (some i) = record g {
    breakpoints = update g.breakpoints i (g.breakpoints (g.bp_count - 1));
    bp_count = g.bp_count - 1;
  }

  unfoldable pub handle_clear_breakpoint : Gdb Target → List ℕ → Gdb Target
  unfolding remove_breakpoint
  handle_clear_breakpoint g data_at =
      let pc = u16 (parse_hex (skip 2 data_at)).0 in
      if not (first data_at == 48)
      then send_empty g
      else send_ok (remove_breakpoint g (find_breakpoint g.bp_count 0 g.breakpoints pc))

  -- `if (len > 1) set_pc(cpu, parse_hex(pkt + 1, &hlen))`.
  unfoldable pub resume_at : Gdb Target → List ℕ → ℕ → Gdb Target
  resume_at g pkt len =
      if ltb 1 len then record g { cpu = ops.target_pc g.cpu (parse_hex (skip 1 pkt)).0 } else g

  unfoldable pub handle_continue : Gdb Target → List ℕ → ℕ → Gdb Target
  unfolding resume_at
  handle_continue g pkt len =
      let g1 = resume_at g pkt len in
      record g1 {
        single_step = false;
        resume_from_pc = u16 (ops.get_pc g1.cpu);
        is_running = true;
        cpu = ops.target_state g1.cpu 0;
      }

  unfoldable pub handle_step : Gdb Target → List ℕ → ℕ → Gdb Target
  unfolding resume_at
  handle_step g pkt len =
      let g1 = resume_at g pkt len in
      record g1 { single_step = true; is_running = true; cpu = ops.target_state g1.cpu 0 }

  -- `close(client_fd)` and what a detach and a kill do.
  unfoldable pub detach : Gdb Target → Gdb Target
  detach g = record g { has_client = false; is_running = true; single_step = false; bp_count = 0 }

  unfoldable pub handle_query : Gdb Target → List ℕ → Gdb Target
  handle_query g pkt =
      if has_prefix q_supported pkt
      then send_packet g packet_size
      else if has_prefix q_attached pkt
      then send_packet g (49 ∷ [])
      else if has_prefix q_t_status pkt
      then send_packet g (84 ∷ 48 ∷ [])
      else send_empty g

  -- `handle_packet`: the switch on the first character.
  unfoldable pub handle_packet : Gdb Target → List ℕ → ℕ → Gdb Target
  unfolding handle_read_registers handle_write_registers handle_read_memory handle_write_memory
      handle_set_breakpoint handle_clear_breakpoint handle_continue handle_step detach handle_query
  handle_packet g pkt len =
      let c = first pkt in
      let args = skip 1 pkt in
      if len == 0
      then g
      else if c == b'?'
      then send_packet g (83 ∷ 48 ∷ 53 ∷ [])
      else if c == b'g'
      then handle_read_registers g
      else if c == b'G'
      then handle_write_registers g args
      else if c == b'm'
      then handle_read_memory g args
      else if c == b'M'
      then handle_write_memory g args
      else if c == b'c'
      then handle_continue g pkt len
      else if c == b's'
      then handle_step g pkt len
      else if c == b'Z'
      then handle_set_breakpoint g args
      else if c == b'z'
      then handle_clear_breakpoint g args
      else if c == b'D'
      then detach (send_ok g)
      else if c == b'k'
      then detach g
      else if c == b'q'
      then handle_query g pkt
      else if c == b'H'
      then send_ok g
      else send_empty g

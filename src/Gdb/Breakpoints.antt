-- ===== src/Gdb/Breakpoints.antt =====
-- The table of breakpoints of src/gdb/gdb_stub.c as a bag of addresses: what counts is how often an
-- address is in it.
use uc_vm.Common.{
  ℕ, zero, suc, ◌+◌, ◌-◌, ◌≤◌, ◌<◌, ◌≡◌, ◌≢◌, ◌⊎◌, inl, inr, ◌∙◌, refl, ap, arith, none, some, List,
  if◌then◌else◌, ltb, leb, ◌==◌, u16, update, Bool-cases,
}
use native.Mathlib.Numerals.{add-one}
use uc_vm.Gdb.Stub.{TargetOps, Gdb, parse_hex, skip, first, send_packet, send_ok}
use uc_vm.Gdb.Packets.{
  find_breakpoint, remove_breakpoint, handle_set_breakpoint, handle_clear_breakpoint,
}
use uc_vm.Gdb.Poll.{is_breakpoint}

-- How often `a` stands among the first `n` entries.
abbrev pub times : ℕ → (ℕ → ℕ) → ℕ → ℕ
times zero table a = 0
times (suc n) table a = times n table a + (if table n == a then 1 else 0)

times-update :
    (n i v : ℕ) (table : ℕ → ℕ) (a : ℕ) → n ≤ i → times n (update table i v) a ≡ times n table a
times-update zero i v table a h = refl
times-update (suc n) i v table a h =
    ground (arith, h, times-update n i v table a (omega (arith, h)))

-- A write below `n` replaces one entry.
times-update_in :
    (n i v : ℕ) (table : ℕ → ℕ) (a : ℕ)
    → i < n
    → times n (update table i v) a + (if table i == a then 1 else 0)
      ≡ times n table a + (if v == a then 1 else 0)
times-update_in zero i v table a h = absurd (omega (arith, h))
times-update_in (suc n) i v table a h = elim (Bool-cases (n == i)) [
  | inl e ↦ ground (arith, e, times-update n i v table a (ground (arith, e)))
  | inr e ↦ ground (arith, e, h, times-update_in n i v table a (ground (arith, e, h)))
]

-- The search finds an entry, or there is none.
find_breakpoint_lem :
    (n i : ℕ) (table : ℕ → ℕ) (pc : ℕ)
    → ((k : ℕ) × (find_breakpoint n i table pc ≡ some k) × (i ≤ k) × (k < i + n) × (table k ≡ pc))
      ⊎ ((find_breakpoint n i table pc ≡ none) × ((k : ℕ) → i ≤ k → k < i + n → table k ≢ pc))
unfolding find_breakpoint
find_breakpoint_lem zero i table pc = inr (refl, λ k p q. absurd (omega (arith, p, q)))
find_breakpoint_lem (suc n) i table pc = elim (Bool-cases (table i == pc)) [
  | inl e ↦ inl (i, rw e refl, omega arith, omega arith, ground (arith, e))
  | inr e ↦ elim (find_breakpoint_lem n (i + 1) table pc) [
    | inl (k, found, low, high, here) ↦
        inl (k, rw e found, omega (arith, low), omega (arith, high), here)
    | inr (missed, nowhere) ↦ inr (rw e missed, λ k p q. λ z. ground (arith, e, nowhere k, p, q, z))
  ]
]

none_times : (n : ℕ) (table : ℕ → ℕ) (a : ℕ) → ((k : ℕ) → k < n → table k ≢ a) → times n table a ≡ 0
none_times zero table a h = refl
none_times (suc n) table a h =
    ground (arith, h n (omega arith), none_times n table a (λ k p. h k (omega (arith, p))))

-- The last of `n` entries in the place of entry `k`, which is `pc`.
removed :
    (n k pc : ℕ) (table : ℕ → ℕ) (a : ℕ)
    → k < n
    → table k ≡ pc
    → times (n - 1) (update table k (table (n - 1))) a
      ≡ times n table a - (if pc == a then 1 else 0)
removed zero k pc table a h e = absurd (omega (arith, h))
removed (suc n) k pc table a h e =
    let at_end : suc n - 1 ≡ n = omega arith in
    ap (λ m. times m (update table k (table m)) a) at_end ∙ elim (Bool-cases (k == n)) [
      | inl last ↦
          ground (arith, last, e, times-update n k (table n) table a (ground (arith, last)))
      | inr earlier ↦
          ground (arith, e, times-update_in n k (table n) table a (ground (arith, earlier, h)))
    ]

-- `is_breakpoint` asks whether the address is in the bag.
pub is_breakpoint-times :
    (n : ℕ) (table : ℕ → ℕ) (a : ℕ) → is_breakpoint n table a ≡ ltb 0 (times n table a)
unfolding is_breakpoint
is_breakpoint-times zero table a = refl
is_breakpoint-times (suc n) table a = ground (arith, is_breakpoint-times n table a)

-- The address of a command.
abbrev pub address : List ℕ → ℕ
address data_at = u16 (parse_hex (skip 2 data_at)).0

module _ {Target : Type 0} where
  -- The bag of the stub.
  abbrev pub bag : Gdb Target → ℕ → ℕ
  bag g a = times g.bp_count g.breakpoints a

  bag-send : (g : Gdb Target) (text : List ℕ) (a : ℕ) → bag (send_packet g text) a ≡ bag g a
  unfolding send_packet
  bag-send g text a = ground arith

  module _ (ops : TargetOps Target) where
    -- For a breakpoint of type 0 and a table that is not full, the command puts its address into the
    -- bag; a full table stays as it is.
    pub handle_set_breakpoint-bag :
        (g : Gdb Target) (data_at : List ℕ) (a : ℕ)
        → first data_at ≡ 48
        → bag (handle_set_breakpoint ops g data_at) a ≡ (
            if leb 8 g.bp_count then bag g a else bag g a + (if address data_at == a then 1 else 0))
    unfolding handle_set_breakpoint send_ok
    handle_set_breakpoint-bag g data_at a h =
        let put = update g.breakpoints g.bp_count (address data_at) in
        let more = record g { breakpoints = put; bp_count = g.bp_count + 1 } in
        elim (Bool-cases (leb 8 g.bp_count)) [
          | inl full ↦ rw (h, full) (bag-send g _ a)
          | inr room ↦
              rw (h, room)
                (bag-send more _ a
                  ∙ ap (λ n. times n put a) (add-one g.bp_count)
                  ∙ ground
                      (arith, times-update g.bp_count g.bp_count (address data_at) g.breakpoints a))
        ]

    -- For a breakpoint of type 0, the clear command takes its address out of the bag of
    -- addresses that the table stands for once, if it is there, and leaves every other
    -- address in it as often as before.
    pub handle_clear_breakpoint-bag :
        (g : Gdb Target) (data_at : List ℕ) (a : ℕ)
        → first data_at ≡ 48
        → bag (handle_clear_breakpoint ops g data_at) a
          ≡ bag g a - (if address data_at == a then 1 else 0)
    unfolding handle_clear_breakpoint remove_breakpoint send_ok
    handle_clear_breakpoint-bag g data_at a h =
        elim (find_breakpoint_lem g.bp_count 0 g.breakpoints (address data_at)) [
          | inl (k, found, low, high, here) ↦
              rw (h, found)
                (bag-send _ _ a
                  ∙ removed g.bp_count k (address data_at) g.breakpoints a (omega (arith, high))
                      here)
          | inr (missed, nowhere) ↦
              rw (h, missed)
                (bag-send g _ a
                  ∙ ground (
                    arith,
                    none_times g.bp_count g.breakpoints (address data_at)
                        (λ k p. nowhere k (omega arith) (omega (arith, p))),
                  ))
        ]

-- ===== src/Bridge/RoundTrip.antt =====
-- The binary form of the table of src/io/io_bridge.c: what is written is read back.
use uc_vm.Common.{
  ℕ, zero, suc, ◌+◌, ◌*◌, ◌/◌, ◌%◌, ◌≤◌, ◌<◌, ◌≡◌, ◌∙◌, refl, ap, ap₂, arith, false, some, List,
  ◌∷◌, ◌++◌, ltb, length, length-append, update, update_self,
}
use uc_vm.Bridge.Table.{
  BridgeEntry, IoBridge, io_bridge_serialize, io_bridge_parse, io_magic, io_version, entry_bytes,
  copy_in, copy_out, entry_count,
}
use uc_vm.Bridge.Entries.{from_entry, bridge_list, update_elsewhere}

copy_in-below :
    (n i j k : ℕ) (source table : ℕ → BridgeEntry) (rest : List ℕ)
    → k < i
    → copy_in n i (copy_out n j source ++ rest) table k ≡ table k
unfolding copy_in copy_out entry_bytes
copy_in-below zero i j k source table rest h = refl
copy_in-below (suc n) i j k source table rest h =
    copy_in-below n (i + 1) (j + 1) k source _ rest (omega (arith, h))
    ∙ update_elsewhere table i k _ (omega (arith, h))

-- The two bytes of a parameter.
entry_halves : (e : BridgeEntry) → record e { param = e.param / 256 * 256 + e.param % 256 } ≡ e
entry_halves e = ap (λ p. record e { param = p }) (omega arith)

copy_in-copy_out :
    (n i j : ℕ) (source table : ℕ → BridgeEntry) (rest : List ℕ)
    → from_entry n i (copy_in n i (copy_out n j source ++ rest) table) ≡ from_entry n j source
unfolding copy_in copy_out entry_bytes
copy_in-copy_out zero i j source table rest = refl
copy_in-copy_out (suc n) i j source table rest =
    let e = source j in
    let stored = update table i (record e { param = e.param / 256 * 256 + e.param % 256 }) in
    ap₂ (λ x y. x ∷ y)
      (copy_in-below n (i + 1) (j + 1) i source stored rest (omega arith)
        ∙ update_self table i _
        ∙ entry_halves e)
      (copy_in-copy_out n (i + 1) (j + 1) source stored rest)

length-copy_out : (n j : ℕ) (source : ℕ → BridgeEntry) → length (copy_out n j source) ≡ n * 8
unfolding copy_out entry_bytes
length-copy_out zero j source = refl
length-copy_out (suc n) j source = omega (arith, length-copy_out n (j + 1) source)

-- The bytes of a table.
abbrev pub bridge_bytes : IoBridge → List ℕ
bridge_bytes br =
    io_magic ++ (io_version ∷ br.num_entries ∷ 0 ∷ 0 ∷ copy_out br.num_entries 0 br.entries)

-- A table of the bridge with no more than 8 entries, written to a buffer that is large enough
-- and read back from the bytes written, whatever stands behind them, into any table, gives a
-- table with the same list of entries; the CPU and its operations stay those of the table that
-- is read into.
pub io_bridge_parse-io_bridge_serialize :
    (br old : IoBridge) (len : ℕ) (rest : List ℕ)
    → br.num_entries ≤ 8
    → 8 + br.num_entries * 8 ≤ len
    → (text : List ℕ) × (io_bridge_serialize br len ≡ some text)
      × (length text ≡ 8 + br.num_entries * 8)
      × ((new : IoBridge) × (io_bridge_parse (text ++ rest) old ≡ some new)
          × (bridge_list new ≡ bridge_list br)
          × (new.bridge_cpu ≡ old.bridge_cpu)
          × (new.mcu_ops ≡ old.mcu_ops))
unfolding io_bridge_serialize io_bridge_parse
io_bridge_parse-io_bridge_serialize br old len rest few room =
    let n = br.num_entries in
    let body = copy_out n 0 br.entries ++ rest in
    let size : length body ≡ n * 8 + length rest =
      length-append (copy_out n 0 br.entries) rest
      ∙ omega (arith, length-copy_out n 0 br.entries) in
    let count : entry_count n ≡ n = ground (arith, few) in
    let fits : ltb len (8 + n * 8) ≡ false = ground (arith, room) in
    let whole : ltb (length body) (n * 8) ≡ false = ground (arith, size) in
    let new = record old { entries = copy_in n 0 body old.entries; num_entries = n } in
    (
      bridge_bytes br,
      rw fits refl,
      omega (arith, length-copy_out n 0 br.entries),
      (new, rw (count, whole) refl, copy_in-copy_out n 0 0 br.entries old.entries rest, refl, refl),
    )

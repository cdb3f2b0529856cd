-- ===== src/Bridge/Table.antt =====
-- The table of the bridge and its binary form: src/io/io_bridge.h and src/io/io_bridge.c. The bytes
-- of an entry are those of its struct on a little-endian host. The pointers to the CPU and to its
-- operations are only kept, and are numbers.
use uc_vm.Common.{
  ℕ, zero, suc, ◌+◌, ◌-◌, ◌*◌, ◌/◌, ◌%◌, ◌^◌, Bool, true, false, Option, none, some, List, [], ◌∷◌,
  ◌++◌, if◌then◌else◌, ltb, leb, ◌==◌, ◌&&◌, ◌||◌, not, u8, update, length,
}

-- `io_bridge_entry_t`.
pub record BridgeEntry : Type 0 where
  pub mcu_periph : ℕ
  pub mcu_index : ℕ
  pub mcu_pin : ℕ
  pub host_type : ℕ
  pub host_index : ℕ
  pub entry_flags : ℕ
  pub param : ℕ

-- `io_bridge_t`.
pub record IoBridge : Type 0 where
  pub entries : ℕ → BridgeEntry
  pub num_entries : ℕ
  pub bridge_cpu : ℕ
  pub mcu_ops : ℕ

-- IO_BRIDGE_MAX_ENTRIES.
abbrev pub io_bridge_max_entries : ℕ
io_bridge_max_entries = 8

-- Eight bytes of 0.
abbrev pub zero_entry : BridgeEntry
zero_entry = record {
  mcu_periph = 0;
  mcu_index = 0;
  mcu_pin = 0;
  host_type = 0;
  host_index = 0;
  entry_flags = 0;
  param = 0;
}

unfoldable pub io_bridge_init : ℕ → ℕ → IoBridge
io_bridge_init cpu ops = record {
  entries = λ _. zero_entry;
  num_entries = 0;
  bridge_cpu = cpu;
  mcu_ops = ops;
}

-- none stands for -1.
unfoldable pub io_bridge_add : IoBridge → BridgeEntry → Option ℕ × IoBridge
io_bridge_add br entry = if leb io_bridge_max_entries br.num_entries then (none, br) else (
  some br.num_entries,
  record br {
    entries = update br.entries br.num_entries entry;
    num_entries = u8 (br.num_entries + 1);
  },
)

-- The loop of `io_bridge_remove` from entry `i` on, over that many turns.
unfoldable pub move_down : ℕ → ℕ → (ℕ → BridgeEntry) → ℕ → BridgeEntry
move_down zero i table = table
move_down (suc n) i table = move_down n (i + 1) (update table i (table (i + 1)))

-- The index is an `int` by its 32 bits. Whether it was removed.
unfoldable pub io_bridge_remove : IoBridge → ℕ → Bool × IoBridge
unfolding move_down
io_bridge_remove br index =
    if leb (2 ^ 31) index || leb br.num_entries index then (false, br) else (
      true,
      record br {
        entries = move_down (br.num_entries - 1 - index) index br.entries;
        num_entries = br.num_entries - 1;
      },
    )

-- The bytes of an entry.
unfoldable pub entry_bytes : BridgeEntry → List ℕ
entry_bytes e =
    e.mcu_periph
    ∷ e.mcu_index
    ∷ e.mcu_pin
    ∷ e.host_type
    ∷ e.host_index
    ∷ e.entry_flags
    ∷ (e.param % 256)
    ∷ (e.param / 256)
    ∷ []

-- `memcpy` of that many entries from entry `i` on.
unfoldable pub copy_out : ℕ → ℕ → (ℕ → BridgeEntry) → List ℕ
unfolding entry_bytes
copy_out zero i table = []
copy_out (suc n) i table = entry_bytes (table i) ++ copy_out n (i + 1) table

-- IO_MAGIC, and IO_VERSION.
abbrev pub io_magic : List ℕ
io_magic = b'U' ∷ b'C' ∷ b'I' ∷ b'O' ∷ []

abbrev pub io_version : ℕ
io_version = 3

-- The bytes written to a buffer of `len` bytes. Their number is what the function returns; none
-- stands for -1, with nothing written.
unfoldable pub io_bridge_serialize : IoBridge → ℕ → Option (List ℕ)
unfolding copy_out
io_bridge_serialize br len =
    if ltb len (8 + br.num_entries * 8)
    then none
    else some
        (io_magic ++ (io_version ∷ br.num_entries ∷ 0 ∷ 0 ∷ copy_out br.num_entries 0 br.entries))

-- `memcpy` of that many entries into the table from entry `i` on. The bytes are there.
unfoldable pub copy_in : ℕ → ℕ → List ℕ → (ℕ → BridgeEntry) → ℕ → BridgeEntry
copy_in zero i bytes table = table
copy_in (suc n) i (b0 ∷ b1 ∷ b2 ∷ b3 ∷ b4 ∷ b5 ∷ lo ∷ hi ∷ bytes) table = copy_in n (i + 1) bytes (
    update table i (record {
      mcu_periph = b0;
      mcu_index = b1;
      mcu_pin = b2;
      host_type = b3;
      host_index = b4;
      entry_flags = b5;
      param = hi * 256 + lo;
    }))
copy_in (suc n) i short table = table

-- The number of entries that are read.
abbrev pub entry_count : ℕ → ℕ
entry_count count = if ltb io_bridge_max_entries count then io_bridge_max_entries else count

-- The data have `len` bytes. none stands for -1, with the table as it was.
unfoldable pub io_bridge_parse : List ℕ → IoBridge → Option IoBridge
unfolding copy_in
io_bridge_parse (m0 ∷ m1 ∷ m2 ∷ m3 ∷ version ∷ count ∷ r0 ∷ r1 ∷ body) br =
    if not ((m0 == b'U') && (m1 == b'C') && (m2 == b'I') && (m3 == b'O'))
    then none
    else if not (version == io_version)
    then none
    else if ltb (length body) (entry_count count * 8)
    then none
    else some (record br {
      entries = copy_in (entry_count count) 0 body br.entries;
      num_entries = entry_count count;
    })
io_bridge_parse short br = none

-- ===== src/Avr/Decode/Predecode.antt =====
-- `avr_predecode` of src/avr/avr_decode.c: the loop over the words of flash and the two passes
-- that fuse instructions. The first loop runs on fuel, the number of words: each turn passes at
-- least one.
use uc_vm.Common.{
  ℕ, zero, suc, ◌+◌, ◌-◌, ◌/◌, Bool, true, false, ◌&&◌, u8, if◌then◌else◌, ltb, ◌==◌, update,
}
use uc_vm.Avr.Cpu.{
  AvrCpu, AvrOp, Decoded, op_subi, op_sbci, op_brbc, op_dec, op_data, op_delay2, op_delay3,
  op_subi_brne, op_dec_brne,
}
use uc_vm.Avr.Exec.Outcome.{is_32bit}
use uc_vm.Avr.Decode.Operands.{decoded}
use uc_vm.Avr.Decode.Classify.{classify}

-- `avr_decoded_t *`.
abbrev pub Cache : Type 0
Cache = ℕ → Decoded

-- One turn: the entry of word `i`, and of the word behind it where that belongs to it.
unfoldable pub decode_at : AvrCpu → ℕ → Cache → ℕ × Cache
unfolding is_32bit
decode_at c i cache =
    let num_words = c.flash_size / 2 in
    let d = classify c.variant.flags i (c.flash i) (c.flash (i + 1)) (ltb (i + 1) num_words) in
    let cache1 = update cache i d in
    let cache2 =
      if ltb (i + 1) num_words then update cache1 (i + 1) (decoded op_data 0 0) else cache1 in
    if is_32bit d.op then (i + 2, cache2) else (i + 1, cache1)

unfoldable pub decode_words : ℕ → AvrCpu → ℕ → Cache → Cache
unfolding decode_at
decode_words zero c i cache = cache
decode_words (suc fuel) c i cache =
    let (i', cache') = decode_at c i cache in
    let rest = decode_words fuel c i' cache' in if ltb i (c.flash_size / 2) then rest else cache

-- Tests on the operation of an entry.
unfoldable pub is_subi : AvrOp → Bool
is_subi op_subi = true
is_subi _ = false

unfoldable pub is_sbci : AvrOp → Bool
is_sbci op_sbci = true
is_sbci _ = false

unfoldable pub is_brbc : AvrOp → Bool
is_brbc op_brbc = true
is_brbc _ = false

unfoldable pub is_dec : AvrOp → Bool
is_dec op_dec = true
is_dec _ = false

-- SBCI with constant 0.
unfoldable pub is_sbci_0 : Decoded → Bool
unfolding is_sbci
is_sbci_0 d = is_sbci d.op && (u8 d.b == 0)

-- BRNE.
unfoldable pub is_brne : Decoded → Bool
unfolding is_brbc
is_brne d = is_brbc d.op && (d.a == 0x02)

-- `cache[i].op = o`.
unfoldable pub set_op : Cache → ℕ → AvrOp → Cache
set_op cache i o = update cache i (record (cache i) { op = o })

-- One turn of the first pass: a delay loop of three or of two bytes at `i`.
unfoldable pub fuse_delay : ℕ → ℕ → Cache → Cache
unfolding is_subi is_sbci_0 is_brne set_op
fuse_delay num_words i cache =
    if is_subi (cache i).op
    then (if ltb (i + 3) num_words
          && is_sbci_0 (cache (i + 1))
          && is_sbci_0 (cache (i + 2))
          && is_brne (cache (i + 3))
          && ((cache (i + 3)).b == i)
        then set_op cache i op_delay3
        else if ltb (i + 2) num_words
            && is_sbci_0 (cache (i + 1))
            && is_brne (cache (i + 2))
            && ((cache (i + 2)).b == i)
        then set_op cache i op_delay2
        else cache)
    else cache

-- One turn of the second pass: a pair at `i`.
unfoldable pub fuse_pair : ℕ → Cache → Cache
unfolding is_subi is_dec is_brne set_op
fuse_pair i cache =
    if is_brne (cache (i + 1))
    then (if is_subi (cache i).op
        then set_op cache i op_subi_brne
        else if is_dec (cache i).op
        then set_op cache i op_dec_brne
        else cache)
    else cache

-- The passes from `i` on, over that many words.
unfoldable pub fuse_delays : ℕ → ℕ → ℕ → Cache → Cache
fuse_delays zero num_words i cache = cache
fuse_delays (suc n) num_words i cache =
    fuse_delays n num_words (i + 1) (fuse_delay num_words i cache)

unfoldable pub fuse_pairs : ℕ → ℕ → Cache → Cache
fuse_pairs zero i cache = cache
fuse_pairs (suc n) i cache = fuse_pairs n (i + 1) (fuse_pair i cache)

unfoldable pub predecode : AvrCpu → AvrCpu
predecode c =
    let num_words = c.flash_size / 2 in
    let cache1 = decode_words num_words c 0 c.decode_cache in
    let cache2 = fuse_delays (num_words - 3) num_words 0 cache1 in
    record c { decode_cache = fuse_pairs (num_words - 1) 0 cache2 }

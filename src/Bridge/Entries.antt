-- ===== src/Bridge/Entries.antt =====
-- The table of src/io/io_bridge.c as the list of its entries.
use uc_vm.Common.{
  ℕ, zero, suc, ◌+◌, ◌-◌, ◌≤◌, ◌<◌, ◌≡◌, ◌≢◌, ◌∙◌, refl, ap, ap₂, arith, true, false, List, [], ◌∷◌,
  ◌++◌, if◌then◌else◌, ltb, leb, ◌||◌, update, update_self, ◌^◌, u8, Bool-cases, inl, inr,
}
use uc_vm.Bridge.Table.{BridgeEntry, IoBridge, io_bridge_add, io_bridge_remove, move_down}

-- The entries of a table from `i` on, that many.
abbrev pub from_entry {ℓ} : {A : Type ℓ} → ℕ → ℕ → (ℕ → A) → List A
from_entry zero i table = []
from_entry (suc n) i table = table i ∷ from_entry n (i + 1) table

-- What the bridge holds.
abbrev pub bridge_list : IoBridge → List BridgeEntry
bridge_list br = from_entry br.num_entries 0 br.entries

-- A list without its element at an index.
abbrev pub without {ℓ} : {A : Type ℓ} → ℕ → List A → List A
without i [] = []
without zero (x ∷ xs) = xs
without (suc i) (x ∷ xs) = x ∷ without i xs

pub update_elsewhere :
    (table : ℕ → BridgeEntry) (k i : ℕ) (v : BridgeEntry) → i ≢ k → update table k v i ≡ table i
update_elsewhere table k i v h = ground (arith, h)

from_entry-update :
    (n i k : ℕ) (v : BridgeEntry) (table : ℕ → BridgeEntry)
    → k < i
    → from_entry n i (update table k v) ≡ from_entry n i table
from_entry-update zero i k v table h = refl
from_entry-update (suc n) i k v table h =
    ap₂ (λ x y. x ∷ y) (update_elsewhere table k i v (omega (arith, h)))
      (from_entry-update n (i + 1) k v table (omega (arith, h)))

from_entry-snoc :
    (n i : ℕ) (v : BridgeEntry) (table : ℕ → BridgeEntry)
    → from_entry (suc n) i (update table (i + n) v) ≡ from_entry n i table ++ (v ∷ [])
from_entry-snoc zero i v table =
    let here : i + 0 ≡ i = omega arith in
    ap (λ k. update table k v i ∷ []) here ∙ ap (λ x. x ∷ []) (update_self table i v)
from_entry-snoc (suc n) i v table =
    let next : i + suc n ≡ i + 1 + n = omega arith in
    ap₂ (λ x y. x ∷ y) (update_elsewhere table (i + suc n) i v (omega arith))
      (ap (λ k. from_entry (suc n) (i + 1) (update table k v)) next
        ∙ from_entry-snoc n (i + 1) v table)

move_down-below : (n i k : ℕ) (table : ℕ → BridgeEntry) → k < i → move_down n i table k ≡ table k
unfolding move_down
move_down-below zero i k table h = refl
move_down-below (suc n) i k table h =
    move_down-below n (i + 1) k (update table i (table (i + 1))) (omega (arith, h))
    ∙ update_elsewhere table i k (table (i + 1)) (omega (arith, h))

from_entry-move_down :
    (n i : ℕ) (table : ℕ → BridgeEntry)
    → from_entry n i (move_down n i table) ≡ from_entry n (i + 1) table
unfolding move_down
from_entry-move_down zero i table = refl
from_entry-move_down (suc n) i table =
    ap₂ (λ x y. x ∷ y)
      (move_down-below n (i + 1) i (update table i (table (i + 1))) (omega arith)
        ∙ update_self table i (table (i + 1)))
      (from_entry-move_down n (i + 1) (update table i (table (i + 1)))
        ∙ from_entry-update n (i + 1 + 1) i (table (i + 1)) table (omega arith))

-- Entries before the one that is removed stay, those behind it move down by one.
from_entry-without :
    (n i k : ℕ) (table : ℕ → BridgeEntry)
    → from_entry (k + n) i (move_down n (i + k) table) ≡ without k (from_entry (k + suc n) i table)
from_entry-without n i zero table =
    let more : suc n ≡ 0 + suc n = omega arith in
    ap₂ (λ m k. from_entry m i (move_down n k table)) (omega arith) (omega arith)
    ∙ from_entry-move_down n i table
    ∙ ap (λ m. without 0 (from_entry m i table)) more
from_entry-without n i (suc k) table =
    let less : suc k + n ≡ suc (k + n) = omega arith in
    let at : i + suc k ≡ i + 1 + k = omega arith in
    let more : suc (k + suc n) ≡ suc k + suc n = omega arith in
    ap₂ (λ m p. from_entry m i (move_down n p table)) less at
    ∙ ap₂ (λ x y. x ∷ y) (move_down-below n (i + 1 + k) i table (omega arith))
        (from_entry-without n (i + 1) k table)
    ∙ ap (λ m. without (suc k) (from_entry m i table)) more

-- A full table stays as it is, and else the entry comes behind those that are there.
pub io_bridge_add-bridge_list :
    (br : IoBridge) (entry : BridgeEntry)
    → br.num_entries ≤ 8
    → bridge_list (io_bridge_add br entry).1
      ≡ (if leb 8 br.num_entries then bridge_list br else bridge_list br ++ (entry ∷ []))
unfolding io_bridge_add
io_bridge_add-bridge_list br entry h = elim (Bool-cases (leb 8 br.num_entries)) [
  | inl full ↦ rw full refl
  | inr room ↦
      let next : u8 (br.num_entries + 1) ≡ suc br.num_entries = ground (arith, h) in
      rw room (
        ap (λ n. from_entry n 0 (update br.entries br.num_entries entry)) next
        ∙ ap (λ k. from_entry (suc br.num_entries) 0 (update br.entries k entry)) (omega arith)
        ∙ from_entry-snoc br.num_entries 0 entry br.entries)
]

-- From a table of the bridge with no more than 8 entries, removing by an index takes the entry
-- at that index out of the list of entries and keeps all others in their order; where there is
-- none at the index, the list stays.
pub io_bridge_remove-without :
    (br : IoBridge) (index : ℕ)
    → br.num_entries ≤ 8
    → bridge_list (io_bridge_remove br index).1
      ≡ (if ltb index br.num_entries then without index (bridge_list br) else bridge_list br)
unfolding io_bridge_remove
io_bridge_remove-without br index h = elim (Bool-cases (ltb index br.num_entries)) [
  | inl there ↦
      let inside : (leb (2 ^ 31) index || leb br.num_entries index) ≡ false =
        ground (arith, h, there) in
      let n = br.num_entries - 1 - index in
      let lower : br.num_entries - 1 ≡ index + n = ground (arith, there) in
      let all : index + suc n ≡ br.num_entries = ground (arith, there) in
      rw (inside, there)
        (ap₂ (λ m k. from_entry m 0 (move_down n k br.entries)) lower (omega arith)
          ∙ from_entry-without n 0 index br.entries
          ∙ ap (λ m. without index (from_entry m 0 br.entries)) all)
  | inr outside ↦
      let refused : (leb (2 ^ 31) index || leb br.num_entries index) ≡ true =
        ground (arith, h, outside) in
      rw (refused, outside) refl
]

-- ===== src/Block/Sequence.antt =====
-- src/db/block.cc: a sequence of entries in a block, and the iterator over it.
use hedge_db.Base.{
  ℕ, zero, suc, ◌+◌, ◌-◌, ◌%◌, ◌^◌, ◌≤◌, ◌<◌, ◌≡◌, refl, ◌∙◌, ap, inl, inr, Bool-cases, List, [],
  ◌∷◌, ◌++◌, length, Bool, false, leb, ◌==◌, if◌then◌else◌, bit_and, append_assoc, arith, All,
  le→ltb, lt→ltb, le→leb,
}
use hedge_db.Key.{Key}
use hedge_db.Block.Encoder.{compute_shared_prefix_length, restart_entry, delta_entry}
use hedge_db.Block.Iterator.{BlockIterator, read_next, at_block_end, read_entries}
use hedge_db.Block.Entries.{read_restart_key-restart_entry, read_delta_key-delta_entry, shared-le}

abbrev pub Entry : Type 0
Entry = Key × List ℕ

-- The keys whose entries can be read back wherever they stand, with any value that a block holds.
abbrev pub IsStorable : Entry → Type 0
IsStorable (k, v) = (1 ≤ length k) × (length k ≤ 255) × (length v < 2 ^ 35)

-- Whether the entry of an index starts a group.
abbrev pub is_restart : ℕ → ℕ → Bool
is_restart g idx = bit_and idx (g - 1) == 0

abbrev pub entry_bytes : ℕ → ℕ → Key → Entry → List ℕ
entry_bytes g idx prev (k, v) =
    if is_restart g idx
    then restart_entry k v
    else delta_entry (compute_shared_prefix_length prev k) k v

abbrev pub all_bytes : ℕ → ℕ → Key → List Entry → List ℕ
all_bytes g idx prev [] = []
all_bytes g idx prev ((k, v) ∷ kvs) = entry_bytes g idx prev (k, v) ++ all_bytes g (idx + 1) k kvs

-- The last key of a sequence.
abbrev pub last_of : Key → List Entry → Key
last_of prev [] = prev
last_of prev ((k, v) ∷ kvs) = last_of k kvs

-- The offsets of the entries that start a group, as the trailer holds them.
abbrev pub restarts : ℕ → ℕ → ℕ → Key → List Entry → List ℕ
restarts g idx pos prev [] = []
restarts g idx pos prev ((k, v) ∷ kvs) =
    let rest = restarts g (idx + 1) (pos + length (entry_bytes g idx prev (k, v))) k kvs in
    if is_restart g idx then (pos % 2 ^ 16) ∷ rest else rest

module _ (it : BlockIterator) (k : Key) (v rest : List ℕ) (storable : IsStorable (k, v)) where
  -- One step of the iterator reads one entry.
  pub read_next-entry_bytes :
      it.kv_idx < it.kvs_in_block_count
      → it.head ≡ entry_bytes it.restart_group_size it.kv_idx it.key (k, v) ++ rest
      → read_next it ≡ record it { kv_idx = it.kv_idx + 1; key = k; value = v; head = rest }
  unfolding read_next
  read_next-entry_bytes more at = elim (Bool-cases (is_restart it.restart_group_size it.kv_idx)) [
    | inl start ↦
        rw (within, start)
          (read_restart_key-restart_entry k v rest (record it { kv_idx = it.kv_idx + 1 }) storable.2
            storable.0 (omega arith) (rw start at at))
    | inr inner ↦
        rw (within, inner)
          (read_delta_key-delta_entry k v rest (record it { kv_idx = it.kv_idx + 1 }) storable.2
            it.key (omega (arith, shared-le it.key k)) (omega arith) refl (rw inner at at))
  ]
    where
      within : leb it.kvs_in_block_count it.kv_idx ≡ false
      within = ground arith

-- Behind the last entry the iterator only counts on.
read_next-end :
    (it : BlockIterator)
    → it.kvs_in_block_count ≤ it.kv_idx
    → read_next it ≡ record it { kv_idx = it.kv_idx + 1 }
unfolding read_next
read_next-end it h = rw (le→leb _ _ h) refl

read_entries-at_end :
    (fuel : ℕ) (it : BlockIterator) → it.kvs_in_block_count < it.kv_idx → read_entries fuel it ≡ []
unfolding read_entries at_block_end
read_entries-at_end zero it h = refl
read_entries-at_end (suc fuel) it h = rw (lt→ltb _ _ h) refl

read_entries-more :
    (fuel : ℕ) (it : BlockIterator)
    → it.kv_idx ≤ it.kvs_in_block_count
    → read_entries (suc fuel) it ≡ (it.key, it.value) ∷ read_entries fuel (read_next it)
unfolding read_entries at_block_end
read_entries-more fuel it h = rw (le→ltb _ _ h) refl

-- The iterator that has not read the entry at its index yet meets the entries from there on.
pub read_entries-all_bytes :
    (kvs : List Entry) (fuel : ℕ) (rest : List ℕ) (it : BlockIterator)
    → All IsStorable kvs
    → it.head ≡ all_bytes it.restart_group_size it.kv_idx it.key kvs ++ rest
    → it.kvs_in_block_count ≡ it.kv_idx + length kvs
    → length kvs < fuel
    → read_entries fuel (read_next it) ≡ kvs
read_entries-all_bytes kvs zero rest it ok at count h = absurd (omega arith)
read_entries-all_bytes [] (suc fuel) rest it ok at count h =
    rw (read_next-end it (omega arith)) (read_entries-at_end (suc fuel) _ (omega arith))
read_entries-all_bytes ((k, v) ∷ kvs) (suc fuel) rest it (ok, oks) at count h =
    let tail = all_bytes it.restart_group_size (it.kv_idx + 1) k kvs ++ rest in
    let first = entry_bytes it.restart_group_size it.kv_idx it.key (k, v) in
    rw (read_next-entry_bytes it k v tail ok (omega arith) (at ∙ append_assoc first _ rest)) (
      read_entries-more fuel _ (omega arith)
      ∙ ap (λ (r : List Entry). (k, v) ∷ r)
          (read_entries-all_bytes kvs fuel rest _ oks refl (omega arith) (omega arith)))

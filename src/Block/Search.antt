-- ===== src/Block/Search.antt =====
-- src/db/block.cc: the loop of `block_decoder::find` over the entries of one group.
use hedge_db.Base.{
  ℕ, zero, suc, ◌+◌, ◌≤◌, ◌<◌, ◌≡◌, refl, ◌∙◌, ap, ◌⊎◌, inl, inr, Bool-cases, List, [], ◌∷◌, ◌++◌,
  length, Bool, true, false, leb, ◌||◌, if◌then◌else◌, append_assoc, arith, All, le→ltb, lt→ltb,
}
use hedge_db.Key.{Key, key_eq}
use hedge_db.Block.Iterator.{
  BlockIterator, read_next, read_restart_key, read_delta_key, read_value, at_group_end,
}
use hedge_db.Block.Decoder.{find_in_group}
use hedge_db.Block.Sequence.{
  Entry, IsStorable, is_restart, entry_bytes, all_bytes, read_next-entry_bytes,
}

-- The value of a key among some entries; an empty value stands for a key that is not there.
abbrev pub lookup : Key → List Entry → List ℕ
lookup key [] = []
lookup key ((k, v) ∷ kvs) = let later = lookup key kvs in if key_eq k key then v else later

-- What a step of the iterator leaves as it is.
read_next-counts :
    (it : BlockIterator)
    → ((read_next it).kv_idx ≡ it.kv_idx + 1)
      × ((read_next it).starting_kv_idx ≡ it.starting_kv_idx)
      × ((read_next it).kvs_in_block_count ≡ it.kvs_in_block_count)
      × ((read_next it).restart_group_size ≡ it.restart_group_size)
unfolding read_next read_restart_key read_delta_key read_value
read_next-counts it = elim (Bool-cases (leb it.kvs_in_block_count it.kv_idx)) [
  | inl end ↦ rw end (refl, refl, refl, refl)
  | inr more ↦ elim (Bool-cases (is_restart it.restart_group_size it.kv_idx)) [
    | inl start ↦ rw (more, start) (refl, refl, refl, refl)
    | inr inner ↦ rw (more, inner) (refl, refl, refl, refl)
  ]
]

-- Behind the group, or behind the block, the loop ends.
abbrev pub IsBehind : ℕ → BlockIterator → Type 0
IsBehind n it =
    (it.starting_kv_idx + it.restart_group_size ≤ it.kv_idx + n)
    ⊎ (it.kvs_in_block_count ≤ it.kv_idx + n)

at_group_end-read_next : (it : BlockIterator) → IsBehind 0 it → at_group_end (read_next it) ≡ true
unfolding at_group_end
at_group_end-read_next it h =
    let (i, s, c, g) = read_next-counts it in
    let next = read_next it in
    elim h [
      | inl group ↦
          rw
            (lt→ltb (next.starting_kv_idx + next.restart_group_size) next.kv_idx
              (omega (arith, i, s, g, group)))
            refl
      | inr block ↦
          or_true _ _ (lt→ltb next.kvs_in_block_count next.kv_idx (omega (arith, i, c, block)))
    ]
  where
    or_true : (a b : Bool) → b ≡ true → (a || b) ≡ true
    or_true true b h = refl
    or_true false b h = h

find_in_group-end :
    (fuel : ℕ) (key : Key) (it : BlockIterator)
    → IsBehind 0 it
    → find_in_group fuel key (read_next it) ≡ []
unfolding find_in_group
find_in_group-end zero key it h = refl
find_in_group-end (suc fuel) key it h = rw (at_group_end-read_next it h) refl

find_in_group-more :
    (fuel : ℕ) (key : Key) (it : BlockIterator)
    → it.kv_idx ≤ it.starting_kv_idx + it.restart_group_size
    → it.kv_idx ≤ it.kvs_in_block_count
    → find_in_group (suc fuel) key it
      ≡ (if key_eq it.key key then it.value else find_in_group fuel key (read_next it))
unfolding find_in_group at_group_end
find_in_group-more fuel key it h k = rw (le→ltb _ _ h, le→ltb _ _ k) refl

IsBehind-next :
    (n : ℕ) (it it' : BlockIterator)
    → it'.kv_idx ≡ it.kv_idx + 1
    → it'.starting_kv_idx ≡ it.starting_kv_idx
    → it'.kvs_in_block_count ≡ it.kvs_in_block_count
    → it'.restart_group_size ≡ it.restart_group_size
    → IsBehind (suc n) it
    → IsBehind n it'
IsBehind-next n it it' i s c g (inl group) = inl (omega arith)
IsBehind-next n it it' i s c g (inr block) = inr (omega arith)

-- The iterator that has not read the entry at its index yet finds the key's value among the entries
-- from there to the end of the group.
pub find_in_group-lookup :
    (kvs rest : List Entry) (fuel : ℕ) (key : Key) (behind : List ℕ) (it : BlockIterator)
    → All IsStorable kvs
    → it.head ≡ all_bytes it.restart_group_size it.kv_idx it.key (kvs ++ rest) ++ behind
    → it.kv_idx + length kvs ≤ it.starting_kv_idx + it.restart_group_size
    → it.kv_idx + length kvs ≤ it.kvs_in_block_count
    → IsBehind (length kvs) it
    → length kvs < fuel
    → find_in_group fuel key (read_next it) ≡ lookup key kvs
find_in_group-lookup kvs rest zero key behind it ok at group block end h = absurd (omega arith)
find_in_group-lookup [] rest (suc fuel) key behind it ok at group block end h =
    find_in_group-end (suc fuel) key it end
find_in_group-lookup ((k, v) ∷ kvs) rest (suc fuel) key behind it (ok, oks) at group block end h =
    let tail = all_bytes it.restart_group_size (it.kv_idx + 1) k (kvs ++ rest) ++ behind in
    let first = entry_bytes it.restart_group_size it.kv_idx it.key (k, v) in
    let it' : BlockIterator = record it {
      kv_idx = it.kv_idx + 1;
      key = k;
      value = v;
      head = tail;
    } in
    rw (read_next-entry_bytes it k v tail ok (omega arith) (at ∙ append_assoc first _ behind)) (
      find_in_group-more fuel key it' (omega arith) (omega arith)
      ∙ ap (λ (r : List ℕ). if key_eq k key then v else r)
          (find_in_group-lookup kvs rest fuel key behind it' oks refl (omega arith) (omega arith)
            (IsBehind-next (length kvs) it it' refl refl refl refl end) (omega arith)))

-- ===== src/Merge/Run.antt =====
-- src/db/merge/merge.cc: the heap and the loop of `k_way_merge_async2`. A source is what is left of a
-- file's entries, in its order; reads and writes succeed, and what is written is a list. A throw is
-- `none`.
use hedge_db.Base.{
  ℕ, zero, suc, ◌+◌, List, [], ◌∷◌, ◌++◌, length, Bool, false, ltb, ◌==◌, ◌&&◌, if◌then◌else◌,
  Option, some, none,
}
use hedge_db.Key.{Key, key_lt, key_eq}
use hedge_db.Base.Status.{Expected, ok, err, error}
use hedge_db.Value.{Value, tombstone, value_from_span, tag_tombstone}
use hedge_db.Merge.Deduplicator.{
  MergeEntry, Deduplicator, deduplicator, push, ready, pop, force_pop,
}

-- What the file of an epoch still has to give.
pub record Source : Type 0 where
  pub epoch : ℕ
  pub rest : List (Key × List ℕ)

pub record Slot : Type 0 where
  pub entry : MergeEntry
  pub source : Source

-- Whether an entry leaves the heap before another: `heap_item_t_comparator` with its arguments
-- exchanged, since the heap's top is the greatest item.
unfoldable pub pops_before : MergeEntry → MergeEntry → Bool
pops_before a b = if key_eq a.key b.key then ltb b.epoch a.epoch else key_lt a.key b.key

-- `pop_heap` and `pop_back`: the top of a heap whose items are the first slot and those of a list.
unfoldable pub pop_heap : Slot → List Slot → Slot × List Slot
pop_heap s [] = (s, [])
pop_heap s (t ∷ ts) =
    let r = pop_heap t ts in if pops_before r.0.entry s.entry then (r.0, s ∷ r.1) else (s, t ∷ ts)

-- The source's next entry goes to the heap.
abbrev pub refill_from : ℕ → List (Key × List ℕ) → List Slot → List Slot
refill_from epoch [] heap = heap
refill_from epoch ((k, v) ∷ rest) heap =
    record {
      entry = record { key = k; value = v; epoch = epoch };
      source = record { epoch = epoch; rest = rest };
    }
    ∷ heap

unfoldable pub refill : Source → List Slot → List Slot
refill source heap = refill_from source.epoch source.rest heap

-- The heap with the first entry of each source.
unfoldable pub init_heap : List Source → List Slot
init_heap [] = []
init_heap (s ∷ ss) = refill s (init_heap ss)

abbrev pub has_tag : List ℕ → Bool
has_tag [] = false
has_tag (t ∷ bs) = t == tag_tombstone

-- The type tag of the value's bytes.
unfoldable pub is_tombstone : MergeEntry → Bool
is_tombstone e = has_tag e.value

pub record MergeState : Type 0 where
  pub dedup : Deduplicator
  pub written : List MergeEntry
  pub filtered_keys : ℕ

abbrev pub new_state : MergeState
new_state = record { dedup = deduplicator; written = []; filtered_keys = 0 }

-- All entries that the sources have.
unfoldable pub total : List Source → ℕ
total [] = 0
total (s ∷ ss) = length s.rest + total ss

-- The value at the front of a source, read before it goes to the heap.
abbrev pub front_value : List (Key × List ℕ) → Expected Value
front_value [] = ok tombstone
front_value ((k, v) ∷ rest) = value_from_span v

module _ (discard_deleted_keys : Bool) where
  -- An entry that the deduplicator gives is written, or dropped as a deletion.
  unfoldable pub write_item : MergeEntry → MergeState → MergeState
  write_item e s =
      if discard_deleted_keys && is_tombstone e
      then record s { filtered_keys = s.filtered_keys + 1 }
      else record s { written = s.written ++ e ∷ [] }

  abbrev pub write_popped : Option (MergeEntry × Deduplicator) → MergeState → MergeState
  write_popped none s = s
  write_popped (some (e, d)) s = write_item e (record s { dedup = d })

  -- What one turn does with the entry that leaves the heap.
  unfoldable pub take_entry : MergeEntry → MergeState → MergeState
  take_entry e s =
      let s' = record s { dedup = push e s.dedup } in
      if ready s'.dedup then write_popped (pop s'.dedup) s' else s'

  -- The loop where every value can be read.
  unfoldable pub turns : ℕ → List Slot → MergeState → MergeState
  turns zero heap s = s
  turns (suc fuel) [] s = s
  turns (suc fuel) (slot ∷ heap) s =
      let r = pop_heap slot heap in turns fuel (refill r.0.source r.1) (take_entry r.0.entry s)

  abbrev pub goes_on :
      (List Slot → MergeState → Expected MergeState)
      → Slot × List Slot
      → MergeState
      → Expected Value
      → Expected MergeState
  goes_on next r s (ok v) = next (refill r.0.source r.1) (take_entry r.0.entry s)
  goes_on next r s (err e) =
      err (error "Failed to parse value from index entry during heap initialization: ")

  unfoldable pub merge_loop : ℕ → List Slot → MergeState → Expected MergeState
  merge_loop zero heap s = ok s
  merge_loop (suc fuel) [] s = ok s
  merge_loop (suc fuel) (slot ∷ heap) s =
      let r = pop_heap slot heap in goes_on (merge_loop fuel) r s (front_value r.0.source.rest)

  -- The items that are left in the deduplicator.
  abbrev pub write_last : MergeState → Option (MergeEntry × Deduplicator) → Option MergeState
  write_last s none = none
  write_last s (some (e, d)) = some (write_item e (record s { dedup = d }))

  unfoldable pub finish : MergeState → Option MergeState
  finish s =
      let s' = if ready s.dedup then write_popped (pop s.dedup) s else s in
      write_last s' (force_pop s'.dedup)

  abbrev pub finished : Expected MergeState → Expected (Option MergeState)
  finished (ok s) = ok (finish s)
  finished (err e) = err e

  -- The merge, from the first entries of the sources on; a turn for each entry.
  unfoldable pub merge : List Source → Expected (Option MergeState)
  merge sources = finished (merge_loop (total sources) (init_heap sources) new_state)

-- `std::ranges::max_element` with the comparison of the source, over the inputs' epochs.
unfoldable pub max_element : ℕ → List ℕ → ℕ
max_element largest [] = largest
max_element largest (e ∷ es) =
    let here = max_element e es in
    let there = max_element largest es in if ltb e largest then here else there

-- The account of keys: those written, those dropped as duplicates and those dropped as deletions.
abbrev pub key_count : MergeState → ℕ
key_count s = length s.written + s.dedup.deduplicated_keys + s.filtered_keys

-- ===== src/Memtable/Skiplist.antt =====
-- src/db/memtable.h and src/db/memtable.cc: `skiplist_wrapper`. The skip list itself is code of
-- another project: what the wrapper calls of it is the interface `SkiplistOps`.
use hedge_db.Base.{
  All, ◌≢◌, ℕ, ◌+◌, ◌-◌, ◌%◌, ◌^◌, ◌≡◌, List, [], ◌∷◌, Bool, true, false, if◌then◌else◌, Option,
  some, none,
}
use hedge_db.Base.Sort.{insert, IsSorted}
use hedge_db.Key.{Key, key_eq}
use hedge_db.Memtable.Entry.{MemtableEntry, memtable_lt}

-- The elements of a sorted list from the first that is not before a given one.
unfoldable pub from_bound : MemtableEntry → List MemtableEntry → List MemtableEntry
from_bound e [] = []
from_bound e (x ∷ xs) = let rest = from_bound e xs in if memtable_lt x e then rest else x ∷ xs

-- The skip list as the sequence of its elements, and an iterator as the elements from it on.
-- An element that is equal to one that is there would be refused; a new sequence number is none.
pub record SkiplistOps : Type 0 where
  pub add : MemtableEntry → List MemtableEntry → List MemtableEntry
  pub lower_bound : MemtableEntry → List MemtableEntry → List MemtableEntry
  pub add-lem :
      (e : MemtableEntry) (l : List MemtableEntry)
      → IsSorted memtable_lt l
      → All (λ (x : MemtableEntry). x.seq ≢ e.seq) l
      → add e l ≡ insert memtable_lt e l
  pub lower_bound-lem :
      (e : MemtableEntry) (l : List MemtableEntry)
      → IsSorted memtable_lt l
      → lower_bound e l ≡ from_bound e l

abbrev pub uint64_max : ℕ
uint64_max = 2 ^ 64 - 1

-- The list, and the counter `_seq_nr` that all tables of a database share.
pub record SkiplistWrapper : Type 0 where
  pub entries : List MemtableEntry
  pub seq_nr : ℕ

abbrev pub value_at : Key → List MemtableEntry → Option (List ℕ)
value_at key [] = none
value_at key (x ∷ xs) = if key_eq x.key key then some x.value else none

module _ (ops : SkiplistOps) where
  -- `insert`, which reports whether it succeeded and the sequence number; `fits` says whether the
  -- allocation of the node succeeds.
  unfoldable pub insert_entry : Bool → Key → List ℕ → SkiplistWrapper → SkiplistWrapper × (Bool × ℕ)
  insert_entry fits key value w =
      let seq = w.seq_nr in
      let counted = record w { seq_nr = (w.seq_nr + 1) % 2 ^ 64 } in
      if fits
      then (
        record counted {
          entries = ops.add (record { key = key; seq = seq; value = value }) w.entries;
        },
        (true, seq),
      )
      else (counted, (false, 0))

  unfoldable pub get_value : Key → List MemtableEntry → Option (List ℕ)
  get_value key entries =
      value_at key (ops.lower_bound (record { key = key; seq = uint64_max; value = [] }) entries)

-- ===== src/Memtable/Cursor.antt =====
-- src/db/merge/sst_stream.h: `memtable_cursor`. An iterator of the list is what stands from it on, and
-- `end_count` is the number of elements that stand from `_end` on.
use hedge_db.Base.{
  ℕ, zero, suc, ◌+◌, List, [], ◌∷◌, length, Bool, ltb, ◌==◌, if◌then◌else◌, Option, some, none,
}
use hedge_db.Key.{Key, key_eq}
use hedge_db.Memtable.Entry.{MemtableEntry}
use hedge_db.Memtable.Skiplist.{SkiplistOps, uint64_max}

pub record MemtableCursor : Type 0 where
  pub it : List MemtableEntry
  pub end_count : ℕ
  pub max_seq : ℕ
  pub epoch : ℕ

unfoldable pub skip_invisible : ℕ → ℕ → List MemtableEntry → List MemtableEntry
skip_invisible end_count max_seq [] = []
skip_invisible end_count max_seq (x ∷ it) =
    let rest = skip_invisible end_count max_seq it in
    if length it + 1 == end_count then x ∷ it else if ltb max_seq x.seq then rest else x ∷ it

unfoldable pub skip_duplicate_keys : ℕ → Key → List MemtableEntry → List MemtableEntry
skip_duplicate_keys end_count key [] = []
skip_duplicate_keys end_count key (x ∷ it) =
    let rest = skip_duplicate_keys end_count key it in
    if length it + 1 == end_count then x ∷ it else if key_eq x.key key then rest else x ∷ it

unfoldable pub is_eof : MemtableCursor → Bool
is_eof c = length c.it == c.end_count

-- `++_it`; at the end of the list it has no meaning in the source.
abbrev pub next : List MemtableEntry → List MemtableEntry
next [] = []
next (x ∷ it) = it

abbrev pub front_key : List MemtableEntry → Key
front_key [] = []
front_key (x ∷ it) = x.key

unfoldable pub pop_front : MemtableCursor → MemtableCursor
pop_front c = record c {
  it =
      skip_duplicate_keys c.end_count (front_key c.it)
        (skip_invisible c.end_count c.max_seq (next c.it));
}

module _ (ops : SkiplistOps) where
  abbrev bound : Key → MemtableEntry
  bound key = record { key = key; seq = uint64_max; value = [] }

  abbrev pub lower_end : Option Key → List MemtableEntry → List MemtableEntry
  lower_end none entries = entries
  lower_end (some key) entries = ops.lower_bound (bound key) entries

  abbrev pub upper_end : Option Key → List MemtableEntry → List MemtableEntry
  upper_end none entries = []
  upper_end (some key) entries = next (ops.lower_bound (bound key) entries)

  unfoldable pub memtable_cursor :
      List MemtableEntry → Option Key → Option Key → ℕ → ℕ → MemtableCursor
  memtable_cursor mem lower upper epoch max_seq =
      let end_count = length (upper_end upper mem) in
      record {
        it = skip_invisible end_count max_seq (lower_end lower mem);
        end_count = end_count;
        max_seq = max_seq;
        epoch = epoch;
      }

-- The loop of a scan, with the entries that it meets.
abbrev pub met_front : List MemtableEntry → List MemtableEntry → List MemtableEntry
met_front [] rest = rest
met_front (x ∷ it) rest = x ∷ rest

unfoldable pub drain : ℕ → MemtableCursor → List MemtableEntry
drain zero c = []
drain (suc fuel) c =
    let rest = drain fuel (pop_front c) in if is_eof c then [] else met_front c.it rest

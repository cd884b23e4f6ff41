-- ===== src/Sst/Newest.antt =====
-- src/db/index_ops.cc: the entries of a memtable that go to a table, and their lookup.
use hedge_db.Base.{
  ℕ, ◌≡◌, refl, sym, ◌∙◌, ap, List, [], ◌∷◌, map, true, false, Option, some, none, All, Bool-cases,
  inl, inr,
}
use hedge_db.Base.Sort.{IsSorted}
use hedge_db.Key.{Key, key_lt, key_eq}
use hedge_db.Key.Order.{key_eq→eq, key_lt_trans, key_eq_refl, key_total}
use hedge_db.Memtable.Entry.{MemtableEntry, memtable_lt, before-lt, smaller_key}
use hedge_db.Memtable.Drain.{firsts, firsts_after}
use hedge_db.Memtable.Lookup.{first_of}
use hedge_db.Block.Sequence.{Entry}
use hedge_db.Block.Search.{lookup}
use hedge_db.Block.Find.{Ascending}
use hedge_db.Sst.Entries.{entry_of}

-- What a lookup in a table gives for what one in the memtable does.
abbrev pub or_empty : Option (List ℕ) → List ℕ
or_empty none = []
or_empty (some v) = v

first_of-firsts_after :
    (key k : Key) (es : List MemtableEntry)
    → key_eq k key ≡ false
    → first_of key (firsts_after k es) ≡ first_of key es
first_of-firsts_after key k [] h = refl
first_of-firsts_after key k (x ∷ es) h = elim (Bool-cases (key_eq x.key k)) [
  | inl same ↦
      let other : key_eq x.key key ≡ false =
        ap (λ (j : Key). key_eq j key) (key_eq→eq x.key k same) ∙ h in
      rw (same, other) (first_of-firsts_after key k es h)
  | inr differ ↦ elim (Bool-cases (key_eq x.key key)) [
    | inl hit ↦ rw (differ, hit) refl
    | inr miss ↦ rw (differ, miss) (first_of-firsts_after key x.key es miss)
  ]
]

-- The first entry of a key is among the entries that are written.
pub first_of-firsts :
    (key : Key) (es : List MemtableEntry) → first_of key (firsts es) ≡ first_of key es
first_of-firsts key [] = refl
first_of-firsts key (x ∷ es) = elim (Bool-cases (key_eq x.key key)) [
  | inl hit ↦ rw hit refl
  | inr miss ↦ rw miss (first_of-firsts_after key x.key es miss)
]

lookup-map :
    (key : Key) (es : List MemtableEntry)
    → lookup key (map entry_of es) ≡ or_empty (first_of key es)
lookup-map key [] = refl
lookup-map key (x ∷ es) = elim (Bool-cases (key_eq x.key key)) [
  | inl hit ↦ rw hit refl
  | inr miss ↦ rw miss (lookup-map key es)
]

-- A lookup among the entries that are written gives the first entry of the key.
pub lookup-firsts :
    (key : Key) (es : List MemtableEntry)
    → lookup key (map entry_of (firsts es)) ≡ or_empty (first_of key es)
lookup-firsts key es = lookup-map key (firsts es) ∙ ap or_empty (first_of-firsts key es)

-- In order, an entry behind another one has its key or a greater one.
key-above :
    (x y : MemtableEntry)
    → memtable_lt y x ≡ false
    → key_eq y.key x.key ≡ false
    → key_lt x.key y.key ≡ true
key-above x y h differ = elim (Bool-cases (key_lt x.key y.key)) [
  | inl above ↦ above
  | inr not_above ↦ elim (Bool-cases (key_lt y.key x.key)) [
    | inl below ↦ absurd (cc (h, before-lt y x (smaller_key below)))
    | inr not_below ↦ absurd (
        cc (
          differ,
          key_eq_refl x.key,
          ap (λ (j : Key). key_eq j x.key) (key_total y.key x.key not_below not_above),
        ))
  ]
]

-- The order of two keys, one of them behind an entry that is not the key.
firsts_after-All :
    (k : Key) (x : MemtableEntry) (es : List MemtableEntry)
    → x.key ≡ k
    → All (λ (y : MemtableEntry). memtable_lt y x ≡ false) es
    → IsSorted memtable_lt es
    → All (λ (y : Entry). key_lt k y.0 ≡ true) (map entry_of (firsts_after k es))
      × Ascending (map entry_of (firsts_after k es))
firsts_after-All k x [] e h s = (tt, tt)
firsts_after-All k x (y ∷ es) e (h, hs) (l, s) = elim (Bool-cases (key_eq y.key k)) [
  | inl same ↦ rw same (firsts_after-All k x es e hs s)
  | inr differ ↦
      let above : key_lt k y.key ≡ true =
        ap (λ (j : Key). key_lt j y.key) (sym e) ∙ key-above x y h (ap (key_eq y.key) e ∙ differ) in
      let r = firsts_after-All y.key y es refl l s in
      rw differ
        ((above, raise k y.key (map entry_of (firsts_after y.key es)) above r.0), (r.0, r.1))
]
  where
    raise :
        (k k' : Key) (ys : List Entry)
        → key_lt k k' ≡ true
        → All (λ (y : Entry). key_lt k' y.0 ≡ true) ys
        → All (λ (y : Entry). key_lt k y.0 ≡ true) ys
    raise k k' [] a h = tt
    raise k k' ((j, v) ∷ ys) a (h, hs) = (key_lt_trans k k' j a h, raise k k' ys a hs)

-- The entries that are written rise.
pub firsts-Ascending :
    (es : List MemtableEntry) → IsSorted memtable_lt es → Ascending (map entry_of (firsts es))
firsts-Ascending [] s = tt
firsts-Ascending (x ∷ es) (l, s) = firsts_after-All x.key x es refl l s

pub firsts-All {κ} :
    (P : MemtableEntry → Type κ) (es : List MemtableEntry) → All P es → All P (firsts es)
firsts-All P [] h = tt
firsts-All P (x ∷ es) (h, hs) = (h, after x.key es hs)
  where
    after : (k : Key) (ys : List MemtableEntry) → All P ys → All P (firsts_after k ys)
    after k [] h = tt
    after k (y ∷ ys) (h, hs) = elim (Bool-cases (key_eq y.key k)) [
      | inl same ↦ rw same (after k ys hs)
      | inr differ ↦ rw differ (h, after y.key ys hs)
    ]

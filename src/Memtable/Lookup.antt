-- ===== src/Memtable/Lookup.antt =====
-- src/db/memtable.cc: a lookup finds the newest entry of its key.
use hedge_db.Base.{
  ℕ, ◌+◌, ◌%◌, ◌^◌, ◌<◌, ◌≡◌, ◌≢◌, refl, sym, ◌∙◌, ap, List, [], ◌∷◌, Bool, true, false,
  if◌then◌else◌, arith, Bool-cases, inl, inr, le→ltb, Option, some, none, All,
}
use hedge_db.Base.Sort.{insert, IsSorted, insert-IsSorted, insert-All}
use hedge_db.Key.{Key, key_lt, key_eq}
use hedge_db.Key.Order.{key_lt_irrefl, key_total, key_eq_refl, key_eq→eq, key_lt-ne}
use hedge_db.Memtable.Entry.{
  MemtableEntry, memtable_lt, memtable_lt_asymm, memtable_lt-false_trans, lt-IsBefore, before-lt,
  IsBefore, smaller_key, newer, key_eq-ne, memtable_lt-same_key, memtable_lt-other_key,
}
use hedge_db.Memtable.Skiplist.{
  SkiplistOps, SkiplistWrapper, insert_entry, get_value, value_at, from_bound, uint64_max,
}

-- The first entry of a key: the independent description of a lookup.
abbrev pub first_of : Key → List MemtableEntry → Option (List ℕ)
first_of k [] = none
first_of k (x ∷ xs) = let rest = first_of k xs in if key_eq x.key k then some x.value else rest

-- The entries are in order, and none has a sequence number that is still to be given.
pub record IsWrapper (w : SkiplistWrapper) : Type 0 where
  pub sorted : IsSorted memtable_lt w.entries
  pub given : All (λ (x : MemtableEntry). x.seq < w.seq_nr) w.entries
  pub counter : w.seq_nr < 2 ^ 64

first_of-none :
    (k : Key) (x : MemtableEntry) (xs : List MemtableEntry)
    → key_lt k x.key ≡ true
    → All (λ (y : MemtableEntry). memtable_lt y x ≡ false) xs
    → first_of k xs ≡ none
first_of-none k x [] h later = refl
first_of-none k x (y ∷ xs) h (l, ls) = rw (key_eq-ne y.key k differ) (first_of-none k x xs h ls)
  where
    differ : y.key ≢ k
    differ e = cc (l, before-lt y x (smaller_key (ap (λ (j : Key). key_lt j x.key) e ∙ h)))

-- The entry that the lookup starts from is before no entry of its key.
bound-key :
    (k : Key) (x : MemtableEntry)
    → x.seq < 2 ^ 64
    → memtable_lt x (record { key = k; seq = uint64_max; value = [] }) ≡ key_lt x.key k
bound-key k x h = elim (Bool-cases (key_eq x.key k)) [
  | inl same ↦
      let e = key_eq→eq x.key k same in
      memtable_lt-same_key x bound e
      ∙ le→ltb uint64_max x.seq (omega arith)
      ∙ sym (ap (λ (j : Key). key_lt j k) e ∙ key_lt_irrefl k)
  | inr differ ↦
      memtable_lt-other_key x bound
        (λ e. cc (differ, key_eq_refl k, ap (λ (j : Key). key_eq j k) e))
]
  where
    bound : MemtableEntry
    bound = record { key = k; seq = uint64_max; value = [] }

value_at-from_bound :
    (k : Key) (l : List MemtableEntry)
    → IsSorted memtable_lt l
    → All (λ (x : MemtableEntry). x.seq < 2 ^ 64) l
    → value_at k (from_bound (record { key = k; seq = uint64_max; value = [] }) l) ≡ first_of k l
unfolding from_bound
value_at-from_bound k [] s h = refl
value_at-from_bound k (x ∷ xs) (later, s) (h, hs) =
    elim (Bool-cases (memtable_lt x (record { key = k; seq = uint64_max; value = [] }))) [
      | inl skipped ↦
          let ne = key_eq-ne x.key k (key_lt-ne x.key k (sym (bound-key k x h) ∙ skipped)) in
          rw (skipped, ne) (value_at-from_bound k xs s hs)
      | inr stays ↦ elim (Bool-cases (key_eq x.key k)) [
        | inl same ↦ rw (stays, same) refl
        | inr differ ↦
            rw (stays, differ)
              (sym (first_of-none k x xs (above (sym (bound-key k x h) ∙ stays) differ) later))
      ]
    ]
  where
    above : key_lt x.key k ≡ false → key_eq x.key k ≡ false → key_lt k x.key ≡ true
    above not_below differ = elim (Bool-cases (key_lt k x.key)) [
      | inl is_above ↦ is_above
      | inr not_above ↦ cc (
        differ,
        key_eq_refl k,
        ap (λ (j : Key). key_eq j k) (key_total x.key k not_below not_above),
      )
    ]

-- No entry has the next sequence number.
pub given-fresh :
    (n : ℕ) (es : List MemtableEntry)
    → All (λ (x : MemtableEntry). x.seq < n) es
    → All (λ (x : MemtableEntry). x.seq ≢ n) es
given-fresh n [] h = tt
given-fresh n (x ∷ es) (h, hs) = (λ e. omega (arith, e, h), given-fresh n es hs)

module _ (ops : SkiplistOps) where
  -- A lookup gives the first entry of its key.
  pub get_value-first_of :
      (k : Key) (w : SkiplistWrapper)
      → IsWrapper w
      → get_value ops k w.entries ≡ first_of k w.entries
  unfolding get_value
  get_value-first_of k w i =
      ap (value_at k) (ops.lower_bound-lem _ w.entries i.sorted)
      ∙ value_at-from_bound k w.entries i.sorted (small w.entries i.given)
    where
      small :
          (l : List MemtableEntry)
          → All (λ (x : MemtableEntry). x.seq < w.seq_nr) l
          → All (λ (x : MemtableEntry). x.seq < 2 ^ 64) l
      small [] g = tt
      small (x ∷ xs) (g, gs) = (omega (arith, i.counter), small xs gs)

first_of-insert :
    (e : MemtableEntry) (l : List MemtableEntry)
    → All (λ (x : MemtableEntry). x.seq < e.seq) l
    → first_of e.key (insert memtable_lt e l) ≡ some e.value
unfolding insert
first_of-insert e [] h = rw (key_eq_refl e.key) refl
first_of-insert e (x ∷ xs) (h, hs) = elim (Bool-cases (memtable_lt x e)) [
  | inl first ↦ rw (first, older (lt-IsBefore x e first)) (first_of-insert e xs hs)
  | inr later ↦ rw (later, key_eq_refl e.key) refl
]
  where
    older : IsBefore x e → key_eq x.key e.key ≡ false
    older (smaller_key k) = key_eq-ne x.key e.key (key_lt-ne x.key e.key k)
    older (newer same k) = absurd (omega arith)

first_of-insert_other :
    (k : Key) (e : MemtableEntry) (l : List MemtableEntry)
    → e.key ≢ k
    → first_of k (insert memtable_lt e l) ≡ first_of k l
unfolding insert
first_of-insert_other k e [] h = rw (key_eq-ne e.key k h) refl
first_of-insert_other k e (x ∷ xs) h = elim (Bool-cases (memtable_lt x e)) [
  | inl first ↦ rw (first, first_of-insert_other k e xs h) refl
  | inr later ↦ rw (later, key_eq-ne e.key k h) refl
]

module _ (ops : SkiplistOps) where
  pub insert_entry-IsWrapper :
      (fits : Bool) (key : Key) (value : List ℕ) (w : SkiplistWrapper)
      → IsWrapper w
      → w.seq_nr + 1 < 2 ^ 64
      → IsWrapper (insert_entry ops fits key value w).0
  unfolding insert_entry
  insert_entry-IsWrapper true key value w i h = record {
    sorted = rw (ops.add-lem e w.entries i.sorted (given-fresh w.seq_nr w.entries i.given)) (
        insert-IsSorted memtable_lt memtable_lt_asymm memtable_lt-false_trans e w.entries i.sorted);
    given = rw (ops.add-lem e w.entries i.sorted (given-fresh w.seq_nr w.entries i.given)) (
        insert-All memtable_lt memtable_lt_asymm memtable_lt-false_trans
          (λ (x : MemtableEntry). x.seq < (w.seq_nr + 1) % 2 ^ 64) e w.entries (omega arith)
          (raise w.entries i.given));
    counter = omega arith;
  }
    where
      e : MemtableEntry
      e = record { key = key; seq = w.seq_nr; value = value }

      raise :
          (l : List MemtableEntry)
          → All (λ (x : MemtableEntry). x.seq < w.seq_nr) l
          → All (λ (x : MemtableEntry). x.seq < (w.seq_nr + 1) % 2 ^ 64) l
      raise [] g = tt
      raise (x ∷ xs) (g, gs) = (omega arith, raise xs gs)
  insert_entry-IsWrapper false key value w i h = record {
    sorted = i.sorted;
    given = raise w.entries i.given;
    counter = omega arith;
  }
    where
      raise :
          (l : List MemtableEntry)
          → All (λ (x : MemtableEntry). x.seq < w.seq_nr) l
          → All (λ (x : MemtableEntry). x.seq < (w.seq_nr + 1) % 2 ^ 64) l
      raise [] g = tt
      raise (x ∷ xs) (g, gs) = (omega arith, raise xs gs)

  inserted :
      (key : Key) (value : List ℕ) (w : SkiplistWrapper)
      → IsWrapper w
      → (insert_entry ops true key value w).0.entries
        ≡ insert memtable_lt (record { key = key; seq = w.seq_nr; value = value }) w.entries
  unfolding insert_entry
  inserted key value w i = ops.add-lem _ w.entries i.sorted (given-fresh w.seq_nr w.entries i.given)

  -- After an insertion that succeeds, a lookup of the key gives the new value, and a lookup of
  -- another key what it gave before, for entries in order and where the 64 bits of the sequence number
  -- are not used up.
  pub get_value-insert_entry :
      (key k : Key) (value : List ℕ) (w : SkiplistWrapper)
      → IsWrapper w
      → w.seq_nr + 1 < 2 ^ 64
      → get_value ops k (insert_entry ops true key value w).0.entries
        ≡ (if key_eq key k then some value else get_value ops k w.entries)
  get_value-insert_entry key k value w i h =
      get_value-first_of ops k (insert_entry ops true key value w).0
        (insert_entry-IsWrapper true key value w i h)
      ∙ ap (first_of k) (inserted key value w i)
      ∙ elim (Bool-cases (key_eq key k)) [
        | inl same ↦ rw same (
            ap
              (λ (j : Key). first_of j (
                insert memtable_lt (record { key = key; seq = w.seq_nr; value = value }) w.entries))
              (sym (key_eq→eq key k same))
            ∙ first_of-insert (record { key = key; seq = w.seq_nr; value = value }) w.entries
                i.given)
        | inr differ ↦ rw differ (
            first_of-insert_other k (record { key = key; seq = w.seq_nr; value = value }) w.entries
              (λ e. cc (differ, key_eq_refl k, ap (λ (j : Key). key_eq j k) e))
            ∙ sym (get_value-first_of ops k w i))
      ]

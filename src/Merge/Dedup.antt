-- ===== src/Merge/Dedup.antt =====
-- src/db/merge/merge.cc: what the loop writes of the entries that leave the heap.
use hedge_db.Base.{
  ℕ, ◌+◌, ◌≡◌, refl, sym, ◌∙◌, List, [], ◌∷◌, ◌++◌, append_assoc, append-nil, length, length-append,
  Bool, ◌&&◌, if◌then◌else◌, Option, some, none, Bool-cases, inl, inr, arith,
}
use hedge_db.Key.{Key, key_eq}
use hedge_db.Merge.Deduplicator.{MergeEntry, push, ready, pop, force_pop}
use hedge_db.Merge.Run.{MergeState, take_entry, write_item, finish, is_tombstone, key_count}

-- The first entry of each run of entries of one key, behind an entry of the key `k`.
abbrev pub firsts_after : Key → List MergeEntry → List MergeEntry
firsts_after k [] = []
firsts_after k (x ∷ xs) =
    let same = firsts_after k xs in
    let other = firsts_after x.key xs in if key_eq k x.key then same else x ∷ other

module _ (discard : Bool) where
  abbrev pub kept : List MergeEntry → List MergeEntry
  kept [] = []
  kept (e ∷ es) = let rest = kept es in if discard && is_tombstone e then rest else e ∷ rest

  abbrev pub take_all : List MergeEntry → MergeState → MergeState
  take_all [] s = s
  take_all (e ∷ es) s = take_all es (take_entry discard e s)

  -- The state between two turns: one item waits.
  abbrev pub waiting : MergeEntry → MergeState → MergeState
  waiting x s = record s {
    dedup = record {
      to_be_checked_item = some x;
      ready_item = none;
      deduplicated_keys = s.dedup.deduplicated_keys;
    };
  }

  abbrev once_more : MergeState → MergeState
  once_more s = record s {
    dedup = record s.dedup { deduplicated_keys = s.dedup.deduplicated_keys + 1 };
  }

  take_entry-waiting :
      (x e : MergeEntry) (s : MergeState)
      → take_entry discard e (waiting x s) ≡ (
          if key_eq x.key e.key
          then waiting x (once_more s)
          else waiting e (write_item discard x s))
  unfolding take_entry push ready pop write_item
  take_entry-waiting x e s = elim (Bool-cases (key_eq x.key e.key)) [
    | inl same ↦ rw same refl
    | inr differ ↦ elim (Bool-cases (discard && is_tombstone x)) [
      | inl dead ↦ rw (differ, dead) refl
      | inr alive ↦ rw (differ, alive) refl
    ]
  ]

  abbrev emptied : MergeState → MergeState
  emptied s = record s { dedup = record s.dedup { to_be_checked_item = none; ready_item = none } }

  abbrev pub Written : MergeState → List MergeEntry → Option MergeState → Type 0
  Written s es o = (s' : MergeState) × ((o ≡ some s') × (s'.written ≡ s.written ++ kept es))

  write_item-written :
      (x : MergeEntry) (s : MergeState) (es : List MergeEntry)
      → (write_item discard x s).written ++ kept es ≡ s.written ++ kept (x ∷ es)
  unfolding write_item
  write_item-written x s es = elim (Bool-cases (discard && is_tombstone x)) [
    | inl dead ↦ rw dead refl
    | inr alive ↦ rw alive (append_assoc s.written (x ∷ []) (kept es))
  ]

  finish-waiting :
      (x : MergeEntry) (s : MergeState) → Written s (x ∷ []) (finish discard (waiting x s))
  unfolding finish ready force_pop write_item
  finish-waiting x s = (
    write_item discard x (emptied s),
    (refl, sym (append-nil _) ∙ write_item-written x (emptied s) []),
  )

  pub take_all-firsts :
      (xs : List MergeEntry) (x : MergeEntry) (s : MergeState)
      → Written s (x ∷ firsts_after x.key xs) (finish discard (take_all xs (waiting x s)))
  take_all-firsts [] x s = finish-waiting x s
  take_all-firsts (e ∷ xs) x s = elim (Bool-cases (key_eq x.key e.key)) [
    | inl same ↦ rw (take_entry-waiting x e s, same) (take_all-firsts xs x (once_more s))
    | inr differ ↦
        rw (take_entry-waiting x e s, differ)
          (later (take_all-firsts xs e (write_item discard x s)))
  ]
    where
      later :
          Written
            (write_item discard x s)
            (e ∷ firsts_after e.key xs)
            (finish discard (take_all xs (waiting e (write_item discard x s))))
          → Written s
              (x ∷ e ∷ firsts_after e.key xs)
              (finish discard (take_all xs (waiting e (write_item discard x s))))
      later (s', (h, w)) = (s', (h, w ∙ write_item-written x s (e ∷ firsts_after e.key xs)))

module _ (discard : Bool) where
  write_item-key_count :
      (x : MergeEntry) (s : MergeState) → key_count (write_item discard x s) ≡ key_count s + 1
  unfolding write_item
  write_item-key_count x s = elim (Bool-cases (discard && is_tombstone x)) [
    | inl dead ↦ rw dead (omega arith)
    | inr alive ↦ rw alive (omega (arith, length-append s.written (x ∷ [])))
  ]

  abbrev pub Counted : ℕ → Option MergeState → Type 0
  Counted n o = (s' : MergeState) × ((o ≡ some s') × (key_count s' ≡ n))

  finish-key_count :
      (x : MergeEntry) (s : MergeState)
      → Counted (key_count s + 1) (finish discard (waiting discard x s))
  unfolding finish ready force_pop
  finish-key_count x s = (_, (refl, write_item-key_count x (emptied discard s)))

  recount : (n m : ℕ) (o : Option MergeState) → n ≡ m → Counted n o → Counted m o
  recount n m o e (s', (h, c)) = (s', (h, c ∙ e))

  -- Each entry is written or counted.
  pub take_all-key_count :
      (xs : List MergeEntry) (x : MergeEntry) (s : MergeState)
      → Counted
          (key_count s + (length xs + 1))
          (finish discard (take_all discard xs (waiting discard x s)))
  take_all-key_count [] x s = recount _ _ _ (omega arith) (finish-key_count x s)
  take_all-key_count (e ∷ xs) x s = elim (Bool-cases (key_eq x.key e.key)) [
    | inl same ↦
        rw (take_entry-waiting discard x e s, same)
          (recount _ _ _ (omega arith) (take_all-key_count xs x (once_more discard s)))
    | inr differ ↦
        rw (take_entry-waiting discard x e s, differ)
          (recount _ _ _ (omega (arith, write_item-key_count x s))
            (take_all-key_count xs e (write_item discard x s)))
  ]

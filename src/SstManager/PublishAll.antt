-- ===== src/SstManager/PublishAll.antt =====
-- src/db/index_ops.cc and src/db/sst_manager.cc: what a lookup gives behind the publication of the
-- tables of all partitions.
use hedge_db.Base.{
  ℕ, ◌+◌, ◌≡◌, ◌≢◌, refl, sym, ◌∙◌, ap, inl, inr, List, [], ◌∷◌, ◌++◌, length, append-nil,
  append_assoc, Bool, true, false, ◌==◌, ==_iff, Bool-cases, Option, some, none, All, All-append,
}
use hedge_db.Base.Sort.{IsSorted}
use mathlib.Core.Path.{subst}
use hedge_db.Base.Status.{Expected}
use hedge_db.Key.{Key, key_lt, key_eq}
use hedge_db.Key.Order.{key_total, key_eq→eq}
use hedge_db.Value.{Value}
use hedge_db.Memtable.Entry.{MemtableEntry, memtable_lt, before-lt, smaller_key}
use hedge_db.Memtable.Lookup.{first_of}
use hedge_db.Sst.File.{FileOps}
use hedge_db.Sst.Lookup.{Sst}
use hedge_db.Sst.Partitions.{PartitionRange, by_key, ranges_loop, partition_ranges_generator}
use hedge_db.SstManager.Lookup.{Partitions, manager_lookup, push_sst, push_new_ssts_to_l0}
use hedge_db.SstManager.Publish.{
  IsReadable, or_later, first_of-entry, Answers, IsRange, Initialised, push_sst-Initialised,
  find-push_sst,
}

abbrev or_else : Option (List ℕ) → Option (List ℕ) → Option (List ℕ)
or_else none later = later
or_else (some bytes) later = some bytes

first_of-append :
    (key : Key) (xs ys : List MemtableEntry)
    → first_of key (xs ++ ys) ≡ or_else (first_of key xs) (first_of key ys)
first_of-append key [] ys = refl
first_of-append key (x ∷ xs) ys = elim (Bool-cases (key_eq x.key key)) [
  | inl hit ↦ rw hit refl
  | inr miss ↦ rw miss (first_of-append key xs ys)
]

-- A key that has entries in two places is not asked for twice, if it has none in one of them.
or_later-or_else :
    (later : Expected Value) (f g : Option (List ℕ))
    → ((b c : List ℕ) → f ≡ some b → g ≡ some c → ⊥)
    → or_later (or_later later f) g ≡ or_later later (or_else f g)
or_later-or_else later none g h = refl
or_later-or_else later (some b) none h = refl
or_later-or_else later (some b) (some c) h = absurd (h b c refl refl)

not_before : (x y : MemtableEntry) → memtable_lt x y ≡ false → key_lt x.key y.key ≡ false
not_before x y h = elim (Bool-cases (key_lt x.key y.key)) [
  | inl less ↦ cc (h, before-lt x y (smaller_key less))
  | inr not_less ↦ not_less
]

sorted-middle :
    (xs : List MemtableEntry) (it : MemtableEntry) (its : List MemtableEntry)
    → IsSorted memtable_lt (xs ++ it ∷ its)
    → All (λ (x : MemtableEntry). key_lt it.key x.key ≡ false) xs
      × All (λ (y : MemtableEntry). key_lt y.key it.key ≡ false) its
sorted-middle [] it its (h, s) = (tt, behind its h)
  where
    behind :
        (ys : List MemtableEntry)
        → All (λ (y : MemtableEntry). memtable_lt y it ≡ false) ys
        → All (λ (y : MemtableEntry). key_lt y.key it.key ≡ false) ys
    behind [] h = tt
    behind (y ∷ ys) (h, hs) = (not_before y it h, behind ys hs)
sorted-middle (x ∷ xs) it its (h, s) =
    let (front, back) = sorted-middle xs it its s in ((not_before it x (at xs h), front), back)
  where
    at :
        (ys : List MemtableEntry)
        → All (λ (y : MemtableEntry). memtable_lt y x ≡ false) (ys ++ it ∷ its)
        → memtable_lt it x ≡ false
    at [] (h, hs) = h
    at (y ∷ ys) (h, hs) = at ys hs

-- No key has entries on both sides of one of another partition.
one_side :
    (partition_of : Key → ℕ) (key : Key) (xs : List MemtableEntry) (it : MemtableEntry)
    (its : List MemtableEntry) (id : ℕ) (b c : List ℕ)
    → IsSorted memtable_lt (xs ++ it ∷ its)
    → All (λ (x : MemtableEntry). partition_of x.key ≡ id) xs
    → partition_of it.key ≢ id
    → first_of key xs ≡ some b
    → first_of key (it ∷ its) ≡ some c
    → ⊥
one_side partition_of key xs it its id b c s own other f g =
    let (front, back) = sorted-middle xs it its s in
    let (x, (not_above, (k, v))) = first_of-entry key xs b front f in
    let (x', (same, (k', v'))) = first_of-entry key xs b own f in
    let id-key : partition_of key ≡ id = ap partition_of (sym k') ∙ same in
    elim (Bool-cases (key_eq it.key key)) [
      | inl hit ↦ other (ap partition_of (key_eq→eq it.key key hit) ∙ id-key)
      | inr miss ↦
          let (y, (not_below, (l, w))) = first_of-entry key its c back (rw miss at g) in
          let same_key : it.key ≡ key =
            key_total it.key key (ap (key_lt it.key) (sym k) ∙ not_above)
              (ap (λ (j : Key). key_lt j it.key) (sym l) ∙ not_below) in
          other (ap partition_of same_key ∙ id-key)
    ]

module _ {F Q : Type 0} (ops : FileOps F) (xxh64 : List ℕ → ℕ → ℕ) (keys_per_page : ℕ)
    (may_contain : Q → ℕ → Bool) (partition_of : Key → ℕ) where
  abbrev pub AnswersAll : List PartitionRange → List (Sst F Q) → Type 0
  AnswersAll [] [] = Unit {0}
  AnswersAll [] (t ∷ ts) = ⊥
  AnswersAll (r ∷ rs) [] = ⊥
  AnswersAll (r ∷ rs) (t ∷ ts) =
      Answers ops xxh64 keys_per_page may_contain partition_of r t × AnswersAll rs ts

  abbrev find : Key → Partitions F Q → Expected Value
  find key = manager_lookup ops xxh64 keys_per_page may_contain key (partition_of key)

  abbrev Ready : Partitions F Q → Type 0
  Ready = Initialised ops xxh64 keys_per_page may_contain partition_of

  abbrev InRange : PartitionRange → Type 0
  InRange = IsRange ops xxh64 keys_per_page may_contain partition_of

  abbrev Readable : List MemtableEntry → Type 0
  Readable its = All (λ (it : MemtableEntry). IsReadable it.value) its

  -- A range with one more entry, and the range that an entry begins.
  abbrev extended : PartitionRange → MemtableEntry → PartitionRange
  extended r it = record {
    partition_id = r.partition_id;
    entries = r.entries ++ it ∷ [];
    count = r.count + 1;
    sum_key_value_lengths = r.sum_key_value_lengths + (length it.key + length it.value);
  }

  abbrev begun : MemtableEntry → PartitionRange
  begun it = record {
    partition_id = partition_of it.key;
    entries = it ∷ [];
    count = 0 + 1;
    sum_key_value_lengths = 0 + (length it.key + length it.value);
  }

  ranges_loop-same :
      (r : PartitionRange) (it : MemtableEntry) (its : List MemtableEntry)
      → (partition_of it.key == r.partition_id) ≡ true
      → ranges_loop (by_key partition_of) r (it ∷ its)
        ≡ ranges_loop (by_key partition_of) (extended r it) its
  unfolding ranges_loop
  ranges_loop-same r it its h = rw h refl

  ranges_loop-other :
      (r : PartitionRange) (it : MemtableEntry) (its : List MemtableEntry)
      → (partition_of it.key == r.partition_id) ≡ false
      → ranges_loop (by_key partition_of) r (it ∷ its)
        ≡ r ∷ ranges_loop (by_key partition_of) (begun it) its
  unfolding ranges_loop
  ranges_loop-other r it its h = rw h refl

  Answers-cons :
      (r : PartitionRange) (rs : List PartitionRange) (ts : List (Sst F Q))
      → AnswersAll (r ∷ rs) ts
      → (t : Sst F Q) × ((ts' : List (Sst F Q)) × ((ts ≡ t ∷ ts')
            × (Answers ops xxh64 keys_per_page may_contain partition_of r t × AnswersAll rs ts')))
  Answers-cons r rs [] a = absurd a
  Answers-cons r rs (t ∷ ts) (a, as') = (t, (ts, (refl, (a, as'))))

  Ascending-tail :
      (xs ys : List MemtableEntry) → IsSorted memtable_lt (xs ++ ys) → IsSorted memtable_lt ys
  Ascending-tail [] ys s = s
  Ascending-tail (x ∷ xs) ys (h, s) = Ascending-tail xs ys s

  find-ranges :
      (r : PartitionRange) (its : List MemtableEntry) (ts : List (Sst F Q))
      (partitions : Partitions F Q) (key : Key)
      → InRange r
      → Readable its
      → IsSorted memtable_lt (r.entries ++ its)
      → AnswersAll (ranges_loop (by_key partition_of) r its) ts
      → Ready partitions
      → find key (push_new_ssts_to_l0 ts partitions)
        ≡ or_later (find key partitions) (first_of key (r.entries ++ its))
  unfolding ranges_loop push_new_ssts_to_l0
  find-ranges r [] (t ∷ []) partitions key i h s (a, as') init =
      find-push_sst ops xxh64 keys_per_page may_contain partition_of r t a i partitions init key
      ∙ ap (λ (es : List MemtableEntry). or_later (find key partitions) (first_of key es))
          (sym (append-nil r.entries))
  find-ranges r [] (t ∷ t' ∷ ts) partitions key i h s (a, as') init = absurd as'
  find-ranges r [] [] partitions key i h s a init = absurd a
  find-ranges r (it ∷ its) ts partitions key i (h, hs) s a init =
      elim (Bool-cases (partition_of it.key == r.partition_id)) [
        | inl same ↦
            let moved = append_assoc r.entries (it ∷ []) its in
            let in_range : InRange (extended r it) = record {
              partition =
                  All-append (λ (x : MemtableEntry). partition_of x.key ≡ r.partition_id) r.entries
                    (it ∷ []) i.partition
                    ((==_iff (partition_of it.key) r.partition_id).0 same, tt);
              readable =
                  All-append (λ (x : MemtableEntry). IsReadable x.value) r.entries (it ∷ [])
                    i.readable (h, tt);
            } in
            find-ranges (extended r it) its ts partitions key in_range hs
              (subst (IsSorted memtable_lt) (sym moved) s)
              (subst (λ (rs : List PartitionRange). AnswersAll rs ts)
                (ranges_loop-same r it its same) a)
              init
            ∙ ap (λ (es : List MemtableEntry). or_later (find key partitions) (first_of key es))
                moved
        | inr differ ↦
            let (t, (ts', (parts, (b, bs)))) =
              Answers-cons r (ranges_loop (by_key partition_of) (begun it) its) ts (
                subst (λ (rs : List PartitionRange). AnswersAll rs ts)
                  (ranges_loop-other r it its differ) a) in
            let other : partition_of it.key ≢ r.partition_id =
              λ e. cc (differ, (==_iff (partition_of it.key) r.partition_id).1 e) in
            ap (λ (xs : List (Sst F Q)). find key (push_new_ssts_to_l0 xs partitions)) parts
            ∙ find-ranges (begun it) its ts' (push_sst t partitions) key
                (record { partition = (refl, tt); readable = (h, tt) }) hs
                (Ascending-tail r.entries (it ∷ its) s) bs
                (push_sst-Initialised ops xxh64 keys_per_page may_contain partition_of r t b i
                  partitions init key)
            ∙ ap (λ (x : Expected Value). or_later x (first_of key (it ∷ its)))
                (find-push_sst ops xxh64 keys_per_page may_contain partition_of r t b i partitions
                  init key)
            ∙ or_later-or_else (find key partitions) (first_of key r.entries)
                (first_of key (it ∷ its))
                (λ b' c f g.
                  one_side partition_of key r.entries it its r.partition_id b' c s i.partition other
                    f g)
            ∙ ap (or_later (find key partitions)) (sym (first_of-append key r.entries (it ∷ its)))
      ]

  -- Behind the publication of the tables of all partitions, a lookup gives the first entry of the key
  -- among the entries that were flushed, or else what it gave before.
  pub find-push_new_ssts_to_l0 :
      (its : List MemtableEntry) (ts : List (Sst F Q)) (partitions : Partitions F Q) (key : Key)
      → Readable its
      → IsSorted memtable_lt its
      → AnswersAll (partition_ranges_generator (by_key partition_of) its) ts
      → Ready partitions
      → find key (push_new_ssts_to_l0 ts partitions)
        ≡ or_later (find key partitions) (first_of key its)
  unfolding partition_ranges_generator push_new_ssts_to_l0
  find-push_new_ssts_to_l0 [] [] partitions key h s a init = refl
  find-push_new_ssts_to_l0 [] (t ∷ ts) partitions key h s a init = absurd a
  find-push_new_ssts_to_l0 (it ∷ its) ts partitions key h s a init =
      find-ranges
        (record {
          partition_id = partition_of it.key;
          entries = [];
          count = 0;
          sum_key_value_lengths = 0;
        })
        (it ∷ its) ts partitions key (record { partition = tt; readable = tt }) h s a init

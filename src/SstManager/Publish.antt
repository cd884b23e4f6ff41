-- ===== src/SstManager/Publish.antt =====
-- src/db/sst_manager.cc: what a lookup gives behind the publication of new tables.
use hedge_db.Base.{
  ℕ, ◌≡◌, ◌≢◌, refl, sym, ◌∙◌, ap, inl, inr, List, [], ◌∷◌, ◌++◌, Bool, true, ◌==◌, ==_iff,
  Bool-cases, Option, some, none, All, Option-cases,
}
use hedge_db.Base.Status.{Expected, ok, ◌>>=◌}
use mathlib.Core.Path.{subst}
use hedge_db.Key.{Key, key_eq}
use hedge_db.Key.Order.{key_eq→eq}
use hedge_db.Value.{Value, value_from_span}
use hedge_db.Memtable.Entry.{MemtableEntry}
use hedge_db.Memtable.Lookup.{first_of}
use hedge_db.Sst.File.{FileOps}
use hedge_db.Sst.Lookup.{Sst, lookup_async, probe_filter, value_found}
use hedge_db.Sst.Newest.{or_empty}
use hedge_db.Sst.Partitions.{PartitionRange}
use hedge_db.SstManager.Lookup.{
  Partitions, qf_seed, reversed, or_level, search_tables, search_levels, acquire_partition_snapshot,
  manager_lookup, push_sst,
}

-- A value that can be read, as every value that is put can.
abbrev pub IsReadable : List ℕ → Type 0
IsReadable bytes = (v : Value) × (value_from_span bytes ≡ ok v)

-- The value of the first entry of a key, or else what a later place gives.
abbrev pub or_later : Expected Value → Option (List ℕ) → Expected Value
or_later later none = later
or_later later (some bytes) = value_from_span bytes

reversed-snoc : {A : Type 0} (xs : List A) (x : A) → reversed (xs ++ x ∷ []) ≡ x ∷ reversed xs
reversed-snoc [] x = refl
reversed-snoc (y ∷ xs) x = ap (λ r. r ++ y ∷ []) (reversed-snoc xs x)

value_found-readable :
    (bytes : List ℕ) (v : Value) → value_from_span bytes ≡ ok v → value_found bytes ≡ ok v
unfolding value_from_span
value_found-readable [] v h = absurd (cc)
value_found-readable (b ∷ bytes) v h = h

-- An entry that a lookup finds.
pub first_of-entry :
    {P : MemtableEntry → Type 0} (key : Key) (es : List MemtableEntry) (bytes : List ℕ)
    → All P es
    → first_of key es ≡ some bytes
    → (it : MemtableEntry) × (P it × ((it.key ≡ key) × (it.value ≡ bytes)))
first_of-entry key [] bytes h e = absurd (cc)
first_of-entry key (x ∷ es) bytes (h, hs) e = elim (Bool-cases (key_eq x.key key)) [
  | inl hit ↦ (x, (h, (key_eq→eq x.key key hit, some-inj (rw hit at e))))
  | inr miss ↦ first_of-entry key es bytes hs (rw miss at e)
]
  where
    some-inj : {v w : List ℕ} → some v ≡ some w → v ≡ w
    some-inj h = cc

pub first_of-IsReadable :
    (key : Key) (es : List MemtableEntry) (bytes : List ℕ)
    → All (λ (it : MemtableEntry). IsReadable it.value) es
    → first_of key es ≡ some bytes
    → IsReadable bytes
first_of-IsReadable key es bytes h e =
    let (it, (readable, (k, v))) = first_of-entry key es bytes h e in subst IsReadable v readable

module _ {F Q : Type 0} (ops : FileOps F) (xxh64 : List ℕ → ℕ → ℕ) (keys_per_page : ℕ)
    (may_contain : Q → ℕ → Bool) (partition_of : Key → ℕ) where
  -- A table that holds the entries of a range.
  pub record Answers (r : PartitionRange) (t : Sst F Q) : Type 0 where
    pub partition : t.footer.upper_bound ≡ r.partition_id
    pub lookups :
        (key : Key)
        → lookup_async xxh64 ops keys_per_page key t
          ≡ value_found (or_empty (first_of key r.entries))
    pub filter :
        (key : Key) (bytes : List ℕ)
        → first_of key r.entries ≡ some bytes
        → probe_filter may_contain t (xxh64 key qf_seed) ≡ true

  -- A range whose entries belong to its partition and can be read.
  pub record IsRange (r : PartitionRange) : Type 0 where
    pub partition : All (λ (it : MemtableEntry). partition_of it.key ≡ r.partition_id) r.entries
    pub readable : All (λ (it : MemtableEntry). IsReadable it.value) r.entries

  abbrev pub Initialised : Partitions F Q → Type 0
  Initialised partitions =
      (key : Key)
      → (l0 : List (Sst F Q)) × ((levels : List (List (Sst F Q))) × (partitions (partition_of key)
            ≡ some (l0 ∷ levels)))

  abbrev find : Key → Partitions F Q → Expected Value
  find key = manager_lookup ops xxh64 keys_per_page may_contain key (partition_of key)

  abbrev search : Key → List (Sst F Q) → Expected (Option Value)
  search = search_tables ops xxh64 keys_per_page may_contain

  find-levels :
      (key : Key) (partitions : Partitions F Q) (levels : List (List (Sst F Q)))
      → partitions (partition_of key) ≡ some levels
      → find key partitions ≡ search_levels ops xxh64 keys_per_page may_contain key levels
  unfolding manager_lookup acquire_partition_snapshot
  find-levels key partitions levels h = rw h refl

  search-missing :
      (key : Key) (r : PartitionRange) (t : Sst F Q) (ts : List (Sst F Q))
      → Answers r t
      → first_of key r.entries ≡ none
      → search key (t ∷ ts) ≡ search key ts
  unfolding search_tables
  search-missing key r t ts a h =
      elim (Bool-cases (probe_filter may_contain t (xxh64 key qf_seed))) [
        | inl may ↦ rw (may, a.lookups key, h) refl
        | inr cannot ↦ rw cannot refl
      ]

  search-found :
      (key : Key) (r : PartitionRange) (t : Sst F Q) (ts : List (Sst F Q)) (bytes : List ℕ)
      (v : Value)
      → Answers r t
      → first_of key r.entries ≡ some bytes
      → value_from_span bytes ≡ ok v
      → search key (t ∷ ts) ≡ ok (some v)
  unfolding search_tables
  search-found key r t ts bytes v a h readable =
      rw (a.filter key bytes h, a.lookups key, h, value_found-readable bytes v readable) refl

  module _ (r : PartitionRange) (t : Sst F Q) (a : Answers r t) (i : IsRange r)
      (partitions : Partitions F Q) (init : Initialised partitions) (key : Key) where
    push_sst-own :
        (l0 : List (Sst F Q)) (levels : List (List (Sst F Q)))
        → partition_of key ≡ r.partition_id
        → partitions (partition_of key) ≡ some (l0 ∷ levels)
        → push_sst t partitions (partition_of key) ≡ some ((l0 ++ t ∷ []) ∷ levels)
    unfolding push_sst
    push_sst-own l0 levels h there =
        rw ((==_iff t.footer.upper_bound (partition_of key)).1 (a.partition ∙ sym h), there) refl

    push_sst-other :
        partition_of key ≢ r.partition_id
        → push_sst t partitions (partition_of key) ≡ partitions (partition_of key)
    unfolding push_sst
    push_sst-other h = elim (Bool-cases (t.footer.upper_bound == partition_of key)) [
      | inl same ↦
          absurd (h (sym ((==_iff t.footer.upper_bound (partition_of key)).0 same) ∙ a.partition))
      | inr differ ↦ rw differ refl
    ]

    missing_elsewhere : partition_of key ≢ r.partition_id → first_of key r.entries ≡ none
    missing_elsewhere h = elim (Option-cases (first_of key r.entries)) [
      | inl missing ↦ missing
      | inr (bytes, found) ↦
          let (it, (id, (k, v))) = first_of-entry key r.entries bytes i.partition found in
          absurd (h (ap partition_of (sym k) ∙ id))
    ]

    pub push_sst-Initialised : Initialised (push_sst t partitions)
    unfolding push_sst
    push_sst-Initialised k =
        let (l0, (levels, there)) = init k in
        elim (Bool-cases (t.footer.upper_bound == partition_of k)) [
          | inl same ↦ (l0 ++ t ∷ [], (levels, rw (same, there) refl))
          | inr differ ↦ (l0, (levels, rw differ there))
        ]

    find-own :
        partition_of key ≡ r.partition_id
        → find key (push_sst t partitions) ≡ or_later (find key partitions) (first_of key r.entries)
    unfolding search_levels
    find-own h =
        let (l0, (levels, there)) = init key in
        let before = find-levels key partitions (l0 ∷ levels) there in
        let rest =
          or_level ops xxh64 keys_per_page may_contain
            (search_levels ops xxh64 keys_per_page may_contain key levels) in
        let after : find key (push_sst t partitions) ≡ search key (t ∷ reversed l0) >>= rest =
          find-levels key (push_sst t partitions) ((l0 ++ t ∷ []) ∷ levels)
            (push_sst-own l0 levels h there)
          ∙ ap (λ (ts : List (Sst F Q)). search key ts >>= rest) (reversed-snoc l0 t) in
        elim (Option-cases (first_of key r.entries)) [
          | inl missing ↦
              after
              ∙ ap (λ (x : Expected (Option Value)). x >>= rest)
                  (search-missing key r t (reversed l0) a missing)
              ∙ sym before
              ∙ ap (or_later (find key partitions)) (sym missing)
          | inr (bytes, found) ↦
              let (v, readable) = first_of-IsReadable key r.entries bytes i.readable found in
              after
              ∙ ap (λ (x : Expected (Option Value)). x >>= rest)
                  (search-found key r t (reversed l0) bytes v a found readable)
              ∙ sym readable
              ∙ ap (or_later (find key partitions)) (sym found)
        ]

    -- A table that is published is asked before what was there.
    pub find-push_sst :
        find key (push_sst t partitions) ≡ or_later (find key partitions) (first_of key r.entries)
    find-push_sst = elim (Bool-cases (partition_of key == r.partition_id)) [
      | inl same ↦ find-own ((==_iff (partition_of key) r.partition_id).0 same)
      | inr differ ↦
          let other : partition_of key ≢ r.partition_id =
            λ h. cc (differ, (==_iff (partition_of key) r.partition_id).1 h) in
          find-unchanged other ∙ ap (or_later (find key partitions)) (sym (missing_elsewhere other))
    ]
      where
        find-unchanged :
            partition_of key ≢ r.partition_id
            → find key (push_sst t partitions) ≡ find key partitions
        find-unchanged other =
            let (l0, (levels, there)) = init key in
            find-levels key (push_sst t partitions) (l0 ∷ levels) (push_sst-other other ∙ there)
            ∙ sym (find-levels key partitions (l0 ∷ levels) there)

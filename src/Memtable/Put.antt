-- ===== src/Memtable/Put.antt =====
-- src/db/memtable.cc: the loop of `put_async`: what a lookup gives behind it, and that it ends.
use hedge_db.Base.{
  ℕ, zero, suc, ◌+◌, ◌^◌, ◌<◌, ◌≡◌, refl, sym, ◌∙◌, ap, List, ◌∷◌, length, Bool, true, false, not,
  ltb, if◌then◌else◌, Option, some, none, arith, Bool-cases, inl, inr,
}
use hedge_db.Base.Status.{Expected, Status}
use hedge_db.Key.{Key, key_eq}
use hedge_db.Value.{Value, value_from_span}
use hedge_db.Arena.{Arena, allocate_many}
use hedge_db.Wal.Entry.{WalEntry}
use hedge_db.Memtable.Skiplist.{SkiplistOps, insert_entry}
use hedge_db.Memtable.Reads.{
  flush_then-some, IsMemtable, get-flush, flush-IsMemtable, overwritten, overwritten-twice,
  with_entry, get-with_entry, with_entry-IsMemtable,
}
use hedge_db.Memtable.Table.{
  Memtable, flush, get, parsed, put, inserted, allocated, with_arena, counted, logged, with_entries,
  wrapper, value_data_alignment,
}

module _ (ops : SkiplistOps) (xxh64 : List ℕ → ℕ → ℕ)
    (pwritev2 : List ℕ → List ℕ → List ℕ × Option ℕ) (node_fits : Memtable → Bool) (thread : ℕ)
    (key : Key) (value : List ℕ) (value_type : ℕ) where
  abbrev bytes : List ℕ
  bytes = value_type ∷ value

  -- What a round that goes on with `again` gives, if that gives it.
  abbrev Again : ℕ → (Memtable → Option (Memtable × Status)) → Type 0
  Again fuel again =
      (m m' : Memtable) (st : Status)
      → IsMemtable m
      → m.seq_nr + fuel < 2 ^ 64
      → again m ≡ some (m', st)
      → (k : Key) → get ops k m' ≡ overwritten ops key bytes m k

  get-logged :
      (entry : WalEntry) (m : Memtable) (k : Key)
      → get ops k (logged xxh64 pwritev2 thread entry m).0 ≡ get ops k m
  unfolding get
  get-logged entry m k = elim (Bool-cases (not m.cfg.use_wal)) [
    | inl off ↦ rw off refl
    | inr on ↦ rw on refl
  ]

  get-counted : (m : Memtable) (k : Key) → get ops k (counted key value m) ≡ get ops k m
  unfolding get
  get-counted m k = refl

  unwritten :
      (m m₁ : Memtable) (k : Key)
      → get ops k m₁ ≡ get ops k m
      → overwritten ops key bytes m₁ k ≡ overwritten ops key bytes m k
  unwritten m m₁ k h =
      ap
        (λ (r : Expected (Option Value)).
          if key_eq key k then parsed (value_from_span bytes) else r)
        h

  inserted-read :
      (fuel : ℕ) (again : Memtable → Option (Memtable × Status))
      → Again fuel again
      → (fits : Bool) (m m' : Memtable) (st : Status) → IsMemtable m
      → m.seq_nr + suc fuel < 2 ^ 64
      → inserted ops xxh64 pwritev2 node_fits again thread key value bytes m
          (insert_entry ops fits key bytes (wrapper m))
        ≡ some (m', st)
      → (k : Key) → get ops k m' ≡ overwritten ops key bytes m k
  unfolding insert_entry
  inserted-read fuel again ih true m m' st i h run k =
      let m₁ = counted key value (with_entry ops key bytes m) in
      let i₁ : IsMemtable m₁ = record {
        entries = (with_entry-IsMemtable ops true key bytes m i (omega arith)).entries;
        epochs = i.epochs;
      } in
      let read : get ops k m₁ ≡ overwritten ops key bytes m k =
        get-counted (with_entry ops key bytes m) k
        ∙ get-with_entry ops key bytes m k i (omega arith) in
      elim (Bool-cases (ltb m.cfg.memory_budget_cap m.table.bytes_written)) [
        | inl full ↦
            ih (flush m₁) m' st (flush-IsMemtable ops m₁ i₁) (unfold flush in omega arith)
              (flush_then-some again m₁ (m', st) (rw full at run)) k
            ∙ overwritten-twice ops key bytes m (flush m₁) k (get-flush ops k m₁ i₁ ∙ read)
        | inr room ↦
            let same : (logged xxh64 pwritev2 thread
                  (record { seq_nr = m.seq_nr; key = key; value = bytes }) m₁).0
                ≡ m' =
              cc (rw room at run) in
            sym (ap (get ops k) same) ∙ get-logged _ m₁ k ∙ read
      ]
  inserted-read fuel again ih false m m' st i h run k =
      let m₁ = with_entries m (insert_entry ops false key bytes (wrapper m)).0 in
      let i₁ = with_entry-IsMemtable ops false key bytes m i (omega arith) in
      ih (flush m₁) m' st (flush-IsMemtable ops m₁ i₁) (unfold flush in omega arith)
        (flush_then-some again m₁ (m', st) run) k
      ∙ unwritten m (flush m₁) k (get-flush ops k m₁ i₁ ∙ (unfold get in refl))

  with_arena-IsMemtable :
      (a : Arena) (m : Memtable) → IsMemtable m → IsMemtable (with_arena thread a m)
  with_arena-IsMemtable a m i = record { entries = i.entries; epochs = i.epochs }

  allocated-read :
      (fuel : ℕ) (again : Memtable → Option (Memtable × Status))
      → Again fuel again
      → (r : Arena × Option (ℕ × ℕ)) (m m' : Memtable) (st : Status) → IsMemtable m
      → m.seq_nr + suc fuel < 2 ^ 64
      → allocated ops xxh64 pwritev2 node_fits again thread key value bytes m r ≡ some (m', st)
      → (k : Key) → get ops k m' ≡ overwritten ops key bytes m k
  allocated-read fuel again ih (a, none) m m' st i h run k =
      let m₁ = with_arena thread a m in
      let i₁ = with_arena-IsMemtable a m i in
      ih (flush m₁) m' st (flush-IsMemtable ops m₁ i₁) (unfold flush in omega arith)
        (flush_then-some again m₁ (m', st) run) k
      ∙ unwritten m (flush m₁) k (get-flush ops k m₁ i₁ ∙ (unfold get in refl))
  allocated-read fuel again ih (a, some place) m m' st i h run k =
      let m₁ = with_arena thread a m in
      inserted-read fuel again ih (node_fits m₁) m₁ m' st (with_arena-IsMemtable a m i) h run k
      ∙ unwritten m m₁ k (unfold get in refl)

  -- When `put_async` returns, a lookup of the key gives the value that was put, and a lookup of
  -- another key what it gave before, however many flushes the loop began, for a table in order and
  -- sequence numbers that do not run out.
  pub get-put :
      (fuel : ℕ) (m m' : Memtable) (st : Status)
      → IsMemtable m
      → m.seq_nr + fuel < 2 ^ 64
      → put ops xxh64 pwritev2 node_fits fuel thread key value value_type m ≡ some (m', st)
      → (k : Key) → get ops k m' ≡ overwritten ops key bytes m k
  unfolding put
  get-put zero m m' st i h run k = absurd (cc)
  get-put (suc fuel) m m' st i h run k =
      allocated-read fuel (put ops xxh64 pwritev2 node_fits fuel thread key value value_type)
        (get-put fuel)
        (allocate_many (length value + 1) value_data_alignment (m.table.value_arenas thread)) m m'
        st i h run k

-- ===== src/SstManager/FlushMemtable.antt =====
-- src/db/index_ops.cc: the tables that `flush_memtable` makes of a memtable's entries.
use hedge_db.Base.{
  ℕ, ◌+◌, ◌^◌, arith, ==_iff, length-append, ◌≤◌, ◌≡◌, refl, sym, ◌∙◌, ap, ap₂, inl, inr, List, [],
  ◌∷◌, ◌++◌, length, append_assoc, Bool, true, false, le→ltb, ◌==◌, Bool-cases, Option, some, All,
  All-append,
}
use hedge_db.Base.Sort.{IsSorted}
use mathlib.Core.Path.{subst}
use hedge_db.Base.Status.{Expected, ok}
use hedge_db.Key.{Key, key_eq}
use hedge_db.Key.Order.{key_eq→eq}
use hedge_db.Memtable.Entry.{MemtableEntry, memtable_lt}
use hedge_db.Memtable.Drain.{firsts, firsts_after}
use hedge_db.Memtable.Lookup.{first_of}
use hedge_db.Block.Encoder.{default_config}
use hedge_db.Sst.File.{FileOps, FileLaws}
use hedge_db.Sst.Footer.{SstFooter}
use hedge_db.Sst.Lookup.{Sst, probe_filter, value_found}
use hedge_db.Sst.Newest.{lookup-firsts, first_of-firsts, firsts-Ascending}
use hedge_db.Sst.WriteBuffer.{empty_meta_index}
use hedge_db.Sst.Entries.{filter_of}
use hedge_db.Sst.Export.{FilterOps, ExportOptions}
use hedge_db.Sst.ExportFile.{FilterLaws}
use hedge_db.Sst.LookupTable.{IsPageSized, lookup_async-lookup}
use hedge_db.Sst.Placed.{IsPlaced, IsMemory, partition_for-behind, partition_ranges-by_key}
use hedge_db.Sst.FilterSize.{FilterKeeps, create_qf-free}
use hedge_db.Sst.Flush.{
  opened_with, IsWritable, exported, IsTable-Exported, kept, kept-IsStorable, room,
}
use hedge_db.Sst.Partitions.{
  PartitionRange, by_key, ranges_loop, partition_ranges_generator, partition_for, flush_partition,
  flush_tasks, collected, without_errors, flush_memtable,
}
use hedge_db.SstManager.Lookup.{qf_seed}
use hedge_db.SstManager.Publish.{Answers}
use hedge_db.SstManager.PublishAll.{AnswersAll}

IsSorted-left :
    (xs ys : List MemtableEntry) → IsSorted memtable_lt (xs ++ ys) → IsSorted memtable_lt xs
IsSorted-left [] ys s = tt
IsSorted-left (x ∷ xs) ys (h, s) = (left xs h, IsSorted-left xs ys s)
  where
    left :
        (zs : List MemtableEntry)
        → All (λ (y : MemtableEntry). memtable_lt y x ≡ false) (zs ++ ys)
        → All (λ (y : MemtableEntry). memtable_lt y x ≡ false) zs
    left [] h = tt
    left (z ∷ zs) (h, hs) = (h, left zs hs)

IsSorted-right :
    (xs ys : List MemtableEntry) → IsSorted memtable_lt (xs ++ ys) → IsSorted memtable_lt ys
IsSorted-right [] ys s = s
IsSorted-right (x ∷ xs) ys (h, s) = IsSorted-right xs ys s

-- The count of a range, for which its filter is made.
record IsCounted (r : PartitionRange) : Type 0 where
  counted : r.count ≡ length r.entries
  some_entry : 1 ≤ r.count
  few : r.count ≤ 2 ^ 53

module _ {F Q : Type 0} (ops : FileOps F) (laws : FileLaws ops) (filter : FilterOps Q)
    (filter_laws : FilterLaws filter) (padding : ℕ → List ℕ)
    (padded : (n : ℕ) → length (padding n) ≡ n) (xxh64 : List ℕ → ℕ → ℕ)
    (keeps : FilterKeeps filter xxh64) (keys_per_page : ℕ) (page_keys : 1 ≤ keys_per_page) where
  abbrev filled : Option Q → List MemtableEntry → Option Q
  filled =
      filter_of ops (opened_with ops laws filter filter_laws padding padded xxh64 []) xxh64
        filter.insert default_config (room ops laws filter filter_laws padding padded xxh64)
        empty_meta_index

  filled-kept :
      (its : List MemtableEntry) (q q' : Q) (hash : ℕ)
      → filled (some q) its ≡ some q'
      → filter.may_contain q hash ≡ true
      → filter.may_contain q' hash ≡ true
  filled-kept [] q q' hash e h =
      let same : q ≡ q' = cc in subst (λ (x : Q). filter.may_contain x hash ≡ true) same h
  filled-kept (it ∷ its) q q' hash e h =
      filled-kept its (filter.insert it.key q) q' hash e (keeps.kept it.key q hash h)

  -- The filter has every key that was inserted, if it has places for all.
  filled-contains :
      (its : List MemtableEntry) (q q' : Q) (key : Key) (bytes : List ℕ)
      → length its ≤ keeps.free q
      → filled (some q) its ≡ some q'
      → first_of key its ≡ some bytes
      → filter.may_contain q' (xxh64 key qf_seed) ≡ true
  filled-contains [] q q' key bytes room e h = absurd (cc)
  filled-contains (it ∷ its) q q' key bytes room e h = elim (Bool-cases (key_eq it.key key)) [
    | inl hit ↦ filled-kept its (filter.insert it.key q) q' (xxh64 key qf_seed) e (
        subst (λ (k : Key). filter.may_contain (filter.insert it.key q) (xxh64 k qf_seed) ≡ true)
          (key_eq→eq it.key key hit) (keeps.inserted it.key q (omega (arith, room))))
    | inr miss ↦
        filled-contains its (filter.insert it.key q) q' key bytes
          (omega (arith, room, keeps.taken it.key q)) e (rw miss at h)
  ]

  length-firsts_after :
      (k : Key) (its : List MemtableEntry) → length (firsts_after k its) ≤ length its
  length-firsts_after k [] = omega arith
  length-firsts_after k (it ∷ its) = elim (Bool-cases (key_eq it.key k)) [
    | inl same ↦ rw same (omega (arith, length-firsts_after k its))
    | inr other ↦ rw other (omega (arith, length-firsts_after it.key its))
  ]

  length-firsts : (its : List MemtableEntry) → length (firsts its) ≤ length its
  length-firsts [] = omega arith
  length-firsts (it ∷ its) = omega (arith, length-firsts_after it.key its)

  module _ (first : List ℕ) (others : List (List ℕ)) (whole : IsPageSized first)
      (wholes : All IsPageSized others) (opened : ℕ → Expected F)
      (new_file : (id : ℕ) → (f : F) × (opened id ≡ ok f)) (flush_iteration : ℕ)
      (fdatasync_ssts : Bool) (partition_of : Key → ℕ) where
    abbrev task : PartitionRange → Expected (Sst F Q)
    task =
        flush_partition ops filter padding xxh64 first others flush_iteration fdatasync_ssts opened

    abbrev IsFlushable : PartitionRange → Type 0
    IsFlushable r = All (IsWritable xxh64) r.entries × IsSorted memtable_lt r.entries × IsCounted r

    -- A range becomes a table that answers for its entries.
    flush_partition-Answers :
        (r : PartitionRange)
        → IsFlushable r
        → (t : Sst F Q) × ((task r ≡ ok t)
            × Answers ops xxh64 keys_per_page filter.may_contain partition_of r t)
    unfolding flush_partition probe_filter
    flush_partition-Answers r (writable, sorted, sized) =
        let (f, is_open) = new_file r.partition_id in
        let (q₀, (made, free)) =
          create_qf-free filter xxh64 keeps r.count (sized.some_entry) (sized.few) in
        let o : ExportOptions = record {
          entry_count = r.count;
          upper_bound = r.partition_id;
          epoch = flush_iteration;
          fdatasync_output = fdatasync_ssts;
        } in
        let (s, (q, (t, (done, (table, (x, some_q)))))) =
          exported ops laws filter filter_laws padding padded xxh64 first others o r.entries f q₀
            whole wholes made writable in
        (
          t,
          (
            rw is_open done,
            record {
              partition = ap (λ (g : SstFooter). g.upper_bound) x.footer;
              lookups = λ key.
                  lookup_async-lookup xxh64 ops laws keys_per_page
                    (kept ops laws filter filter_laws padding padded xxh64 r.entries) t
                    (IsTable-Exported ops laws filter filter_laws padding padded xxh64
                      (laws.bytes f) keys_per_page o _ s q t table x)
                    page_keys (firsts-Ascending r.entries sorted)
                    (kept-IsStorable ops laws filter filter_laws padding padded xxh64 r.entries
                      writable)
                    key
                  ∙ ap value_found (lookup-firsts key r.entries);
              filter = λ key bytes h. rw x.qf (
                  filled-contains (firsts r.entries) q₀ q key bytes
                    (omega (arith, free, sized.counted, length-firsts r.entries)) some_q
                    (first_of-firsts key r.entries ∙ h));
            },
          ),
        )

    flush_tasks-AnswersAll :
        (rs : List PartitionRange)
        → All IsFlushable rs
        → (ts : List (Sst F Q)) × ((flush_tasks task rs ≡ (ts, []))
            × AnswersAll ops xxh64 keys_per_page filter.may_contain partition_of rs ts)
    unfolding flush_tasks
    flush_tasks-AnswersAll [] h = ([], (refl, tt))
    flush_tasks-AnswersAll (r ∷ rs) (h, hs) =
        let (t, (done, a)) = flush_partition-Answers r h in
        let (ts, (later, as')) = flush_tasks-AnswersAll rs hs in
        (t ∷ ts, (ap₂ collected done later, (a, as')))

    ranges_loop-IsFlushable :
        (its : List MemtableEntry) (r : PartitionRange)
        → All (IsWritable xxh64) r.entries
        → All (IsWritable xxh64) its
        → IsSorted memtable_lt (r.entries ++ its)
        → r.count ≡ length r.entries
        → 1 ≤ r.count
        → r.count + length its ≤ 2 ^ 53
        → All IsFlushable (ranges_loop (by_key partition_of) r its)
    unfolding ranges_loop
    ranges_loop-IsFlushable [] r w h s c n few = (
      (
        w,
        IsSorted-left r.entries [] s,
        record { counted = c; some_entry = n; few = omega (arith, few) },
      ),
      tt,
    )
    ranges_loop-IsFlushable (it ∷ its) r w (h, hs) s c n few =
        elim (Bool-cases (partition_of it.key == r.partition_id)) [
          | inl same ↦ rw same (
              ranges_loop-IsFlushable its _
                (All-append (IsWritable xxh64) r.entries (it ∷ []) w (h, tt)) hs
                (subst (IsSorted memtable_lt) (sym (append_assoc r.entries (it ∷ []) its)) s)
                (omega (arith, c, length-append r.entries (it ∷ []))) (omega arith)
                (omega (arith, few)))
          | inr differ ↦ rw differ (
            (
              w,
              IsSorted-left r.entries (it ∷ its) s,
              record { counted = c; some_entry = n; few = omega (arith, few) },
            ),
            ranges_loop-IsFlushable its _ (h, tt) hs (IsSorted-right r.entries (it ∷ its) s)
                (omega arith) (omega arith) (omega (arith, few)),
          )
        ]

    partition_ranges-IsFlushable :
        (its : List MemtableEntry)
        → All (IsWritable xxh64) its
        → IsSorted memtable_lt its
        → length its ≤ 2 ^ 53
        → All IsFlushable (partition_ranges_generator (by_key partition_of) its)
    unfolding partition_ranges_generator ranges_loop
    partition_ranges-IsFlushable [] h s few = tt
    partition_ranges-IsFlushable (it ∷ its) (h, hs) s few =
        rw ((==_iff (partition_of it.key) (partition_of it.key)).1 refl) (
          ranges_loop-IsFlushable its _ (h, tt) hs s (omega arith) (omega arith)
            (omega (arith, few)))

  -- A flush succeeds, and its tables answer for the ranges of the partitions.
  pub flush_memtable-AnswersAll :
      (first : List ℕ) (others : List (List ℕ)) (whole : IsPageSized first)
      (wholes : All IsPageSized others) (opened : ℕ → Expected F)
      (new_file : (id : ℕ) → (f : F) × (opened id ≡ ok f)) (flush_iteration : ℕ)
      (fdatasync_ssts : Bool) (exponent : ℕ) (behind : MemtableEntry → List ℕ)
      (its : List MemtableEntry)
      → exponent ≤ 16
      → All (IsWritable xxh64) its
      → IsSorted memtable_lt its
      → length its ≤ 2 ^ 53
      → All (λ (it : MemtableEntry). IsPlaced exponent it.key) its
      → ((it : MemtableEntry) → IsMemory (behind it))
      → (ts : List (Sst F Q)) × ((flush_memtable ops filter padding xxh64 first others exponent
              flush_iteration fdatasync_ssts opened behind its
            ≡ ok ts)
          × AnswersAll ops xxh64 keys_per_page filter.may_contain
              (partition_for exponent [])
              (partition_ranges_generator (by_key (partition_for exponent [])) its)
              ts)
  unfolding flush_memtable
  flush_memtable-AnswersAll first others whole wholes opened new_file flush_iteration fdatasync_ssts
        exponent behind its small writable sorted few placed bytes =
      let (ts, (done, a)) =
        flush_tasks-AnswersAll first others whole wholes opened new_file flush_iteration
          fdatasync_ssts (partition_for exponent [])
          (partition_ranges_generator (by_key (partition_for exponent [])) its)
          (partition_ranges-IsFlushable first others whole wholes opened new_file flush_iteration
            fdatasync_ssts (partition_for exponent []) its writable sorted few) in
      let ranges =
        partition_ranges-by_key (λ (it : MemtableEntry). partition_for exponent (behind it) it.key)
          (by_key (partition_for exponent [])) its (same_places its placed) in
      (ts, (rw (le→ltb 16 exponent small, ranges) (ap without_errors done), a))
    where
      same_places :
          (es : List MemtableEntry)
          → All (λ (it : MemtableEntry). IsPlaced exponent it.key) es
          → All
              (λ (it : MemtableEntry).
                partition_for exponent (behind it) it.key ≡ partition_for exponent [] it.key)
              es
      same_places [] h = tt
      same_places (e ∷ es) (h, hs) =
          (partition_for-behind exponent (behind e) e.key h (bytes e), same_places es hs)

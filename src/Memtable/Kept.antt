-- ===== src/Memtable/Kept.antt =====
-- src/db/memtable.cc: what `put_async` keeps of the table and of the pending flushes.
use hedge_db.Base.{
  ℕ, zero, suc, ◌+◌, ◌^◌, ◌<◌, ◌≤◌, ◌≡◌, sym, inl, inr, List, [], ◌∷◌, ◌++◌, length, Bool, true,
  false, not, ltb, Bool-cases, Option, some, none, All, All-append, arith,
}
use mathlib.Core.Path.{subst}
use hedge_db.Base.Status.{Status}
use hedge_db.Base.Sort.{insert-All}
use hedge_db.Key.{Key}
use hedge_db.Arena.{Arena, allocate_many}
use hedge_db.Wal.Entry.{WalEntry}
use hedge_db.Memtable.Entry.{MemtableEntry, memtable_lt, memtable_lt_asymm, memtable_lt-false_trans}
use hedge_db.Memtable.Skiplist.{SkiplistOps, insert_entry}
use hedge_db.Memtable.Lookup.{given-fresh, IsWrapper}
use hedge_db.Memtable.Table.{
  Memtable, WriteBuffer, flush, put, inserted, allocated, with_arena, counted, logged, with_entries,
  wrapper, value_data_alignment,
}
use hedge_db.Memtable.Reads.{
  flush_then-some, IsMemtable, flush-IsMemtable, with_entry-IsMemtable, insert_pending-last,
}

-- Epochs that rise.
abbrev pub RisingEpochs : List (ℕ × WriteBuffer) → Type 0
RisingEpochs [] = Unit {0}
RisingEpochs (p ∷ ps) = All (λ (q : ℕ × WriteBuffer). p.0 < q.0) ps × RisingEpochs ps

module _ (W : MemtableEntry → Type 0) where
  abbrev pub IsPending : ℕ → ℕ × WriteBuffer → Type 0
  IsPending seq_nr p =
      IsWrapper (record { entries = p.1.entries; seq_nr = seq_nr }) × All W p.1.entries

  -- The table and the pending tables are in order, and all their entries have a property.
  pub record Kept (m : Memtable) : Type 0 where
    pub memtable : IsMemtable m
    pub table : All W m.table.entries
    pub pending : All (IsPending m.seq_nr) m.pending_flushes
    pub rising : RisingEpochs m.pending_flushes

  raise-given :
      (n n' : ℕ) (es : List MemtableEntry)
      → n ≤ n'
      → All (λ (x : MemtableEntry). x.seq < n) es
      → All (λ (x : MemtableEntry). x.seq < n') es
  raise-given n n' [] h g = tt
  raise-given n n' (x ∷ es) h (g, gs) = (omega arith, raise-given n n' es h gs)

  raise-IsPending :
      (n n' : ℕ) (ps : List (ℕ × WriteBuffer))
      → n ≤ n'
      → n' < 2 ^ 64
      → All (IsPending n) ps
      → All (IsPending n') ps
  raise-IsPending n n' [] h k i = tt
  raise-IsPending n n' (p ∷ ps) h k ((w, f), is) = (
    (record { sorted = w.sorted; given = raise-given n n' p.1.entries h w.given; counter = k }, f),
    raise-IsPending n n' ps h k is,
  )

  RisingEpochs-last :
      (ps : List (ℕ × WriteBuffer)) (epoch : ℕ) (b : WriteBuffer)
      → RisingEpochs ps
      → All (λ (p : ℕ × WriteBuffer). p.0 < epoch) ps
      → RisingEpochs (ps ++ (epoch, b) ∷ [])
  RisingEpochs-last [] epoch b r h = (tt, tt)
  RisingEpochs-last (p ∷ ps) epoch b (r, rs) (h, hs) = (
    All-append (λ (q : ℕ × WriteBuffer). p.0 < q.0) ps ((epoch, b) ∷ []) r (h, tt),
    RisingEpochs-last ps epoch b rs hs,
  )

  module _ (ops : SkiplistOps) where
    flush-Kept : (m : Memtable) → Kept m → Kept (flush m)
    unfolding flush
    flush-Kept m k =
        let last = insert_pending-last m.flush_epoch m.table m.pending_flushes k.memtable.epochs in
        record {
          memtable = unfold flush in flush-IsMemtable ops m k.memtable;
          table = tt;
          pending = subst (All (IsPending m.seq_nr)) (sym last) (
              All-append (IsPending m.seq_nr) m.pending_flushes _ k.pending
                ((k.memtable.entries, k.table), tt));
          rising = subst RisingEpochs (sym last) (
              RisingEpochs-last m.pending_flushes m.flush_epoch m.table k.rising k.memtable.epochs);
        }

    insert_entry-Kept :
        (fits : Bool) (key : Key) (bytes : List ℕ) (m : Memtable)
        → ((seq : ℕ) → W (record { key = key; seq = seq; value = bytes }))
        → m.seq_nr + 1 < 2 ^ 64
        → Kept m
        → Kept (with_entries m (insert_entry ops fits key bytes (wrapper m)).0)
    unfolding insert_entry
    insert_entry-Kept true key bytes m w h k = record {
      memtable = with_entry-IsMemtable ops true key bytes m k.memtable h;
      table =
          rw
            (ops.add-lem (record { key = key; seq = m.seq_nr; value = bytes }) m.table.entries
              k.memtable.entries.sorted
              (given-fresh m.seq_nr m.table.entries k.memtable.entries.given))
            (insert-All memtable_lt memtable_lt_asymm memtable_lt-false_trans W _ m.table.entries
              (w m.seq_nr) k.table);
      pending = raise-IsPending m.seq_nr _ m.pending_flushes (omega arith) (omega arith) k.pending;
      rising = k.rising;
    }
    insert_entry-Kept false key bytes m w h k = record {
      memtable = with_entry-IsMemtable ops false key bytes m k.memtable h;
      table = k.table;
      pending = raise-IsPending m.seq_nr _ m.pending_flushes (omega arith) (omega arith) k.pending;
      rising = k.rising;
    }

    module _ (xxh64 : List ℕ → ℕ → ℕ) (pwritev2 : List ℕ → List ℕ → List ℕ × Option ℕ)
        (node_fits : Memtable → Bool) (thread : ℕ) (key : Key) (value : List ℕ) (value_type : ℕ)
        (new_entry : (seq : ℕ)
          → W (record { key = key; seq = seq; value = value_type ∷ value })) where
      abbrev bytes : List ℕ
      bytes = value_type ∷ value

      -- What a round that goes on with `again` keeps.
      abbrev Again : ℕ → (Memtable → Option (Memtable × Status)) → Type 0
      Again fuel again =
          (m m' : Memtable) (st : Status)
          → Kept m
          → m.seq_nr + fuel < 2 ^ 64
          → again m ≡ some (m', st)
          → Kept m'

      with_arena-Kept : (a : Arena) (m : Memtable) → Kept m → Kept (with_arena thread a m)
      with_arena-Kept a m k = record {
        memtable = record { entries = k.memtable.entries; epochs = k.memtable.epochs };
        table = k.table;
        pending = k.pending;
        rising = k.rising;
      }

      counted-Kept : (m : Memtable) → Kept m → Kept (counted key value m)
      counted-Kept m k = record {
        memtable = record { entries = k.memtable.entries; epochs = k.memtable.epochs };
        table = k.table;
        pending = k.pending;
        rising = k.rising;
      }

      logged-Kept :
          (entry : WalEntry) (m : Memtable) → Kept m → Kept (logged xxh64 pwritev2 thread entry m).0
      logged-Kept entry m k = elim (Bool-cases (not m.cfg.use_wal)) [
        | inl off ↦ rw off k
        | inr on ↦ rw on (record {
          memtable = record { entries = k.memtable.entries; epochs = k.memtable.epochs };
          table = k.table;
          pending = k.pending;
          rising = k.rising;
        })
      ]

      inserted-Kept :
          (fuel : ℕ) (again : Memtable → Option (Memtable × Status))
          → Again fuel again
          → (fits : Bool) (m m' : Memtable) (st : Status) → Kept m
          → m.seq_nr + suc fuel < 2 ^ 64
          → inserted ops xxh64 pwritev2 node_fits again thread key value bytes m
              (insert_entry ops fits key bytes (wrapper m))
            ≡ some (m', st)
          → Kept m'
      unfolding insert_entry
      inserted-Kept fuel again ih true m m' st k h run =
          let m₁ =
            counted key value (with_entries m (insert_entry ops true key bytes (wrapper m)).0) in
          let k₁ = counted-Kept _ (insert_entry-Kept true key bytes m new_entry (omega arith) k) in
          elim (Bool-cases (ltb m.cfg.memory_budget_cap m.table.bytes_written)) [
            | inl full ↦
                ih (flush m₁) m' st (flush-Kept m₁ k₁) (unfold flush in omega arith)
                  (flush_then-some again m₁ (m', st) (rw full at run))
            | inr room ↦
                let same : (logged xxh64 pwritev2 thread
                      (record { seq_nr = m.seq_nr; key = key; value = bytes }) m₁).0
                    ≡ m' =
                  cc (rw room at run) in
                subst Kept same (logged-Kept _ m₁ k₁)
          ]
      inserted-Kept fuel again ih false m m' st k h run =
          let m₁ = with_entries m (insert_entry ops false key bytes (wrapper m)).0 in
          ih (flush m₁) m' st
            (flush-Kept m₁ (insert_entry-Kept false key bytes m new_entry (omega arith) k))
            (unfold flush in omega arith) (flush_then-some again m₁ (m', st) run)

      allocated-Kept :
          (fuel : ℕ) (again : Memtable → Option (Memtable × Status))
          → Again fuel again
          → (r : Arena × Option (ℕ × ℕ)) (m m' : Memtable) (st : Status) → Kept m
          → m.seq_nr + suc fuel < 2 ^ 64
          → allocated ops xxh64 pwritev2 node_fits again thread key value bytes m r ≡ some (m', st)
          → Kept m'
      allocated-Kept fuel again ih (a, none) m m' st k h run =
          ih (flush (with_arena thread a m)) m' st (flush-Kept _ (with_arena-Kept a m k))
            (unfold flush in omega arith)
            (flush_then-some again (with_arena thread a m) (m', st) run)
      allocated-Kept fuel again ih (a, some place) m m' st k h run =
          inserted-Kept fuel again ih (node_fits (with_arena thread a m)) (with_arena thread a m) m'
            st (with_arena-Kept a m k) h run

      -- The loop of `put_async` keeps the order of the tables and what their entries have.
      pub put-Kept :
          (fuel : ℕ)
          → Again fuel (put ops xxh64 pwritev2 node_fits fuel thread key value value_type)
      unfolding put
      put-Kept zero m m' st k h run = absurd (cc)
      put-Kept (suc fuel) m m' st k h run =
          allocated-Kept fuel (put ops xxh64 pwritev2 node_fits fuel thread key value value_type)
            (put-Kept fuel)
            (allocate_many (length value + 1) value_data_alignment (m.table.value_arenas thread)) m
            m' st k h run

-- ===== src/Memtable/Returns.antt =====
-- src/db/memtable.cc: the loop of `put_async` ends.
use hedge_db.Base.{
  ℕ, ◌+◌, ◌*◌, ◌≤◌, ◌≡◌, ◌∙◌, ◌&&◌, refl, List, ◌∷◌, length, Bool, true, false, ltb, Option, some,
  none, arith, le→ltb, lt→ltb, Bool-cases, inl, inr,
}
use hedge_db.Base.Status.{Status}
use hedge_db.Key.{Key}
use hedge_db.Arena.{Arena, arena_allocator, allocate_many, allocate_many_impl, allocate_new_extent}
use hedge_db.Utils.{round_up}
use hedge_db.Memtable.Skiplist.{SkiplistOps, SkiplistWrapper, insert_entry}
use hedge_db.Memtable.Reads.{flush_then-ready}
use hedge_db.Memtable.Table.{
  Memtable, flush, flush_then, put, inserted, allocated, with_arena, counted, with_entries, wrapper,
  value_data_alignment,
}

new_arena-extent :
    (budget : ℕ)
    → 4 * 1024 * 1024 ≤ budget
    → arena_allocator budget ≡ record {
      budget = budget;
      extent_size = 4 * 1024 * 1024;
      items_per_extent = 4 * 1024 * 1024;
      total_allocated = 4 * 1024 * 1024;
      curr_extent = some 0;
      current_slot_index = 0;
      extents = 1;
    }
unfolding arena_allocator allocate_new_extent
new_arena-extent budget rich = rw (le→ltb budget (0 + 4 * 1024 * 1024) (omega arith)) refl

-- A new arena has room for an allocation of at most one extent.
fresh-arena :
    (budget n : ℕ)
    → 4 * 1024 * 1024 ≤ budget
    → n ≤ 4 * 1024 * 1024
    → (allocate_many_impl n (arena_allocator budget)).1 ≡ some (0, 0)
unfolding allocate_many_impl
fresh-arena budget n rich small =
    rw (new_arena-extent budget rich, le→ltb (4 * 1024 * 1024) (0 + n) (omega arith)) refl

module _ (ops : SkiplistOps) (xxh64 : List ℕ → ℕ → ℕ)
    (pwritev2 : List ℕ → List ℕ → List ℕ × Option ℕ) (node_fits : Memtable → Bool) (thread : ℕ)
    (key : Key) (value : List ℕ) (value_type : ℕ) where
  abbrev Returns : Option (Memtable × Status) → Type 0
  Returns o = (r : Memtable × Status) × (o ≡ some r)

  -- From here on the loop returns, whatever of the table the round changed.
  abbrev Later : (Memtable → Option (Memtable × Status)) → Memtable → Type 0
  Later again m =
      (m₁ : Memtable)
      → m₁.cfg ≡ m.cfg
      → m₁.pending_flush_slots ≡ m.pending_flush_slots
      → m₁.pipelined ≡ m.pipelined
      → Returns (flush_then again m₁)

  inserted-Returns :
      (again : Memtable → Option (Memtable × Status)) (m : Memtable)
      → Later again m
      → (w : SkiplistWrapper × (Bool × ℕ))
      → Returns
          (inserted ops xxh64 pwritev2 node_fits again thread key value (value_type ∷ value) m w)
  inserted-Returns again m later (w, (true, seq)) =
      elim (Bool-cases (ltb m.cfg.memory_budget_cap m.table.bytes_written)) [
        | inl full ↦ rw full (later (counted key value (with_entries m w)) refl refl refl)
        | inr room ↦ rw room (_, refl)
      ]
  inserted-Returns again m later (w, (false, seq)) = later (with_entries m w) refl refl refl

  allocated-Returns :
      (again : Memtable → Option (Memtable × Status)) (m : Memtable)
      → Later again m
      → (r : Arena × Option (ℕ × ℕ))
      → Returns
          (allocated ops xxh64 pwritev2 node_fits again thread key value (value_type ∷ value) m r)
  allocated-Returns again m later (a, none) = later (with_arena thread a m) refl refl refl
  allocated-Returns again m later (a, some place) =
      inserted-Returns again (with_arena thread a m) later
        (insert_entry ops _ key (value_type ∷ value) (wrapper (with_arena thread a m)))

  fresh-inserted :
      (again : Memtable → Option (Memtable × Status)) (m : Memtable)
      → m.table.bytes_written ≡ 0
      → Returns (
          inserted ops xxh64 pwritev2 node_fits again thread key value
            (value_type ∷ value)
            m
            (insert_entry ops true key (value_type ∷ value) (wrapper m)))
  unfolding insert_entry
  fresh-inserted again m empty =
      rw (empty, le→ltb m.cfg.memory_budget_cap 0 (omega arith)) (_, refl)

  fresh-allocated :
      ((m : Memtable) → node_fits m ≡ true)
      → (again : Memtable → Option (Memtable × Status)) (m : Memtable) (r : Arena × Option (ℕ × ℕ))
      → m.table.bytes_written ≡ 0
      → r.1 ≡ some (0, 0)
      → Returns
          (allocated ops xxh64 pwritev2 node_fits again thread key value (value_type ∷ value) m r)
  fresh-allocated fits again m (a, none) empty h = absurd (cc)
  fresh-allocated fits again m (a, some place) empty h =
      rw (fits (with_arena thread a m)) (fresh-inserted again (with_arena thread a m) empty)

  -- In a table that a flush has just put in place the write succeeds.
  fresh-Returns :
      ((m : Memtable) → node_fits m ≡ true)
      → (m : Memtable) → 4 * 1024 * 1024 ≤ m.cfg.memory_budget_cap
      → round_up (length value + 1) value_data_alignment ≤ 4 * 1024 * 1024
      → Returns (put ops xxh64 pwritev2 node_fits 1 thread key value value_type (flush m))
  unfolding put flush allocate_many
  fresh-Returns fits m rich small =
      fresh-allocated fits (λ x. none) (flush m)
        (allocate_many (length value + 1) value_data_alignment
          (arena_allocator m.cfg.memory_budget_cap))
        refl
        (fresh-arena m.cfg.memory_budget_cap (round_up (length value + 1) value_data_alignment) rich
          small)

  -- `put_async` returns in its second round at the latest, if a slot for a flush is free and the
  -- pipelined table is there, a list node can be allocated and the value, with its tag and rounded up,
  -- is not larger than an extent of 4 MiB, and the budget is not smaller.
  pub put-returns :
      ((m : Memtable) → node_fits m ≡ true)
      → (m : Memtable) → 4 * 1024 * 1024 ≤ m.cfg.memory_budget_cap
      → round_up (length value + 1) value_data_alignment ≤ 4 * 1024 * 1024
      → 1 ≤ m.pending_flush_slots
      → m.pipelined ≡ true
      → (r : Memtable × Status) × (put ops xxh64 pwritev2 node_fits 2 thread key value value_type m
          ≡ some r)
  unfolding put
  put-returns fits m rich small free ready =
      allocated-Returns (put ops xxh64 pwritev2 node_fits 1 thread key value value_type) m
        (λ m₁ same slots pipelined.
          let (r, done) = fresh-Returns fits m₁ (rw same rich) small in
          (
            r,
            flush_then-ready (put ops xxh64 pwritev2 node_fits 1 thread key value value_type) m₁
                  (open_now m₁ slots pipelined)
                ∙ done,
          ))
        (allocate_many (length value + 1) value_data_alignment (m.table.value_arenas thread))
    where
      open_now :
          (m₁ : Memtable)
          → m₁.pending_flush_slots ≡ m.pending_flush_slots
          → m₁.pipelined ≡ m.pipelined
          → (ltb 0 m₁.pending_flush_slots && m₁.pipelined) ≡ true
      open_now m₁ slots pipelined =
          rw (slots, pipelined, ready, lt→ltb 0 m.pending_flush_slots free) refl

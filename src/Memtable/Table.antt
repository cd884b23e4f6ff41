-- ===== src/Memtable/Table.antt =====
-- src/db/memtable.h and src/db/memtable.cc: the memtable, as the sequence of its calls by one thread:
-- between two calls no table is frozen, and `_flush` finds its mutex free.
use hedge_db.Base.{
  ℕ, zero, suc, ◌+◌, List, [], ◌∷◌, ◌++◌, length, Bool, true, false, not, ltb, ◌==◌, ◌&&◌, ◌-◌,
  if◌then◌else◌, Option, some, none, map,
}
use hedge_db.Base.Status.{Expected, Status, ok, err, error}
use hedge_db.Key.{Key}
use hedge_db.Value.{Value, value_from_span}
use hedge_db.Arena.{Arena, arena_allocator, allocate_many}
use hedge_db.RwSync.{set}
use hedge_db.Wal.Entry.{WalEntry}
use hedge_db.Wal.File.{append}
use hedge_db.Memtable.Entry.{MemtableEntry}
use hedge_db.Memtable.Skiplist.{SkiplistOps, SkiplistWrapper, insert_entry, get_value}

abbrev pub value_data_alignment : ℕ
value_data_alignment = 16

-- The fields of `memtable_config` that the operations below read.
pub record MemtableConfig : Type 0 where
  pub memory_budget_cap : ℕ
  pub use_wal : Bool

-- `write_buffer`: the entries, the count of bytes, the arena of each thread, and the log's files.
pub record WriteBuffer : Type 0 where
  pub entries : List MemtableEntry
  pub bytes_written : ℕ
  pub value_arenas : ℕ → Arena
  pub wal : List (List ℕ)

pub record Memtable : Type 0 where
  pub cfg : MemtableConfig
  pub seq_nr : ℕ
  pub table : WriteBuffer
  -- The slots of the log that wait for a table.
  pub wal_ch : List (List (List ℕ))
  -- `std::map`, by rising epochs.
  pub pending_flushes : List (ℕ × WriteBuffer)
  -- The permits of `_pending_flush_slots`, and whether `_pipelined_table` is there.
  pub pending_flush_slots : ℕ
  pub pipelined : Bool
  pub flush_epoch : ℕ
  pub table_switch_epoch : ℕ

abbrev pub new_buffer : MemtableConfig → List (List ℕ) → WriteBuffer
new_buffer cfg wal = record {
  entries = [];
  bytes_written = 0;
  value_arenas = λ thread. arena_allocator cfg.memory_budget_cap;
  wal = wal;
}

-- `insert` of the map keeps the entry that it has.
unfoldable pub insert_pending : ℕ → WriteBuffer → List (ℕ × WriteBuffer) → List (ℕ × WriteBuffer)
insert_pending epoch b [] = (epoch, b) ∷ []
insert_pending epoch b ((epoch', b') ∷ rest) =
    let later = insert_pending epoch b rest in
    if ltb epoch epoch'
    then (epoch, b) ∷ (epoch', b') ∷ rest
    else if epoch == epoch'
    then (epoch', b') ∷ rest
    else (epoch', b') ∷ later

unfoldable pub erase_pending : ℕ → List (ℕ × WriteBuffer) → List (ℕ × WriteBuffer)
erase_pending epoch [] = []
erase_pending epoch ((epoch', b) ∷ rest) =
    let later = erase_pending epoch rest in if epoch == epoch' then later else (epoch', b) ∷ later

abbrev pub next_slot : List (List (List ℕ)) → List (List ℕ)
next_slot [] = []
next_slot (slot ∷ slots) = slot

abbrev pub other_slots : List (List (List ℕ)) → List (List (List ℕ))
other_slots [] = []
other_slots (slot ∷ slots) = slots

-- `_flush` behind its waits: the table is handed to the flusher and the pipelined one takes its place.
unfoldable pub flush : Memtable → Memtable
flush m = record m {
  flush_epoch = m.flush_epoch + 1;
  table = new_buffer m.cfg (next_slot m.wal_ch);
  wal_ch = other_slots m.wal_ch;
  pending_flushes = insert_pending m.flush_epoch m.table m.pending_flushes;
  pending_flush_slots = m.pending_flush_slots - 1;
  pipelined = false;
  table_switch_epoch = m.table_switch_epoch + 1;
}

-- The waits of `_flush`: for a slot, and for the pipelined table. A call that waits forever is `none`.
abbrev pub flush_then : {A : Type 0} → (Memtable → Option A) → Memtable → Option A
flush_then again m = if ltb 0 m.pending_flush_slots && m.pipelined then again (flush m) else none

-- The task that `_flush` spawns to make the next table.
unfoldable pub make_pipelined : Memtable → Memtable
make_pipelined m = record m { pipelined = true }

-- `_pending_flush_slots.release()`.
abbrev pub release_slot : Memtable → Memtable
release_slot m = record m { pending_flush_slots = m.pending_flush_slots + 1 }

-- The end of `_flush_inner`, where compactions do not hold it back: the tables on disk are in the manager, so the table is dropped, and its
-- log is emptied and handed back.
unfoldable pub finish_flush : ℕ → List (List ℕ) → Memtable → Memtable
finish_flush epoch wal m = record m {
  pending_flushes = erase_pending epoch m.pending_flushes;
  pending_flush_slots = m.pending_flush_slots + 1;
  wal_ch = m.wal_ch ++ map (λ (file : List ℕ). []) wal ∷ [];
}

abbrev pub with_entries : Memtable → SkiplistWrapper → Memtable
with_entries m w = record m { seq_nr = w.seq_nr; table = record m.table { entries = w.entries } }

abbrev pub wrapper : Memtable → SkiplistWrapper
wrapper m = record { entries = m.table.entries; seq_nr = m.seq_nr }

-- The value that was found; a value that cannot be read throws.
abbrev pub parsed : Expected Value → Expected (Option Value)
parsed (ok v) = ok (some v)
parsed (err e) = err (error "Corrupted value in memtable for key ")

abbrev pub found_or : Expected (Option Value) → Option (List ℕ) → Expected (Option Value)
found_or later none = later
found_or later (some bytes) = parsed (value_from_span bytes)

-- The tables of the pending flushes, from the newest to the oldest.
unfoldable pub newest_first : List (ℕ × WriteBuffer) → List WriteBuffer
newest_first [] = []
newest_first ((epoch, b) ∷ rest) = newest_first rest ++ b ∷ []

abbrev pub with_arena : ℕ → Arena → Memtable → Memtable
with_arena thread a m = record m {
  table = record m.table { value_arenas = set thread a m.table.value_arenas };
}

abbrev pub counted : Key → List ℕ → Memtable → Memtable
counted key value m = record m {
  table = record m.table {
    bytes_written = m.table.bytes_written + (length key + length value + 1);
  };
}

module _ (xxh64 : List ℕ → ℕ → ℕ) (pwritev2 : List ℕ → List ℕ → List ℕ × Option ℕ) where
  -- The record goes to the log.
  abbrev pub logged : ℕ → WalEntry → Memtable → Memtable × Status
  logged thread entry m =
      if not m.cfg.use_wal
      then (m, ok tt)
      else (let r = append xxh64 pwritev2 thread entry m.table.wal in
          (record m { table = record m.table { wal = r.0 } }, r.1))

module _ (ops : SkiplistOps) where
  unfoldable pub get_from : Key → List WriteBuffer → Expected (Option Value)
  get_from key [] = ok none
  get_from key (b ∷ bs) = found_or (get_from key bs) (get_value ops key b.entries)

  unfoldable pub get : Key → Memtable → Expected (Option Value)
  get key m =
      found_or (get_from key (newest_first m.pending_flushes)) (get_value ops key m.table.entries)

  -- The loop of `put_async`: `none` stands for fuel that is used up, and for a wait that does not end. `node_fits` says whether the
  -- allocation of a list node succeeds.
  module _ (xxh64 : List ℕ → ℕ → ℕ) (pwritev2 : List ℕ → List ℕ → List ℕ × Option ℕ)
      (node_fits : Memtable → Bool) where
    -- Behind the insertion: the test of the budget reads the count from before.
    abbrev pub inserted :
        (Memtable → Option (Memtable × Status))
        → ℕ
        → Key
        → List ℕ
        → List ℕ
        → Memtable
        → SkiplistWrapper × (Bool × ℕ)
        → Option (Memtable × Status)
    inserted again thread key value bytes m (w, (true, seq)) =
        let m' = counted key value (with_entries m w) in
        let done =
          logged xxh64 pwritev2 thread (record { seq_nr = seq; key = key; value = bytes }) m' in
        if ltb m.cfg.memory_budget_cap m.table.bytes_written then flush_then again m' else some done
    inserted again thread key value bytes m (w, (false, seq)) = flush_then again (with_entries m w)

    abbrev pub allocated :
        (Memtable → Option (Memtable × Status))
        → ℕ
        → Key
        → List ℕ
        → List ℕ
        → Memtable
        → Arena × Option (ℕ × ℕ)
        → Option (Memtable × Status)
    allocated again thread key value bytes m (a, none) = flush_then again (with_arena thread a m)
    allocated again thread key value bytes m (a, some place) =
        let m' = with_arena thread a m in
        inserted again thread key value bytes m'
          (insert_entry ops (node_fits m') key bytes (wrapper m'))

    unfoldable pub put : ℕ → ℕ → Key → List ℕ → ℕ → Memtable → Option (Memtable × Status)
    put zero thread key value value_type m = none
    put (suc fuel) thread key value value_type m =
        allocated (put fuel thread key value value_type) thread key value (value_type ∷ value) m
          (allocate_many (length value + 1) value_data_alignment (m.table.value_arenas thread))

-- ===== src/Memtable/Replay.antt =====
-- src/db/memtable.cc: `replay_wal` and `acquire_snapshot`. A throw is `none`.
use hedge_db.Base.{
  ℕ, ◌+◌, ◌%◌, ◌^◌, ◌≤◌, ◌≡◌, refl, List, [], ◌∷◌, length, Bool, true, false, ltb, leb,
  if◌then◌else◌, Option, some, none, max, le→leb, All,
}
use hedge_db.Arena.{Arena, allocate_many}
use hedge_db.Wal.Entry.{WalEntry}
use hedge_db.Base.Sort.{sort, sort-All}
use hedge_db.Wal.Read.{IsLoggable}
use hedge_db.Wal.Replay.{replay-sorted, all_entries, all_bytes, before-asymm, before_trans}
use hedge_db.Wal.File.{before, collect_wal_files, DirectoryEntry, replay, replay_entries}
use hedge_db.Memtable.Skiplist.{SkiplistOps, insert_entry}
use hedge_db.Memtable.Table.{
  Memtable, WriteBuffer, with_arena, with_entries, wrapper, value_data_alignment,
}

-- What the handler of `replay_wal` keeps: the table and its two counts.
pub record Replayed : Type 0 where
  pub memtable : Memtable
  pub replayed_entries_count : ℕ
  pub max_seq_nr : ℕ

unfoldable pub skips : Option ℕ → ℕ → Bool
skips none seq_nr = false
skips (some skip_up_to_seq_nr) seq_nr = leb seq_nr skip_up_to_seq_nr

-- The memtable's snapshot: the next sequence number, the current table and the pending flushes.
pub record Snapshot : Type 0 where
  pub seq_nr : ℕ
  pub curr : WriteBuffer
  pub pending_flushes : List (ℕ × WriteBuffer)

unfoldable pub acquire_snapshot : Memtable → Snapshot
acquire_snapshot m = record {
  seq_nr = m.seq_nr;
  curr = m.table;
  pending_flushes = m.pending_flushes;
}

module _ (ops : SkiplistOps) (node_fits : Memtable → Bool) where
  abbrev pub stored : WalEntry → Replayed → Arena × Option (ℕ × ℕ) → Option (Replayed × Bool)
  stored e r (a, none) = none
  stored e r (a, some place) =
      let m = with_arena 0 a r.memtable in
      some (
        record {
          memtable = with_entries m (insert_entry ops (node_fits m) e.key e.value (wrapper m)).0;
          replayed_entries_count = r.replayed_entries_count + 1;
          max_seq_nr = max r.max_seq_nr e.seq_nr;
        },
        true,
      )

  unfoldable pub on_entry : Option ℕ → WalEntry → Replayed → Option (Replayed × Bool)
  on_entry skip_up_to_seq_nr e r =
      let kept =
        stored e r
          (allocate_many (length e.value) value_data_alignment (r.memtable.table.value_arenas 0)) in
      if skips skip_up_to_seq_nr e.seq_nr then some (r, true) else kept

  -- The counter goes on behind the entries that were replayed, if there were some.
  abbrev pub counter_set : Option Replayed → Option Memtable
  counter_set none = none
  counter_set (some r) = some (
      if ltb 0 r.replayed_entries_count
      then record r.memtable { seq_nr = (r.max_seq_nr + 1) % 2 ^ 64 }
      else r.memtable)

  unfoldable pub replay_wal :
      (List ℕ → ℕ → ℕ) → Option ℕ → List DirectoryEntry → Memtable → Option Memtable
  replay_wal xxh64 skip_up_to_seq_nr directory m = counter_set (
      replay xxh64 (on_entry skip_up_to_seq_nr) directory
        (record { memtable = m; replayed_entries_count = 0; max_seq_nr = 0 }))

  -- Entries up to the threshold leave no trace.
  pub replay_entries-skipped :
      (threshold : ℕ) (es : List WalEntry) (r : Replayed)
      → All (λ (e : WalEntry). e.seq_nr ≤ threshold) es
      → replay_entries (on_entry (some threshold)) es r ≡ some r
  unfolding replay_entries on_entry skips
  replay_entries-skipped threshold [] r h = refl
  replay_entries-skipped threshold (e ∷ es) r (h, hs) =
      rw (le→leb e.seq_nr threshold h) (replay_entries-skipped threshold es r hs)

  -- A replay whose entries all have numbers up to the threshold leaves the memtable as it was.
  pub replay_wal-skipped :
      (xxh64 : List ℕ → ℕ → ℕ) (threshold : ℕ) (directory : List DirectoryEntry) (m : Memtable)
      (files : List (List WalEntry))
      → All (All IsLoggable) files
      → collect_wal_files directory ≡ all_bytes xxh64 files
      → All (λ (e : WalEntry). e.seq_nr ≤ threshold) (all_entries files)
      → replay_wal xxh64 (some threshold) directory m ≡ some m
  unfolding replay_wal
  replay_wal-skipped xxh64 threshold directory m files l same old =
      rw
        (
          replay-sorted xxh64 (on_entry (some threshold)) _ directory files l same,
          replay_entries-skipped threshold (sort before (all_entries files)) _ (
              sort-All before before-asymm before_trans (λ (e : WalEntry). e.seq_nr ≤ threshold)
                (all_entries files) old),
        )
        refl

-- ===== src/Tests/DatabaseExamples.antt =====
-- src/db/database.cc at concrete inputs.
use hedge_db.Base.{Option, none, ℕ, List, [], ◌∷◌, true, some}
use hedge_db.Base.Status.{Expected, Status, ok}
use hedge_db.Memtable.Entry.{MemtableEntry}
use hedge_db.Memtable.Table.{WriteBuffer}
use hedge_db.Arena.{arena_allocator}
use hedge_db.Database.{Database, put_async}
use hedge_db.Memtable.Kept.{Kept}
use hedge_db.Database.Run.{IsDatabase}
use hedge_db.Tests.WalExamples.{no_hash, whole_write}
use hedge_db.Tests.MemtableExamples.{sorted_list, some_table}
use hedge_db.Tests.SstExamples.{allocated, byte_file, full_filter, zeros, versions}

-- A table that waits for its flush.
abbrev waiting : WriteBuffer
waiting = record {
  entries = versions;
  bytes_written = 11;
  value_arenas = λ t. arena_allocator 8388608;
  wal = [];
}

abbrev some_database : Database (List ℕ) (Unit {0})
some_database = record {
  memtable = record some_table { seq_nr = 8; pending_flushes = (0, waiting) ∷ []; flush_epoch = 1 };
  sorted_indices = λ id. some ([] ∷ []);
  num_partition_exponent = 4;
}

abbrev new_file : ℕ → Expected (List ℕ)
new_file id = ok allocated

-- What stands behind the keys in memory.
abbrev some_memory : MemtableEntry → List ℕ
some_memory it = 0 ∷ []

abbrev database_or :
    Option (Database (List ℕ) (Unit {0}) × Status) → Database (List ℕ) (Unit {0}) × Status
database_or none = (some_database, ok tt)
database_or (some r) = r

abbrev written : Option (Database (List ℕ) (Unit {0}) × Status)
written =
    put_async sorted_list byte_file full_filter no_hash 120 whole_write (λ m. true) 2 0 (7 ∷ [])
      (9 ∷ []) some_database

abbrev IsSome : Database (List ℕ) (Unit {0}) → Type 0
IsSome =
    IsDatabase sorted_list byte_file full_filter no_hash 120 zeros (zeros 4096) [] true new_file
      whole_write (λ m. true)

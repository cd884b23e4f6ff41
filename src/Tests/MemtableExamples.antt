-- ===== src/Tests/MemtableExamples.antt =====
-- src/db/memtable.cc and src/db/merge/sst_stream.h at concrete inputs, over a skip list that is a
-- sorted list.
use hedge_db.Base.{ℕ, ◌≡◌, refl, ap, [], ◌∷◌, true, false, arith, Option, some, if◌then◌else◌}
use hedge_db.Base.Status.{Status}
use hedge_db.Base.Sort.{insert}
use hedge_db.Key.{key_eq}
use hedge_db.Arena.{arena_allocator}
use hedge_db.Memtable.Entry.{MemtableEntry, memtable_lt}
use hedge_db.Memtable.Skiplist.{SkiplistOps, SkiplistWrapper, insert_entry, get_value, from_bound}
use hedge_db.Memtable.Lookup.{IsWrapper, get_value-insert_entry}
use hedge_db.Memtable.Table.{wrapper, Memtable, MemtableConfig, flush, get, put}
use hedge_db.Memtable.Reads.{IsMemtable, get-flush, overwritten}
use hedge_db.Memtable.Put.{get-put}
use hedge_db.Memtable.Returns.{put-returns}
use hedge_db.Memtable.Replay.{replay_wal, replay_wal-skipped, acquire_snapshot}
use hedge_db.Memtable.Cursor.{MemtableCursor, drain, pop_front, skip_invisible}
use hedge_db.Memtable.Drain.{drain-firsts, firsts, pop_front-invisible, acquire_snapshot-next_write}
use hedge_db.Block.Iterator.{first_byte}
use hedge_db.Tests.WalExamples.{
  one_file, log_directory, log_directory-bytes, one_file-IsLoggable, no_hash, whole_write,
}
use hedge_db.Utils.{round_up}

abbrev pub sorted_list : SkiplistOps
sorted_list = record {
  add = insert memtable_lt;
  lower_bound = from_bound;
  add-lem = λ e l s fresh. refl;
  lower_bound-lem = λ e l s. refl;
}

abbrev pub entry : ℕ → ℕ → MemtableEntry
entry k seq = record { key = k ∷ []; seq = seq; value = 1 ∷ seq ∷ [] }

abbrev one_entry : SkiplistWrapper
one_entry = record { entries = entry 5 0 ∷ []; seq_nr = 1 }

one_entry-IsWrapper : IsWrapper one_entry
one_entry-IsWrapper = record { sorted = (tt, tt); given = (omega arith, tt); counter = omega arith }

get_value-insert_entry_example :
    get_value sorted_list
      (5 ∷ [])
      (insert_entry sorted_list true (5 ∷ []) (1 ∷ 9 ∷ []) one_entry).0.entries
    ≡ (if key_eq (5 ∷ []) (5 ∷ [])
        then some (1 ∷ 9 ∷ [])
        else get_value sorted_list (5 ∷ []) one_entry.entries)
get_value-insert_entry_example =
    get_value-insert_entry sorted_list (5 ∷ []) (5 ∷ []) (1 ∷ 9 ∷ []) one_entry one_entry-IsWrapper
      (omega arith)

abbrev pub config : MemtableConfig
config = record { memory_budget_cap = 8388608; use_wal = false }

abbrev pub some_table : Memtable
some_table = record {
  cfg = config;
  seq_nr = 1;
  table = record {
    entries = entry 5 0 ∷ [];
    bytes_written = 3;
    value_arenas = λ t. arena_allocator 8388608;
    wal = [];
  };
  wal_ch = [];
  pending_flushes = [];
  pending_flush_slots = 2;
  pipelined = true;
  flush_epoch = 0;
  table_switch_epoch = 0;
}

some_table-IsMemtable : IsMemtable some_table
some_table-IsMemtable = record { entries = one_entry-IsWrapper; epochs = tt }

get-flush_example :
    get sorted_list (5 ∷ []) (flush some_table) ≡ get sorted_list (5 ∷ []) some_table
get-flush_example = get-flush sorted_list (5 ∷ []) some_table some_table-IsMemtable

-- The table that the write of the example leaves.
abbrev put_result : Option (Memtable × Status)
put_result = put sorted_list no_hash whole_write (λ m. true) 2 0 (7 ∷ []) (4 ∷ 4 ∷ []) 1 some_table

put_done : (r : Memtable × Status) × (put_result ≡ some r)
put_done =
    put-returns sorted_list no_hash whole_write (λ m. true) 0 (7 ∷ []) (4 ∷ 4 ∷ []) 1 (λ m. refl)
      some_table (omega arith) (unfold round_up in omega arith) (omega arith) refl

put-returns_example : (r : Memtable × Status) × (put_result ≡ some r)
put-returns_example =
    put-returns sorted_list no_hash whole_write (λ m. true) 0 (7 ∷ []) (4 ∷ 4 ∷ []) 1 (λ m. refl)
      some_table (omega arith) (unfold round_up in omega arith) (omega arith) refl

get-put_example :
    get sorted_list (7 ∷ []) put_done.0.0
    ≡ overwritten sorted_list (7 ∷ []) (1 ∷ 4 ∷ 4 ∷ []) some_table (7 ∷ [])
get-put_example =
    get-put sorted_list no_hash whole_write (λ m. true) 0 (7 ∷ []) (4 ∷ 4 ∷ []) 1 2 some_table
      put_done.0.0 put_done.0.1 some_table-IsMemtable (omega arith) put_done.1 (7 ∷ [])

replay_wal-skipped_example :
    replay_wal sorted_list (λ m. true) no_hash (some 3) log_directory some_table ≡ some some_table
replay_wal-skipped_example =
    replay_wal-skipped sorted_list (λ m. true) no_hash 3 log_directory some_table one_file
      (one_file-IsLoggable, tt) log_directory-bytes (omega arith, (omega arith, tt))

drain-firsts_example :
    drain 4 (record {
      it = entry 1 3 ∷ entry 1 1 ∷ entry 2 2 ∷ [];
      end_count = 0;
      max_seq = 9;
      epoch = 0;
    })
    ≡ firsts (entry 1 3 ∷ entry 1 1 ∷ entry 2 2 ∷ [])
drain-firsts_example =
    drain-firsts (entry 1 3 ∷ entry 1 1 ∷ entry 2 2 ∷ []) 9 0
      (omega arith, (omega arith, (omega arith, tt)))

abbrev hidden_next : MemtableCursor
hidden_next = record {
  it = entry 1 3 ∷ entry 1 1 ∷ entry 2 9 ∷ [];
  end_count = 0;
  max_seq = 5;
  epoch = 0;
}

pop_front-invisible_example : (pop_front hidden_next).it ≡ entry 2 9 ∷ []
pop_front-invisible_example =
    pop_front-invisible hidden_next (entry 1 3) (entry 1 1) (entry 2 9) [] refl (omega arith) refl
      (omega arith) (λ e. omega (arith, ap first_byte e)) (omega arith)

acquire_snapshot-next_write_example :
    let seq_nr = (acquire_snapshot some_table).seq_nr in
    let e : MemtableEntry = record { key = 8 ∷ []; seq = seq_nr; value = 1 ∷ [] } in
    let r = insert_entry sorted_list true (8 ∷ []) (1 ∷ []) (wrapper some_table) in
    ((r.1 ≡ (true, seq_nr)) × (r.0.entries ≡ sorted_list.add e some_table.table.entries))
    × ((skip_invisible 0 seq_nr (e ∷ entry 9 0 ∷ []) ≡ e ∷ entry 9 0 ∷ [])
        × (skip_invisible 0 0 (e ∷ entry 9 0 ∷ []) ≡ skip_invisible 0 0 (entry 9 0 ∷ [])))
acquire_snapshot-next_write_example =
    acquire_snapshot-next_write sorted_list some_table (8 ∷ []) (1 ∷ []) 0 0 (entry 9 0 ∷ [])
      (λ e. omega (arith, e)) (unfold acquire_snapshot in omega arith)

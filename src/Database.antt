-- ===== src/Database.antt =====
-- src/db/database.cc: `put_async`, `remove_async`, `get_async` and `_find_value`, and the part of
-- src/db/memtable.cc's `_flush_inner` that hands a table over to the sorted tables. What `get` of the
-- memtable throws is an error.
pub mod Flush
pub mod Run
pub mod Refine
use hedge_db.Base.{ℕ, List, [], ◌∷◌, Bool, Option, some, none}
use hedge_db.Base.Status.{Status, Expected, ok, err, error, Error, deleted, ◌>>=◌}
use hedge_db.Key.{Key}
use hedge_db.Value.{Value, value_ptr, in_place, tombstone, tag_in_place_value, tag_tombstone}
use hedge_db.Memtable.Entry.{MemtableEntry}
use hedge_db.Memtable.Skiplist.{SkiplistOps}
use hedge_db.Memtable.Table.{Memtable, WriteBuffer, get, put, finish_flush, release_slot}
use hedge_db.Sst.File.{FileOps}
use hedge_db.Sst.Lookup.{Sst}
use hedge_db.Sst.Export.{FilterOps}
use hedge_db.Sst.Partitions.{partition_for, flush_memtable}
use hedge_db.SstManager.Lookup.{Partitions, manager_lookup, push_new_ssts_to_l0}

pub record Database (F Q : Type 0) : Type 0 where
  pub memtable : Memtable
  pub sorted_indices : Partitions F Q
  pub num_partition_exponent : ℕ

abbrev pub or_manager : Expected Value → Option Value → Expected Value
or_manager later none = later
or_manager later (some v) = ok v

-- What `get_async` makes of the value that was found.
unfoldable pub read_value : Value → Expected (List ℕ)
read_value (in_place bytes) = ok bytes
read_value tombstone = err (record { text = "deleted key"; code = deleted })
read_value (value_ptr p) = err (error "kv separation not implemented")

module _ {F Q : Type 0} (skiplist : SkiplistOps) (ops : FileOps F) (filter : FilterOps Q)
    (xxh64 : List ℕ → ℕ → ℕ) (keys_per_page : ℕ) where
  -- `behind` is what stands behind the key's bytes in its memory.
  unfoldable pub find_matching_partition_for_key : List ℕ → Key → Database F Q → ℕ
  find_matching_partition_for_key behind key db = partition_for db.num_partition_exponent behind key

  unfoldable pub find_value : List ℕ → Key → Database F Q → Expected Value
  find_value behind key db =
      get skiplist key db.memtable
      >>= or_manager (
          manager_lookup ops xxh64 keys_per_page filter.may_contain key
            (find_matching_partition_for_key behind key db) db.sorted_indices)

  unfoldable pub get_async : List ℕ → Key → Database F Q → Expected (List ℕ)
  get_async behind key db = find_value behind key db >>= read_value

  module _ (pwritev2 : List ℕ → List ℕ → List ℕ × Option ℕ) (node_fits : Memtable → Bool) where
    abbrev pub with_memtable :
        Database F Q → Option (Memtable × Status) → Option (Database F Q × Status)
    with_memtable db none = none
    with_memtable db (some (m, status)) = some (record db { memtable = m }, status)

    unfoldable pub put_async : ℕ → ℕ → Key → List ℕ → Database F Q → Option (Database F Q × Status)
    put_async fuel thread key value db =
        with_memtable db (
          put skiplist xxh64 pwritev2 node_fits fuel thread key value tag_in_place_value
            db.memtable)

    unfoldable pub remove_async : ℕ → ℕ → Key → Database F Q → Option (Database F Q × Status)
    remove_async fuel thread key db =
        with_memtable db
          (put skiplist xxh64 pwritev2 node_fits fuel thread key [] tag_tombstone db.memtable)

  -- `_flush_inner` of one pending table, when those before it have been published.
  module _ (padding : ℕ → List ℕ) (first : List ℕ) (others : List (List ℕ)) (fdatasync_ssts : Bool)
      (opened : ℕ → Expected F) (behind : MemtableEntry → List ℕ) where
    abbrev pub published : ℕ → WriteBuffer → Database F Q → Expected (List (Sst F Q)) → Database F Q
    published epoch table db (err e) = record db { memtable = release_slot db.memtable }
    published epoch table db (ok ts) = record db {
      memtable = finish_flush epoch table.wal db.memtable;
      sorted_indices = push_new_ssts_to_l0 ts db.sorted_indices;
    }

    unfoldable pub flush_inner : ℕ → WriteBuffer → Database F Q → Database F Q
    flush_inner epoch table db = published epoch table db (
        flush_memtable ops filter padding xxh64 first others db.num_partition_exponent epoch
          fdatasync_ssts opened behind table.entries)

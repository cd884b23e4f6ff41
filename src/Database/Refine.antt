-- ===== src/Database/Refine.antt =====
-- src/db/database.cc: the database as a map from keys to what `get_async` gives.
use hedge_db.Base.{◌^◌, ℕ, ◌≤◌, ◌≡◌, List, ◌∷◌, length, Bool, Option, All}
use hedge_db.Base.Status.{Status, Expected, ok}
use hedge_db.Key.{Key}
use hedge_db.Value.{Value}
use hedge_db.Memtable.Entry.{MemtableEntry}
use hedge_db.Memtable.Skiplist.{SkiplistOps}
use hedge_db.Memtable.Table.{Memtable, WriteBuffer}
use hedge_db.Memtable.Kept.{Kept}
use hedge_db.Sst.File.{FileOps, FileLaws}
use hedge_db.Sst.Lookup.{Sst}
use hedge_db.Sst.Export.{FilterOps}
use hedge_db.Sst.ExportFile.{FilterLaws}
use hedge_db.Sst.LookupTable.{IsPageSized}
use hedge_db.SstManager.Lookup.{Partitions}
use hedge_db.Sst.FilterSize.{FilterKeeps}
use hedge_db.Sst.Placed.{IsMemory}
use hedge_db.Database.{Database, get_async, flush_inner}
use hedge_db.Database.Run.{with_pipelined, View, IsStored, Run, IsDatabase}

module _ {F Q : Type 0} (skiplist : SkiplistOps) (ops : FileOps F) (laws : FileLaws ops)
    (filter : FilterOps Q) (filter_laws : FilterLaws filter) (padding : ℕ → List ℕ)
    (padded : (n : ℕ) → length (padding n) ≡ n) (xxh64 : List ℕ → ℕ → ℕ)
    (keeps : FilterKeeps filter xxh64) (keys_per_page : ℕ) (page_keys : 1 ≤ keys_per_page)
    (first : List ℕ) (others : List (List ℕ)) (whole : IsPageSized first)
    (wholes : All IsPageSized others) (opened : ℕ → Expected F)
    (new_file : (id : ℕ) → (f : F) × (opened id ≡ ok f)) (fdatasync_ssts : Bool)
    (pwritev2 : List ℕ → List ℕ → List ℕ × Option ℕ) (node_fits : Memtable → Bool) where
  abbrev Db : Database F Q → Type 0
  Db =
      IsDatabase skiplist ops filter xxh64 keys_per_page padding first others fdatasync_ssts opened
        pwritev2 node_fits

  abbrev reads : List ℕ → Database F Q → View
  reads behind db k = get_async skiplist ops filter xxh64 keys_per_page behind k db

  module _ (epoch : ℕ) (table : WriteBuffer) (rest : List (ℕ × WriteBuffer))
      (behind : MemtableEntry → List ℕ) (db : Database F Q)
      (pending : db.memtable.pending_flushes ≡ (epoch, table) ∷ rest)
      (few : length table.entries ≤ 2 ^ 53) (memory : (it : MemtableEntry) → IsMemory (behind it))
      (i : Db db) where
    abbrev Stored : MemtableEntry → Type 0
    Stored = IsStored xxh64 db.num_partition_exponent

    abbrev flushed : Database F Q
    flushed =
        flush_inner skiplist ops filter xxh64 keys_per_page padding first others fdatasync_ssts
          opened behind epoch table db

  abbrev made : Database F Q → Database F Q
  made =
      with_pipelined skiplist ops filter xxh64 keys_per_page padding first others fdatasync_ssts
        opened pwritev2 node_fits

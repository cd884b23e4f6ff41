-- ===== src/Database/Run.antt =====
-- src/db/database.cc: runs of writes and flushes, and what a write changes of what is read.
use hedge_db.Base.{
  ℕ, ◌+◌, ◌^◌, ◌≤◌, ◌<◌, ◌≡◌, refl, ◌∙◌, ap, List, [], ◌∷◌, Bool, true, false, if◌then◌else◌,
  Option, some, length,
}
use hedge_db.Base.Status.{Status, Expected, ok, err, deleted, ◌>>=◌}
use hedge_db.Key.{Key, key_eq}
use hedge_db.Value.{Value, value_from_span, tag_in_place_value, tag_tombstone}
use hedge_db.Memtable.Entry.{MemtableEntry}
use hedge_db.Memtable.Skiplist.{SkiplistOps}
use hedge_db.Memtable.Table.{Memtable, WriteBuffer, make_pipelined, get, put, parsed}
use hedge_db.Memtable.Put.{get-put}
use hedge_db.Memtable.Kept.{Kept, put-Kept}
use hedge_db.Sst.File.{FileOps}
use hedge_db.Sst.Export.{FilterOps}
use hedge_db.Sst.Flush.{IsWritable}
use hedge_db.Sst.Partitions.{partition_for}
use hedge_db.SstManager.Lookup.{manager_lookup}
use hedge_db.SstManager.Publish.{IsReadable, Initialised}
use hedge_db.Sst.Placed.{IsPlaced, IsMemory}
use hedge_db.Database.{
  Database, or_manager, read_value, find_matching_partition_for_key, find_value, get_async,
  put_async, remove_async, flush_inner,
}

pub data Change : Type 0 where
  put_value : Key → List ℕ → Change
  remove : Key → Change

-- What reads a database after a change, for what it read before.
abbrev pub View : Type 0
View = Key → Expected (List ℕ)

abbrev pub changed : Change → View → View
changed (put_value key value) view k = if key_eq key k then ok value else view k
changed (remove key) view k =
    if key_eq key k then err (record { text = "deleted key"; code = deleted }) else view k

abbrev pub all_changed : List Change → View → View
all_changed [] view = view
all_changed (c ∷ cs) view = all_changed cs (changed c view)

pub changed-same : (c : Change) (v w : View) (k : Key) → v k ≡ w k → changed c v k ≡ changed c w k
changed-same (put_value key value) v w k h =
    ap (λ (r : Expected (List ℕ)). if key_eq key k then ok value else r) h
changed-same (remove key) v w k h =
    ap
      (λ (r : Expected (List ℕ)).
        if key_eq key k then err (record { text = "deleted key"; code = deleted }) else r)
      h

pub all_changed-same :
    (cs : List Change) (v w : View) (k : Key) → v k ≡ w k → all_changed cs v k ≡ all_changed cs w k
all_changed-same [] v w k h = h
all_changed-same (c ∷ cs) v w k h =
    all_changed-same cs (changed c v) (changed c w) k (changed-same c v w k h)

-- An entry that can be flushed, whatever its sequence number.
abbrev pub IsStored : (List ℕ → ℕ → ℕ) → ℕ → MemtableEntry → Type 0
IsStored xxh64 exponent it = IsWritable xxh64 it × (IsReadable it.value × IsPlaced exponent it.key)

abbrev pub IsAccepted : (List ℕ → ℕ → ℕ) → ℕ → Key → List ℕ → Type 0
IsAccepted xxh64 exponent key bytes =
    IsWritable xxh64 (record { key = key; seq = 0; value = bytes }) × IsPlaced exponent key

module _ {F Q : Type 0} (skiplist : SkiplistOps) (ops : FileOps F) (filter : FilterOps Q)
    (xxh64 : List ℕ → ℕ → ℕ) (keys_per_page : ℕ) (padding : ℕ → List ℕ) (first : List ℕ)
    (others : List (List ℕ)) (fdatasync_ssts : Bool) (opened : ℕ → Expected F)
    (pwritev2 : List ℕ → List ℕ → List ℕ × Option ℕ) (node_fits : Memtable → Bool) where
  -- Writes that return, new tables, and flushes of the oldest pending table, in any order.
  pub data Run : Database F Q → List Change → Database F Q → Type 0 where
    stop : {db : Database F Q} → Run db [] db
    put_step :
        {db db₁ db₂ : Database F Q} {cs : List Change} (fuel thread : ℕ) (key : Key)
        (value : List ℕ) (st : Status)
        → put_async skiplist ops filter xxh64 keys_per_page pwritev2 node_fits fuel thread key value
            db
          ≡ some (db₁, st)
        → db.memtable.seq_nr + fuel < 2 ^ 64
        → IsAccepted xxh64 db.num_partition_exponent key (tag_in_place_value ∷ value)
        → Run db₁ cs db₂
        → Run db (put_value key value ∷ cs) db₂
    remove_step :
        {db db₁ db₂ : Database F Q} {cs : List Change} (fuel thread : ℕ) (key : Key) (st : Status)
        → remove_async skiplist ops filter xxh64 keys_per_page pwritev2 node_fits fuel thread key db
          ≡ some (db₁, st)
        → db.memtable.seq_nr + fuel < 2 ^ 64
        → IsAccepted xxh64 db.num_partition_exponent key (tag_tombstone ∷ [])
        → Run db₁ cs db₂
        → Run db (remove key ∷ cs) db₂
    -- The task that makes the next table.
    make_step :
        {db db₂ : Database F Q} {cs : List Change}
        → Run (record db { memtable = make_pipelined db.memtable }) cs db₂
        → Run db cs db₂
    flush_step :
        {db db₂ : Database F Q} {cs : List Change} (epoch : ℕ) (table : WriteBuffer)
        (rest : List (ℕ × WriteBuffer)) (behind : MemtableEntry → List ℕ)
        → db.memtable.pending_flushes ≡ (epoch, table) ∷ rest
        → length table.entries ≤ 2 ^ 53
        → ((it : MemtableEntry) → IsMemory (behind it))
        → Run
            (flush_inner skiplist ops filter xxh64 keys_per_page padding first others fdatasync_ssts
              opened behind epoch table db)
            cs
            db₂
        → Run db cs db₂

  -- A database whose tables are in order and whose entries can be flushed, with all its partitions.
  pub record IsDatabase (db : Database F Q) : Type 0 where
    pub kept : Kept (IsStored xxh64 db.num_partition_exponent) db.memtable
    pub exponent : db.num_partition_exponent ≤ 16
    pub partitions :
        Initialised ops xxh64 keys_per_page filter.may_contain
          (partition_for db.num_partition_exponent [])
          db.sorted_indices

  abbrev pub read : List ℕ → Database F Q → View
  read behind db k = get_async skiplist ops filter xxh64 keys_per_page behind k db

  module _ (db : Database F Q) where
    abbrev pub with_pipelined : Database F Q
    with_pipelined = record db { memtable = make_pipelined db.memtable }

    pub with_pipelined-IsDatabase : IsDatabase db → IsDatabase with_pipelined
    unfolding make_pipelined
    with_pipelined-IsDatabase i = record {
      kept = record {
        memtable = record { entries = i.kept.memtable.entries; epochs = i.kept.memtable.epochs };
        table = i.kept.table;
        pending = i.kept.pending;
        rising = i.kept.rising;
      };
      exponent = i.exponent;
      partitions = i.partitions;
    }

    pub read-with_pipelined :
        (behind : List ℕ) (k : Key) → read behind with_pipelined k ≡ read behind db k
    unfolding make_pipelined get_async find_value find_matching_partition_for_key get
    read-with_pipelined behind k = refl

  -- What a write of some bytes makes of a database.
  module _ (fuel thread : ℕ) (key : Key) (value : List ℕ) (value_type : ℕ) (v : Value)
      (db : Database F Q) (m : Memtable) (st : Status)
      (readable : value_from_span (value_type ∷ value) ≡ ok v)
      (run : put skiplist xxh64 pwritev2 node_fits fuel thread key value value_type db.memtable
        ≡ some (m, st))
      (room : db.memtable.seq_nr + fuel < 2 ^ 64)
      (accepted : IsAccepted xxh64 db.num_partition_exponent key (value_type ∷ value))
      (i : IsDatabase db) where
    abbrev pub after : Database F Q
    after = record db { memtable = m }

    pub after-IsDatabase : IsDatabase after
    after-IsDatabase = record {
      kept =
          put-Kept (IsStored xxh64 db.num_partition_exponent) skiplist xxh64 pwritev2 node_fits
            thread key value value_type (λ seq. (accepted.0, ((v, readable), accepted.1))) fuel
            db.memtable m st i.kept room run;
      exponent = i.exponent;
      partitions = i.partitions;
    }

    pub read-after :
        (behind : List ℕ) (k : Key)
        → read behind after k ≡ (if key_eq key k then read_value v else read behind db k)
    unfolding get_async find_value find_matching_partition_for_key
    read-after behind k =
        ap (λ (r : Expected (Option Value)). r >>= or_manager later >>= read_value)
          (get-put skiplist xxh64 pwritev2 node_fits thread key value value_type fuel db.memtable m
            st i.kept.memtable room run k)
        ∙ by_key (key_eq key k)
      where
        later : Expected Value
        later =
            manager_lookup ops xxh64 keys_per_page filter.may_contain k
              (partition_for db.num_partition_exponent behind k) db.sorted_indices

        by_key :
            (same : Bool)
            → ((if same
                  then parsed (value_from_span (value_type ∷ value))
                  else get skiplist k db.memtable)
                >>= or_manager later
                >>= read_value)
              ≡ (if same
                  then read_value v
                  else (get skiplist k db.memtable >>= or_manager later >>= read_value))
        by_key true = rw readable refl
        by_key false = refl

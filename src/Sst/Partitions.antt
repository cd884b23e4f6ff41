-- ===== src/Sst/Partitions.antt =====
-- src/db/index_ops.cc: `_partition_ranges_generator` and `flush_memtable`. A range is its entries; the
-- tasks of the partitions are done one after the other, in the order in which they are posted.
use hedge_db.Base.{ℕ, ◌+◌, ◌/◌, ◌^◌, List, [], ◌∷◌, ◌++◌, length, Bool, ltb, ◌==◌, if◌then◌else◌}
use hedge_db.Base.Status.{Expected, ok, err, error, Error}
use hedge_db.Key.{Key}
use hedge_db.Utils.{find_partition_prefix_for_key}
use hedge_db.Memtable.Entry.{MemtableEntry}
use hedge_db.Block.Encoder.{default_config}
use hedge_db.Sst.File.{FileOps}
use hedge_db.Sst.Lookup.{Sst}
use hedge_db.Sst.WriteBuffer.{merge_write_buffer}
use hedge_db.Sst.Export.{FilterOps, export_as_sst}

pub record PartitionRange : Type 0 where
  pub partition_id : ℕ
  pub entries : List MemtableEntry
  pub count : ℕ
  pub sum_key_value_lengths : ℕ

module _ (partition_of : MemtableEntry → ℕ) where
  -- The loop, with the range that it has begun.
  unfoldable pub ranges_loop : PartitionRange → List MemtableEntry → List PartitionRange
  ranges_loop r [] = r ∷ []
  ranges_loop r (it ∷ its) =
      let id = partition_of it in
      let size = length it.key + length it.value in
      let same =
        ranges_loop
          (record {
            partition_id = r.partition_id;
            entries = r.entries ++ it ∷ [];
            count = r.count + 1;
            sum_key_value_lengths = r.sum_key_value_lengths + size;
          })
          its in
      let other =
        ranges_loop
          (record {
            partition_id = id;
            entries = it ∷ [];
            count = 0 + 1;
            sum_key_value_lengths = 0 + size;
          })
          its in
      if id == r.partition_id then same else r ∷ other

  unfoldable pub partition_ranges_generator : List MemtableEntry → List PartitionRange
  partition_ranges_generator [] = []
  partition_ranges_generator (it ∷ its) =
      ranges_loop
        (record {
          partition_id = partition_of it;
          entries = [];
          count = 0;
          sum_key_value_lengths = 0;
        })
        (it ∷ its)

-- `partition_key_prefix_range` of an exponent, for a key and what stands behind its bytes.
abbrev pub partition_for : ℕ → List ℕ → Key → ℕ
partition_for num_partition_exponent behind key =
    find_partition_prefix_for_key key behind (2 ^ 16 / 2 ^ num_partition_exponent)

abbrev pub by_key : (Key → ℕ) → MemtableEntry → ℕ
by_key partition_of it = partition_of it.key

-- What a task that ends adds to the results or to the errors.
abbrev pub collected : {A : Type 0} → Expected A → List A × List Error → List A × List Error
collected (ok t) (results, errors) = (t ∷ results, errors)
collected (err e) (results, errors) = (results, e ∷ errors)

unfoldable pub flush_tasks :
    {A : Type 0} → (PartitionRange → Expected A) → List PartitionRange → List A × List Error
flush_tasks task [] = ([], [])
flush_tasks task (r ∷ rs) = collected (task r) (flush_tasks task rs)

abbrev pub without_errors : {A : Type 0} → List A × List Error → Expected (List A)
without_errors (results, []) = ok results
without_errors (results, e ∷ es) = err (error "Parallel flush failed: ")

module _ {F Q : Type 0} (ops : FileOps F) (filter : FilterOps Q) (padding : ℕ → List ℕ)
    (xxh64 : List ℕ → ℕ → ℕ) where
  -- `_flush_partition_task`, over the pages of its write buffer and what opening the file gives.
  unfoldable pub flush_partition :
      List ℕ → List (List ℕ) → ℕ → Bool → (ℕ → Expected F) → PartitionRange → Expected (Sst F Q)
  flush_partition first others flush_iteration fdatasync_ssts opened r =
      export_as_sst ops filter padding xxh64 (merge_write_buffer first others default_config)
        (record {
          entry_count = r.count;
          upper_bound = r.partition_id;
          epoch = flush_iteration;
          fdatasync_output = fdatasync_ssts;
        })
        r.entries (opened r.partition_id)

  -- `behind` gives what stands behind the bytes of an entry's key in the list's node.
  unfoldable pub flush_memtable :
      List ℕ
      → List (List ℕ)
      → ℕ
      → ℕ
      → Bool
      → (ℕ → Expected F)
      → (MemtableEntry → List ℕ)
      → List MemtableEntry
      → Expected (List (Sst F Q))
  flush_memtable first others num_partition_exponent flush_iteration fdatasync_ssts opened behind
        entries =
      if ltb 16 num_partition_exponent
      then err (error "Number of partitions exponent must be less than or equal to 16")
      else without_errors (
          flush_tasks (flush_partition first others flush_iteration fdatasync_ssts opened) (
            partition_ranges_generator
              (λ (it : MemtableEntry). partition_for num_partition_exponent (behind it) it.key)
              entries))

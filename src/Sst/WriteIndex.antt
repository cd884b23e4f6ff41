-- ===== src/Sst/WriteIndex.antt =====
-- src/db/index_ops.cc: `_write_index`, over the memtable's entries between two iterators. The quotient
-- filter is a state that an insertion changes. Buffers of the caller are part of the state.
use hedge_db.Base.{ℕ, ◌+◌, max, List, [], ◌∷◌, Bool, false, Option, some, none, if◌then◌else◌}
use hedge_db.Base.Status.{Status, Expected, ok, err, error, ◌>>=◌}
use hedge_db.Key.{Key, key_eq}
use hedge_db.Memtable.Entry.{MemtableEntry}
use hedge_db.Sst.File.{FileOps}
use hedge_db.Sst.WriteBuffer.{
  MergeWriteBuffer, MetaIndex, WriteResult, add_last_key, buffer_empty, write_buffer_item,
  flush_buffer,
}

pub record IndexState (F Q : Type 0) : Type 0 where
  pub write_buffer : MergeWriteBuffer
  pub bytes_written : ℕ
  pub meta_index : MetaIndex
  pub qf : Option Q
  pub prev_key : Option Key
  pub max_seq_nr : ℕ
  pub file : F

pub record WriteIndexInfos : Type 0 where
  pub bytes_written : ℕ
  pub indexed_kv : ℕ
  pub max_seq_nr : ℕ

abbrev pub same_as_prev : Option Key → Key → Bool
same_as_prev none key = false
same_as_prev (some prev) key = key_eq key prev

module _ {F Q : Type 0} (ops : FileOps F) (xxh64 : List ℕ → ℕ → ℕ) (insert : Key → Q → Q) where
  abbrev pub insert_qf : Key → Option Q → Option Q
  insert_qf key none = none
  insert_qf key (some q) = some (insert key q)

  abbrev pub flushed :
      IndexState F Q → MergeWriteBuffer × F × WriteResult → Expected (IndexState F Q)
  flushed s (b, f, r) =
      if r.has_error
      then err (error "Failed to write index data: ")
      else ok (record s {
        write_buffer = b;
        file = f;
        bytes_written = s.bytes_written + r.bytes_written;
      })

  -- The lambda `flush`.
  unfoldable pub flush_index : IndexState F Q → Expected (IndexState F Q)
  flush_index s = flushed s (flush_buffer xxh64 ops s.write_buffer s.file s.bytes_written)

  -- A call of `write_item`.
  unfoldable pub try_item : Key → List ℕ → IndexState F Q → IndexState F Q × Status
  try_item key value s =
      let r = write_buffer_item xxh64 key value s.write_buffer s.meta_index in
      (record s { write_buffer = r.0; meta_index = r.1 }, r.2)

  abbrev pub retried : IndexState F Q × Status → Expected (IndexState F Q)
  retried (s, ok u) = ok s
  retried (s, err e) = err (error "Could not write item after flush")

  abbrev pub or_flush : Key → List ℕ → IndexState F Q × Status → Expected (IndexState F Q)
  or_flush key value (s, ok u) = ok s
  or_flush key value (s, err e) =
      flush_index s >>= λ (s' : IndexState F Q). retried (try_item key value s')

  -- The loop's body.
  unfoldable pub write_entry : MemtableEntry → IndexState F Q → Expected (IndexState F Q)
  write_entry it s =
      if same_as_prev s.prev_key it.key
      then ok s
      else or_flush it.key it.value (
          try_item it.key it.value (record s {
            prev_key = some it.key;
            max_seq_nr = max s.max_seq_nr it.seq;
            qf = insert_qf it.key s.qf;
          }))

  unfoldable pub write_entries : List MemtableEntry → IndexState F Q → Expected (IndexState F Q)
  write_entries [] s = ok s
  write_entries (it ∷ its) s = write_entry it s >>= write_entries its

  unfoldable pub flush_remaining : IndexState F Q → Expected (IndexState F Q)
  flush_remaining s =
      if buffer_empty s.write_buffer
      then ok s
      else flush_index (record s {
        meta_index = add_last_key s.write_buffer.block_writer.encoder.last_key s.meta_index;
      })

  -- The state at the end, and what is returned.
  unfoldable pub write_index :
      MergeWriteBuffer → List MemtableEntry → Option Q → MetaIndex → F → Expected (IndexState F Q)
  write_index write_buffer entries qf meta_index file =
      write_entries entries (record {
        write_buffer = write_buffer;
        bytes_written = 0;
        meta_index = meta_index;
        qf = qf;
        prev_key = none;
        max_seq_nr = 0;
        file = file;
      })
      >>= flush_remaining

unfoldable pub write_index_infos : {F Q : Type 0} → IndexState F Q → WriteIndexInfos
write_index_infos s = record {
  bytes_written = s.bytes_written;
  indexed_kv = s.write_buffer.indexed_kvs;
  max_seq_nr = s.max_seq_nr;
}

-- ===== src/Sst/WriteBuffer.antt =====
-- src/db/merge/write_buffer.h: `merge_write_buffer`, and src/db/index_ops.h: `append_meta_index_key`.
-- Of a write's result the model keeps whether it is negative and else the number of bytes.
use hedge_db.Base.{ℕ, ◌+◌, List, [], ◌∷◌, ◌++◌, Bool, true, false, Option, some, none}
use hedge_db.Base.Status.{Status, ok, err}
use hedge_db.Key.{Key, write_key_unsafe}
use hedge_db.Block.Encoder.{BlockConfig}
use hedge_db.Block.Writer.{
  BlockBufferWriter, block_buffer_writer, empty, reset_writer, written_pages, force_commit,
  push_item,
}
use hedge_db.Sst.File.{FileOps, concat}

-- The meta index in memory, and its bytes as they go to the file.
pub record MetaIndex : Type 0 where
  pub keys : List Key
  pub encoded : List ℕ

abbrev pub empty_meta_index : MetaIndex
empty_meta_index = record { keys = []; encoded = [] }

unfoldable pub append_meta_index_key : List ℕ → Key → List ℕ
append_meta_index_key buffer key = buffer ++ write_key_unsafe key

-- What `write_item` does at the end of a block, and `_write_index` at the end of the table.
abbrev pub add_last_key : Key → MetaIndex → MetaIndex
add_last_key key m = record {
  keys = m.keys ++ key ∷ [];
  encoded = append_meta_index_key m.encoded key;
}

pub record WriteResult : Type 0 where
  pub bytes_written : ℕ
  pub has_error : Bool

abbrev pub write_result : Option ℕ → WriteResult
write_result none = record { bytes_written = 0; has_error = true }
write_result (some n) = record { bytes_written = n; has_error = false }

pub record MergeWriteBuffer : Type 0 where
  pub block_writer : BlockBufferWriter
  pub indexed_kvs : ℕ

-- The constructor, over the buffer's pages.
abbrev pub merge_write_buffer : List ℕ → List (List ℕ) → BlockConfig → MergeWriteBuffer
merge_write_buffer first others cfg = record {
  block_writer = block_buffer_writer first others cfg;
  indexed_kvs = 0;
}

unfoldable pub buffer_empty : MergeWriteBuffer → Bool
buffer_empty b = empty b.block_writer

module _ (xxh64 : List ℕ → ℕ → ℕ) where
  abbrev pub item_written :
      MergeWriteBuffer
      → BlockBufferWriter × MetaIndex × Status
      → MergeWriteBuffer × MetaIndex × Status
  item_written b (w, meta, ok u) =
      (record { block_writer = w; indexed_kvs = b.indexed_kvs + 1 }, meta, ok u)
  item_written b (w, meta, err e) = (record b { block_writer = w }, meta, err e)

  unfoldable pub write_buffer_item :
      Key → List ℕ → MergeWriteBuffer → MetaIndex → MergeWriteBuffer × MetaIndex × Status
  write_buffer_item key value b meta =
      item_written b (push_item xxh64 add_last_key key value b.block_writer meta)

  module _ {F : Type 0} (ops : FileOps F) where
    -- `flush` without a cache.
    unfoldable pub flush_buffer : MergeWriteBuffer → F → ℕ → MergeWriteBuffer × F × WriteResult
    flush_buffer b f write_offset =
        let w = force_commit xxh64 b.block_writer in
        let r = ops.write f (concat (written_pages w)) write_offset in
        (record b { block_writer = reset_writer w }, r.0, write_result r.1)

-- ===== src/Lib.antt =====
-- A model of HedgeDB, an embedded key-value store with a log-structured merge tree, and proofs about
-- it. The paths below are those of the repository.
--
-- The parts and how they interact. A write goes from `database` to the memtable, which stores the
-- value in an arena of the writing thread, inserts an entry with the next sequence number into a
-- skip list and appends the entry to the thread's log file. A table that is full is frozen, handed to
-- the flusher and replaced; lookups ask the current table and then the tables whose flush is pending.
-- The flusher writes pages of sorted blocks, one file for each partition of the key space. At the
-- start of a database the log files are replayed. Tables of a level that can be picked are put into
-- buckets, and each bucket is merged into one table of the next level; while too many tables of level 0
-- wait for this, writes are held back.
--
-- The modules:
-- - Base: names of the library, Boolean tests, lists over the native numbers, bits of machine words,
--   sorting, and include/error.hpp (Base/Status).
-- - Bytes: little-endian integers and a region of memory that is written in order.
-- - Varint: src/db/varint.h. The encoder's loop recurs on accessibility of the value, the decoder on
--   the bytes.
-- - Key: include/key.h, a key as the bytes of its string view. The inline and heap storage of a key is
--   not modelled.
-- - Value: include/types.h, the tags and forms of values.
-- - Utils: src/utils.h, `round_up`, `ceil_page_align`, `find_partition_prefix_for_key`.
-- - Arena: src/db/arena_allocator.h, for items of one byte; memory of the system does not run out.
-- - Block: src/db/block.h and src/db/block.cc. Block/Encoder has `block_encoder` with `push`,
--   `_push_as_restart_key`, `_push_as_delta_key` and `_commit`; Block/Iterator has `block_iterator`;
--   Block/Decoder has `block_decoder`. A block is a list of bytes, the head the place where the
--   written bytes end. `read_entries` is the loop over an iterator, on fuel: one turn for each entry
--   and one for the end. Block/Writer has `block_buffer_writer`, over the pages of its buffer, and
--   Block/Reader `block_buffer_reader`, whose loop `read_buffer` is on fuel, one turn for each entry.
-- - Wal: src/db/wal.h and src/db/wal.cc. Wal/Entry has `_write_entry` and one turn of
--   `read_wal_file_generator`; Wal/File the loop, `collect_wal_files`, `read_all_entries`, `replay`,
--   `append` and `reset`. The loop is on fuel, the number of bytes, and each turn takes bytes. Opening
--   and preallocating files is not modelled.
-- - RwSync: src/async/rw_sync.h, the interleavings of the atomic operations of any number of threads
--   as a step relation.
-- - Memtable: src/db/memtable.h, src/db/memtable.cc, src/db/skiplist.h and the memtable cursor of
--   src/db/merge/sst_stream.h. Memtable/Table has `put_async` as a loop on fuel, `get`, `_flush` and the
--   end of `_flush_inner`; Memtable/Replay `replay_wal` and `acquire_snapshot`; Memtable/Cursor
--   `memtable_cursor`. `_flush` waits for a slot and for the pipelined table, which a task makes; a wait
--   that does not end is `none`. The calls are those of one thread: the interleavings of writers with a flush
--   stand in RwSync only.
-- - Merge: src/db/merge/merge_utils.h and the loop of `k_way_merge_async2` in src/db/merge/merge.cc.
--   Merge/Deduplicator has `deduplicator`, Merge/Run the heap and the loop on fuel, a turn for each
--   entry of the sources. A source is the list of a file's entries; a heap is a list from which the top
--   is taken; what is written is a list of entries.
-- - Sst: a sorted table. Sst/WriteBuffer has `merge_write_buffer` of src/db/merge/write_buffer.h,
--   Sst/WriteIndex `_write_index` and Sst/Export the rest of `_export_as_sst_async` of
--   src/db/index_ops.cc, Sst/Footer `sst_footer` and its builder, Sst/Load `sst::load`, Sst/PageId
--   `_find_page_id`, `find_range` and `create_super_index`, Sst/Lookup `lookup_async` of src/db/sst.cc.
--   Sst/Partitions has `_partition_ranges_generator` and `flush_memtable`, whose tasks are done in order.
--   A file is an interface (Sst/File) whose laws are those of a regular file.
-- - SstManager: SstManager/Backpressure has `_update_pending_compactions_counter` and
--   SstManager/Compaction has `create_buckets_from_level` of src/db/sst_manager.cc, with the state of a table
--   (src/db/sst.h). The loop over a level is on fuel, the number of tables. SstManager/Lookup has
--   `lookup_async` over the levels and `push_new_ssts_to_l0`.
-- - Database: src/db/database.cc, `put_async`, `remove_async`, `get_async` and `_find_value`, and what
--   `_flush_inner` of src/db/memtable.cc publishes, where the flush before it has been published.
-- - Tests: the theorems at concrete inputs.
--
-- Parameters. XXH64 is a function of bytes and seed. `pwritev2` is a function of the file and the
-- bytes. The skip list (a copy of folly's) is the record `SkiplistOps` of an insertion and a lower
-- bound with the laws of a sorted sequence. The allocation of a list node is a test on the table.
--
-- A file of a table is the record `FileOps` with the laws `FileLaws`: a write replaces the
-- bytes that are there and appends the rest, a read gives what is there, and `ftruncate` cuts the file
-- off; a new file has the bytes that it was allocated with (src/fs/fs.hpp). The quotient filter is the record `FilterOps`,
-- and `FilterKeeps` is what src/db/qf.h says of it; memory that nobody
-- wrote is a function of its length, and `sizeof(key_t)` enters as the number of keys in a page.
-- The memory behind a key's bytes, of which `extract_prefix` reads one where the key has one byte, is a
-- parameter of a lookup and of a flush.
--
-- Integers are natural numbers with the wrap-around of the source written out where a value can reach
-- it; sums of sizes of objects in memory do not.
--
-- Not modelled: what the merge writes around its entries, `sst_stream`, the rest of the
-- levels and their compaction, the range iterator and the database around them (src/db/index_ops.cc,
-- src/db/merge/merge.cc, src/db/sst_manager.cc, src/db/range_iterator.cc,
-- src/db/database.cc); the quotient filter, which is code of another project; input and output,
-- coroutines, caches, counters and benchmarks.
pub mod Base
pub mod Bytes
pub mod Varint
pub mod Key
pub mod Block
pub mod Wal
pub mod RwSync
pub mod Merge
pub mod Sst
pub mod SstManager
pub mod Database
pub mod Tests
pub mod Utils
pub mod Arena
pub mod Value
pub mod Memtable

-- ===== src/Merge.antt =====
-- src/db/merge/merge_utils.h and src/db/merge/merge.cc: the merge of sorted files.
pub mod Deduplicator
pub mod Run
pub mod Dedup
pub mod Heap
pub mod Drain
pub mod Newest
pub mod Epoch
pub mod Result
pub mod Account

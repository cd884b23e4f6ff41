-- ===== src/SstManager.antt =====
-- src/db/sst_manager.cc: the levels of sorted tables.
pub mod Backpressure
pub mod Compaction
pub mod Buckets
pub mod Pick
pub mod Fuel
pub mod Lookup
pub mod Publish
pub mod PublishAll
pub mod FlushMemtable

-- ===== src/Memtable.antt =====
-- src/db/memtable.h, src/db/memtable.cc and src/db/skiplist.h: the table of recent writes.
pub mod Entry
pub mod Skiplist
pub mod Lookup
pub mod Table
pub mod Reads
pub mod Put
pub mod Returns
pub mod Kept
pub mod Replay
pub mod Cursor
pub mod Drain

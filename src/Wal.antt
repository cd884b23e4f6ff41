-- ===== src/Wal.antt =====
-- src/db/wal.h and src/db/wal.cc: the write-ahead log.
pub mod Entry
pub mod File
pub mod Format
pub mod Read
pub mod Loop
pub mod Replay

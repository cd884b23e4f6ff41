-- ===== src/Sst.antt =====
-- src/db/sst.cc and src/db/index_ops.cc: sorted tables, how they are written and how they are read.
pub mod File
pub mod Footer
pub mod FooterRead
pub mod WriteBuffer
pub mod WriteIndex
pub mod Written
pub mod Entries
pub mod Table
pub mod PageId
pub mod SuperIndex
pub mod SuperPage
pub mod Lookup
pub mod PageOf
pub mod LookupTable
pub mod Newest
pub mod Export
pub mod Load
pub mod ExportFile
pub mod FilterSize
pub mod LoadExport
pub mod Flush
pub mod Partitions
pub mod Placed

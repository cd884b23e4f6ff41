-- ===== src/Block.antt =====
-- src/db/block.h and src/db/block.cc: the sorted block of a page.
pub mod Encoder
pub mod Iterator
pub mod Decoder
pub mod Entries
pub mod Sequence
pub mod Space
pub mod Push
pub mod Commit
pub mod RoundTrip
pub mod Groups
pub mod Search
pub mod Find
pub mod Lookup
pub mod Trailer
pub mod FindRoundTrip
pub mod Writer
pub mod Writing
pub mod WriterSteps
pub mod Reader
pub mod ReadAll

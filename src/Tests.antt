-- ===== src/Tests.antt =====
-- The theorems at concrete inputs.
mod BlockExamples
pub mod WalExamples
pub mod MemtableExamples
mod OtherExamples
mod MergeExamples
pub mod SstExamples
mod SstManagerExamples
mod DatabaseExamples

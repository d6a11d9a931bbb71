-- ===== src/Pack.antt =====
-- pack.go: the search in a pack's index, and the numbers at the head of its entries.
pub mod Search
pub mod Header
pub mod Base
pub mod Chain
pub mod Offset
mod Examples
mod Samples
mod IndexSamples

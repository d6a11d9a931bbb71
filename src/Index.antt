-- ===== src/Index.antt =====
-- index.go: the entries of the next commit, with conflicts, in memory and in the file's format.
-- The mutex is not modelled: each method runs alone.
mod Treeless
pub mod Entry
pub mod Order
pub mod Store
pub mod Search
pub mod Conflicts
pub mod Changes
pub mod ReadTree
pub mod Format
pub mod Extensions
pub mod Read
pub mod Flags
pub mod Sorted
pub mod Lookup
pub mod Iteration
pub mod EntryFormat
pub mod Fresh
pub mod Checked
pub mod LongPath
mod Examples

-- ===== src/Delta.antt =====
-- delta.go: binary deltas between two byte strings.
mod Wrote
pub mod Size
pub mod Blocks
pub mod Match
pub mod Emit
pub mod Create
pub mod Apply
pub mod CopyField
pub mod CopyOpcode
mod CopyRead
pub mod Script
pub mod Matching
pub mod Writer
pub mod Table
pub mod CreateLoop
pub mod LongBlocks
pub mod Total
pub mod Ends
pub mod Applied
pub mod ApplyEnds
pub mod ShortLine
pub mod RoundTrip
mod Examples

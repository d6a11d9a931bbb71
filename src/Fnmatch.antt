-- ===== src/Fnmatch.antt =====
-- fnmatch.go: file name patterns. Patterns and strings are read by offsets, as the source does.
pub mod Fold
pub mod Range
pub mod RangeEnds
pub mod Match
pub mod Plain
pub mod RoundEnds
pub mod Ends
mod Examples

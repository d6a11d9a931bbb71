-- ===== src/RevWalk.antt =====
-- revwalk.go and commitlist.go: the walk over the history from the commits that are pushed, without
-- those that are hidden.
mod Closed
mod Resets
pub mod Node
pub mod Parse
pub mod State
pub mod Mark
pub mod Iterators
pub mod Walk
pub mod Within
pub mod Marked
pub mod Taken
pub mod Orders
pub mod Reachable
pub mod Unmarked
pub mod Pushed
mod Examples

-- ===== src/Tree.antt =====
-- tree.go and tree_builder.go: the entries of a directory, read from the bytes of a tree object and
-- written to them. strtol32 of util.go, by which the modes are read, is here too.
pub mod Number
pub mod Entries
pub mod Builder
mod Examples

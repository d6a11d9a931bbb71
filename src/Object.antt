-- ===== src/Object.antt =====
-- Objects, as their contents are parsed: object.go, signature.go, commit.go and tag.go.
pub mod Signature
pub mod Commit
mod Examples

-- ===== src/Object/Commit.antt =====
-- commit.go: newCommit, which makes a commit from its bytes, and the ancestors of a commit. The loop over
-- the lines of the parents is the one of commitQuickParse (RevWalk/Parse); the encoding that the last loop
-- looks for is not used. The index of a parent is not negative.
pub mod Text
pub mod Parents
pub mod RoundTrip
pub mod Ancestors
use git4go.Common.{
  ℕ, zero, suc, ◌+◌, ◌-◌, Bool, true, false, ◌&&◌, Option, none, some, List, [], ◌∷◌, ltb, ◌==◌,
  if◌then◌else◌, length, drop, Outcome, ok, err, panic, stuck, ◌>>=◌, codes, GitError, message,
  or_panic, get_elem?, byte_at, bytes_equal, Slice, slice_range, ℤ,
}
use git4go.Oid.{Oid, parse_oid_with_prefix}
use git4go.RevWalk.Parse.{parse_parents_loop}
use git4go.Object.Signature.{Signature, parse_signature}

pub record Commit : Type 0 where
  pub oid : Oid
  pub message : List ℕ
  pub tree_id : Option Oid
  pub author : Signature
  pub committer : Signature
  pub parents : List Oid

-- The bytes before the next newline.
unfoldable pub line_length : List ℕ → ℕ
line_length [] = 0
line_length (c ∷ bytes) = let n = line_length bytes in if c == 10 then 0 else suc n

-- The offset behind a line.
unfoldable pub next_line : List ℕ → (offset : ℕ) → ℕ
unfolding line_length
next_line bytes offset =
    let eol = offset + line_length (drop offset bytes) in
    if ltb eol (length bytes) then eol + 1 else eol

-- The loop over the lines up to an empty one. Each is compared with the word "encoding ", as a slice
-- of nine bytes, which may end behind the array.
unfoldable pub header_loop : (rounds : ℕ) (contents : Slice) (offset : ℕ) → Outcome GitError ℕ
unfolding next_line slice_range
header_loop zero contents offset = stuck
header_loop (suc rounds) contents offset =
    let rest = header_loop rounds contents (next_line contents.elems offset) in
    if ltb offset (length contents.elems)
    then (do
      before ← byte_at contents.elems (offset - 1)
      here ← byte_at contents.elems offset
      if before == 10 && here == 10
          then ok offset
          else (do word ← slice_range contents offset 9; rest))
    else ok offset

-- The parents that are read are not among the fields that are set.
unfoldable pub new_commit :
    (local_zone : ℤ → ℤ) (oid : Oid) (contents : Slice) → Outcome GitError Commit
unfolding parse_oid_with_prefix parse_parents_loop parse_signature header_loop
new_commit local_zone oid contents = do
  (tree, after_tree) ← parse_oid_with_prefix contents.elems 0 (codes "tree ")
  (ids, after_parents) ← parse_parents_loop (length contents.elems + 1) contents.elems after_tree
  (author, after_author) ← parse_signature local_zone contents after_parents (codes "author ")
  (committer, after_committer) ←
      parse_signature local_zone contents after_author (codes "committer ")
  offset ← header_loop (length contents.elems + 1) contents after_committer
  ok (record {
    oid = oid;
    message = drop offset contents.elems;
    tree_id = tree;
    author = author;
    committer = committer;
    parents = [];
  })

unfoldable pub parent_count : Commit → ℕ
parent_count c = length c.parents

unfoldable pub parent_id : Commit → (n : ℕ) → Option Oid
parent_id c n = get_elem? c.parents n

-- `lookup_commit` is LookupCommit, none for nil.
module _ (lookup_commit : Oid → Option Commit) where
  unfoldable pub parent : Commit → (n : ℕ) → Outcome GitError (Option Commit)
  parent c n = do id ← or_panic (get_elem? c.parents n); ok (lookup_commit id)

  unfoldable pub nth_gen_ancestor : (n : ℕ) → Commit → Outcome GitError Commit
  unfolding parent
  nth_gen_ancestor zero c = ok c
  nth_gen_ancestor (suc n) c = do
    found ← parent c 0
    elim found [ none ↦ err (message "can't find parent") | some p ↦ nth_gen_ancestor n p ]

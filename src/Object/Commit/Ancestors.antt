-- ===== src/Object/Commit/Ancestors.antt =====
-- NthGenAncestor of commit.go on the commits that newCommit makes.
use git4go.Common.{
  ℕ, suc, ◌≡◌, refl, Option, [], panic, ok, >>=-eq-ok, Slice, ℤ, length, ◌+◌, codes,
}
use git4go.Oid.{Oid, parse_oid_with_prefix}
use git4go.RevWalk.Parse.{parse_parents_loop}
use git4go.Object.Signature.{parse_signature}
use git4go.Object.Commit.{Commit, header_loop, new_commit, parent, nth_gen_ancestor}

new_commit-parents :
    (local_zone : ℤ → ℤ) (oid : Oid) (contents : Slice) (c : Commit)
    → new_commit local_zone oid contents ≡ ok c
    → c.parents ≡ []
unfolding new_commit
new_commit-parents local_zone oid contents c made =
    let (tree, t, rest) =
      >>=-eq-ok (parse_oid_with_prefix contents.elems 0 (codes "tree ")) _ made in
    let (ids, i, rest) =
      >>=-eq-ok (parse_parents_loop (length contents.elems + 1) contents.elems tree.1) _ rest in
    let (author, a, rest) =
      >>=-eq-ok (parse_signature local_zone contents ids.1 (codes "author ")) _ rest in
    let (committer, b, rest) =
      >>=-eq-ok (parse_signature local_zone contents author.1 (codes "committer ")) _ rest in
    let (offset, o, rest) =
      >>=-eq-ok (header_loop (length contents.elems + 1) contents committer.1) _ rest in
    cc rest

-- Whatever bytes newCommit makes a commit of, NthGenAncestor of that commit panics for every number
-- above 0, also where the bytes name parents that can be looked up.
pub nth_gen_ancestor-new_commit :
    (lookup_commit : Oid → Option Commit) (n : ℕ) (local_zone : ℤ → ℤ) (oid : Oid)
    (contents : Slice) (c : Commit)
    → new_commit local_zone oid contents ≡ ok c
    → nth_gen_ancestor lookup_commit (suc n) c ≡ panic
unfolding nth_gen_ancestor parent
nth_gen_ancestor-new_commit lookup_commit n local_zone oid contents c made =
    rw (new_commit-parents local_zone oid contents c made) refl

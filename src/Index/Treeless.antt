-- ===== src/Index/Treeless.antt =====
-- Reading the extensions of an index, in index.go, gives it no tree cache.
use git4go.Common.{
  ℕ, zero, suc, ◌+◌, ◌-◌, ◌≡◌, refl, ◌&&◌, none, List, ltb, leb, ◌==◌, length, take, drop, Outcome,
  Fails, ok, err, panic, stuck, codes, GitError, bytes_equal,
}
use git4go.Common.Actions.{Leaves, continue-Leaves, if-apply-Leaves}
use git4go.TreeCache.{TreeCache}
use git4go.TreeCache.Unread.{read_tree_cache-Fails}
use git4go.Index.Store.{Index}
use git4go.Index.Format.{index_footer_size}
use git4go.Index.Read.{
  read_reuc_loop, read_conflict_names_loop, or_zero, keep_tree, read_known_extension,
  read_extension, read_extensions,
}

-- No tree cache.
abbrev pub HasNoTree : Index → Type 0
HasNoTree v = v.tree ≡ none

-- A result that keeps the index as it is, or changes only other fields.
pub keeps : {A : Type 0} {r : Index × Outcome GitError A} → HasNoTree r.0 → Leaves HasNoTree r
keeps h = record { holds = h }

read_reuc_loop-HasNoTree :
    (rounds : ℕ) (buffer : List ℕ) (offset end : ℕ) (v : Index)
    → HasNoTree v
    → Leaves HasNoTree (read_reuc_loop rounds buffer offset end v)
unfolding read_reuc_loop
read_reuc_loop-HasNoTree zero buffer offset end v h =
    if-apply-Leaves (ltb offset end) _ _ v (keeps h) (keeps h)
read_reuc_loop-HasNoTree (suc rounds) buffer offset end v h =
    if-apply-Leaves (ltb offset end) _ _ v
      (continue-Leaves (keeps h) (λ found w k.
        continue-Leaves (keeps k)
          (λ a w' k'. read_reuc_loop-HasNoTree rounds buffer found.1 end w' k')))
      (keeps h)

read_conflict_names_loop-HasNoTree :
    (rounds : ℕ) (buffer : List ℕ) (offset end : ℕ) (v : Index)
    → HasNoTree v
    → Leaves HasNoTree (read_conflict_names_loop rounds buffer offset end v)
unfolding read_conflict_names_loop
read_conflict_names_loop-HasNoTree zero buffer offset end v h =
    if-apply-Leaves (ltb offset end) _ _ v (keeps h) (keeps h)
read_conflict_names_loop-HasNoTree (suc rounds) buffer offset end v h =
    if-apply-Leaves (ltb offset end) _ _ v
      (continue-Leaves (keeps h) (λ found w k.
        continue-Leaves (keeps k)
          (λ a w' k'. read_conflict_names_loop-HasNoTree rounds buffer found.1 end w' k')))
      (keeps h)

or_zero-HasNoTree :
    (total : ℕ) (r : Index × Outcome GitError (Unit {0}))
    → Leaves HasNoTree r
    → Leaves HasNoTree (or_zero total r)
unfolding or_zero
or_zero-HasNoTree total (v, ok a) h = keeps h.holds
or_zero-HasNoTree total (v, err e) h = keeps h.holds
or_zero-HasNoTree total (v, panic) h = keeps h.holds
or_zero-HasNoTree total (v, stuck) h = keeps h.holds

keep_tree-HasNoTree :
    (total : ℕ) (m : Outcome GitError TreeCache) (v : Index)
    → Fails m
    → HasNoTree v
    → Leaves HasNoTree (keep_tree total m v)
unfolding keep_tree
keep_tree-HasNoTree total (ok cache) v never h = absurd (never cache refl)
keep_tree-HasNoTree total (err e) v never h = keeps h
keep_tree-HasNoTree total panic v never h = keeps h
keep_tree-HasNoTree total stuck v never h = keeps h

read_known_extension-HasNoTree :
    (buffer : List ℕ) (offset extension_size : ℕ) (v : Index)
    → HasNoTree v
    → Leaves HasNoTree (read_known_extension buffer offset extension_size v)
unfolding read_known_extension
read_known_extension-HasNoTree buffer offset extension_size v h =
    if-apply-Leaves (bytes_equal (take 4 (drop offset buffer)) (codes "TREE")) _ _ v
      (keep_tree-HasNoTree _ _ v (read_tree_cache-Fails buffer (offset + 8) extension_size) h)
      (if-apply-Leaves (bytes_equal (take 4 (drop offset buffer)) (codes "REUC")) _ _ v
        (or_zero-HasNoTree _ _ (
          continue-Leaves (read_reuc_loop-HasNoTree extension_size buffer (offset + 8) _ v h)
            (λ a w k. keeps k)))
        (if-apply-Leaves (bytes_equal (take 4 (drop offset buffer)) (codes "NAME")) _ _ v
          (or_zero-HasNoTree _ _
            (read_conflict_names_loop-HasNoTree extension_size buffer (offset + 8) _ v h))
          (keeps h)))

read_extension-HasNoTree :
    (buffer : List ℕ) (offset : ℕ) (v : Index)
    → HasNoTree v
    → Leaves HasNoTree (read_extension buffer offset v)
unfolding read_extension
read_extension-HasNoTree buffer offset v h = continue-Leaves (keeps h) (λ size w k.
    if-apply-Leaves (ltb (length buffer - index_footer_size) (offset + (size + 8))) _ _ w (keeps k)
      (continue-Leaves (keeps k) (λ c w' k'.
        if-apply-Leaves (leb 65 c && leb c 90) _ _ w'
          (read_known_extension-HasNoTree buffer offset size w' k') (keeps k'))))

pub read_extensions-HasNoTree :
    (rounds : ℕ) (buffer : List ℕ) (offset bound : ℕ) (v : Index)
    → HasNoTree v
    → Leaves HasNoTree (read_extensions rounds buffer offset bound v)
unfolding read_extensions
read_extensions-HasNoTree zero buffer offset bound v h =
    if-apply-Leaves (ltb offset bound) _ _ v (keeps h) (keeps h)
read_extensions-HasNoTree (suc rounds) buffer offset bound v h =
    if-apply-Leaves (ltb offset bound) _ _ v
      (continue-Leaves (read_extension-HasNoTree buffer offset v h) (λ size w k.
        if-apply-Leaves (size == 0) _ _ w (keeps k)
          (read_extensions-HasNoTree rounds buffer (offset + size) bound w k)))
      (keeps h)

-- ===== src/Index/Changes.antt =====
-- The methods of index.go that change entries and REUC entries.
use git4go.Common.{
  ℕ, ◌+◌, false, not, Option, none, some, List, [], ◌∷◌, ◌++◌, ltb, if◌then◌else◌, length,
  get_elem?, set, take, drop, Outcome, ok, err, panic, stuck, GitError, or_error, is_error_code,
  not_found, message, git_error, or_panic,
}
use git4go.Common.Actions.{Action, ◌>>=◌, ◌>>◌, lift, get, modify, fail}
use git4go.Oid.{Oid}
use git4go.Tree.Entries.{valid_filemode}
use git4go.TreeCache.{TreeCache, invalidate_path}
use git4go.Index.Entry.{IndexEntry, IndexReucEntry, blank_entry}
use git4go.Index.Store.{Config, Index, owner}
use git4go.Index.Search.{Bsearch, sort_and_find_in_entries, reuc_find}
use git4go.Index.Conflicts.{get_conflict}

-- The index with the tree that a call leaves.
unfoldable pub with_tree :
    Index → Outcome GitError (Option TreeCache) → Index × Outcome GitError (Unit {0})
with_tree v (ok tree) = (record v { tree = tree }, ok tt)
with_tree v (err e) = (v, err e)
with_tree v panic = (v, panic)
with_tree v stuck = (v, stuck)

-- `v.tree.invalidatePath(path)`.
unfoldable pub invalidate : (path : List ℕ) → Action Index (Unit {0})
unfolding with_tree invalidate_path
invalidate path v = with_tree v (invalidate_path v.tree path)

-- Add, which appends whatever path and stage the index already has.
unfoldable pub add : IndexEntry → Action Index (Unit {0})
unfolding invalidate
add entry = if not (valid_filemode entry.mode) then fail (message "invalid filemode") else (do
  modify (λ v. record v { entries = v.entries ++ (entry ∷ []); entries_sorted = false })
  invalidate entry.path)

-- `append(v.Entries[:pos], v.Entries[pos+1:]...)`.
unfoldable pub remove_at : List IndexEntry → (position : ℕ) → List IndexEntry
remove_at entries position = take position entries ++ drop (position + 1) entries

unfoldable pub remove_entry : (position : ℕ) → Action Index (Unit {0})
unfolding invalidate remove_at
remove_entry position = do
  v ← get
  entry ← lift (or_panic (get_elem? v.entries position))
  invalidate entry.path
  modify (λ w. record w {
    entries = remove_at w.entries position;
    deleted = if ltb 0 w.readers then w.deleted ++ (entry ∷ []) else w.deleted;
  })

-- `v.reuc[index] = reuc`: the -1 that reucAdd appends on is never found.
unfoldable pub reuc_add : IndexReucEntry → Action Index (Unit {0})
unfolding reuc_find
reuc_add reuc v =
    if ltb (reuc_find v reuc.path) (length v.reuc)
    then (record v { reuc = set v.reuc (reuc_find v reuc.path) reuc }, ok tt)
    else (v, panic)

-- A mode of a conflict, 0 where the entry is nil, and its id.
unfoldable pub mode_of : Option IndexEntry → ℕ
mode_of none = 0
mode_of (some entry) = entry.mode

unfoldable pub id_of : Option IndexEntry → Option Oid
id_of none = none
id_of (some entry) = entry.id

-- RemoveConflict, which is still to be written, does nothing.
unfoldable pub remove_conflict : (path : List ℕ) → Action Index (Unit {0})
remove_conflict path v = (v, ok tt)

-- `if err != nil && IsErrorCode(err, ErrNotFound) { return err }`.
unfoldable pub unless_other :
    Index × Outcome GitError (Unit {0}) → Index × Outcome GitError (Unit {0})
unfolding is_error_code
unless_other (v, err e) = if is_error_code e not_found then (v, err e) else (v, ok tt)
unless_other (v, ok a) = (v, ok a)
unless_other (v, panic) = (v, panic)
unless_other (v, stuck) = (v, stuck)

module _ (bsearch : Bsearch) where
  unfoldable pub remove : (path : List ℕ) (s : ℕ) → Action Index (Unit {0})
  unfolding sort_and_find_in_entries remove_entry
  remove path s = do
    found ← (λ v. sort_and_find_in_entries bsearch v path s)
    position ← lift (or_error found (git_error not_found))
    remove_entry position

  unfoldable pub conflict_to_reuc : (path : List ℕ) → Action Index (Unit {0})
  unfolding get_conflict mode_of id_of reuc_add remove_conflict
  conflict_to_reuc path = do
    v ← get
    conflict ← lift (get_conflict bsearch v path)
    reuc_add (record {
      mode = mode_of conflict.ancestor ∷ mode_of conflict.our ∷ mode_of conflict.their ∷ [];
      oid = id_of conflict.ancestor ∷ id_of conflict.our ∷ id_of conflict.their ∷ [];
      path = path;
    })
    remove_conflict path

  unfoldable pub remove_by_path : (path : List ℕ) → Action Index (Unit {0})
  unfolding unless_other remove conflict_to_reuc
  remove_by_path path = do
    tt ← (λ v. unless_other (remove path 0 v))
    λ v. unless_other (conflict_to_reuc path v)

  -- AddByPath. An index without an owner makes an error and drops it; `create_blob` is
  -- createBlobCreateFromPaths of the owner, which can be nil.
  unfoldable pub add_by_path :
      (create_blob : Option Config → List ℕ → Outcome GitError Oid)
      → (path : List ℕ) → Action Index (Unit {0})
  unfolding owner blank_entry conflict_to_reuc invalidate
  add_by_path create_blob path = do
    v ← get
    oid ← lift (create_blob (owner v) path)
    modify (λ w. record w {
      entries = w.entries ++ (blank_entry 0 oid path ∷ []);
      entries_sorted = false;
    })
    conflict_to_reuc path
    invalidate path

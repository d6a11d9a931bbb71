-- ===== src/Index/Conflicts.antt =====
-- The conflicts of index.go: the entries of one path at the stages 1 to 3.
use git4go.Common.{
  ℕ, ◌+◌, Bool, true, false, not, ◌&&◌, Option, none, some, List, [], ◌∷◌, leb, ◌==◌, if◌then◌else◌,
  length, drop, Outcome, ◌>>=◌, ok, err, panic, stuck, GitError, or_error, not_found, iter_over,
  git_error, bytes_equal,
}
use git4go.Index.Entry.{stage_ancestor, stage_ours, stage_theirs, IndexEntry, stage, is_conflict}
use git4go.Index.Store.{Index}
use git4go.Index.Search.{Bsearch, find}

pub record IndexConflict : Type 0 where
  pub ancestor : Option IndexEntry
  pub our : Option IndexEntry
  pub their : Option IndexEntry

abbrev pub no_conflict : IndexConflict
no_conflict = record { ancestor = none; our = none; their = none }

-- The switch of getConflictByIndex, with the count of the entries taken.
unfoldable pub add_stage : IndexEntry → IndexConflict × ℕ → IndexConflict × ℕ
unfolding stage
add_stage entry (result, n) =
    if stage entry == stage_ancestor
    then (record result { ancestor = some entry }, n + 1)
    else if stage entry == stage_ours
    then (record result { our = some entry }, n + 1)
    else if stage entry == stage_theirs
    then (record result { their = some entry }, n + 1)
    else (result, n)

-- `path != "" && entry.Path != path`.
unfoldable pub other_path : (path entry_path : List ℕ) → Bool
unfolding bytes_equal
other_path path entry_path = not (bytes_equal path []) && not (bytes_equal entry_path path)

unfoldable pub conflict_loop :
    (path : List ℕ) → List IndexEntry → IndexConflict × ℕ → IndexConflict × ℕ
unfolding other_path add_stage
conflict_loop path [] result = result
conflict_loop path (entry ∷ entries) result =
    let more = conflict_loop entry.path entries (add_stage entry result) in
    if other_path path entry.path then result else more

-- `v.Entries[pos:]` may be empty.
unfoldable pub get_conflict_by_index : Index → (position : ℕ) → Outcome GitError (IndexConflict × ℕ)
unfolding conflict_loop
get_conflict_by_index v position =
    if leb position (length v.entries)
    then ok (conflict_loop [] (drop position v.entries) (no_conflict, 0))
    else panic

-- GetConflict. The length of a conflict is never negative.
unfoldable pub get_conflict : Bsearch → Index → (path : List ℕ) → Outcome GitError IndexConflict
unfolding find get_conflict_by_index
get_conflict bsearch v path = do
  index ← find bsearch v path
  position ← or_error index (git_error not_found)
  (conflict, n) ← get_conflict_by_index v position
  ok conflict

-- The test of HasConflicts on the entries.
unfoldable pub all_at_stage_0 : List IndexEntry → Bool
unfolding stage
all_at_stage_0 [] = true
all_at_stage_0 (entry ∷ entries) =
    let rest = all_at_stage_0 entries in if stage entry == 0 then rest else false

unfoldable pub has_conflicts : Index → Bool
unfolding all_at_stage_0
has_conflicts v = all_at_stage_0 v.entries

pub record IndexConflictIterator : Type 0 where
  pub index : Index
  pub cursor : ℕ

unfoldable pub conflict_iterator : Index → IndexConflictIterator
conflict_iterator v = record { index = v; cursor = 0 }

-- `v.cursor += length`.
unfoldable pub advance :
    (cursor : ℕ) → Outcome GitError (IndexConflict × ℕ) → ℕ × Outcome GitError IndexConflict
advance cursor (ok (conflict, n)) = (cursor + n, ok conflict)
advance cursor (err e) = (cursor, err e)
advance cursor panic = (cursor, panic)
advance cursor stuck = (cursor, stuck)

-- The loop of Next, with the entries from the cursor on.
unfoldable pub next_loop :
    Index → (cursor : ℕ) → List IndexEntry → ℕ × Outcome GitError IndexConflict
unfolding is_conflict get_conflict_by_index advance
next_loop v cursor [] = (cursor, err (git_error iter_over))
next_loop v cursor (entry ∷ entries) =
    let more = next_loop v (cursor + 1) entries in
    if is_conflict entry then advance cursor (get_conflict_by_index v cursor) else more

-- The iterator with its new cursor.
unfoldable pub next : IndexConflictIterator → IndexConflictIterator × Outcome GitError IndexConflict
unfolding next_loop
next iter =
    let (cursor, result) = next_loop iter.index iter.cursor (drop iter.cursor iter.index.entries) in
    (record iter { cursor = cursor }, result)

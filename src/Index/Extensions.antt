-- ===== src/Index/Extensions.antt =====
-- One entry of each list that follows the entries in an index file: readReuc and readConflictNames of
-- index.go. The size that these count down is the distance to the end of the extension.
use git4go.Common.{
  ℕ, zero, suc, ◌+◌, ◌-◌, Option, none, some, List, [], ◌∷◌, ltb, ◌==◌, if◌then◌else◌, take, drop,
  Outcome, ◌>>=◌, ok, err, GitError, or_error, message, or_panic,
}
use git4go.Oid.{Oid, new_oid_from_bytes, oid_raw_size}
use git4go.Util.{find_char, read_string}
use git4go.TreeCache.{number_at}
use git4go.Index.Entry.{IndexNameEntry, IndexReucEntry}

abbrev reading_stage : GitError
reading_stage = message "reading reuc entry stage"

-- The modes of the stages that are left, with the offset behind them.
unfoldable pub read_modes :
    (count : ℕ) (buffer : List ℕ) (offset end : ℕ) → Outcome GitError (List ℕ × ℕ)
unfolding number_at
read_modes zero buffer offset end = ok ([], offset)
read_modes (suc count) buffer offset end = do
  let (number, next_offset) = number_at buffer offset end 8
  tmp ← or_error number reading_stage
  if ltb 0xffffffff tmp
      then err reading_stage
      else (do (modes, behind) ← read_modes count buffer next_offset end; ok (tmp ∷ modes, behind))

-- The id of each stage whose mode is not 0.
unfoldable pub read_oids :
    (modes : List ℕ) (buffer : List ℕ) (offset end : ℕ) → Outcome GitError (List (Option Oid) × ℕ)
unfolding new_oid_from_bytes
read_oids [] buffer offset end = ok ([], offset)
read_oids (mode ∷ modes) buffer offset end =
    if mode == 0
    then (do (oids, behind) ← read_oids modes buffer offset end; ok (none ∷ oids, behind))
    else if ltb (end - offset) 20
    then err (message "reading reuc entry oid")
    else (do
      oid ← new_oid_from_bytes (take oid_raw_size (drop offset buffer)) []
      (oids, behind) ← read_oids modes buffer (offset + 20) end
      ok (some oid ∷ oids, behind))

-- A round of readReuc. A path that no 0 ends is sliced up to -1.
unfoldable pub read_reuc_entry :
    (buffer : List ℕ) (offset end : ℕ) → Outcome GitError (IndexReucEntry × ℕ)
unfolding find_char read_modes read_oids
read_reuc_entry buffer offset end = do
  found ← find_char buffer 0 offset end
  path_end ← or_panic found
  (modes, behind_modes) ← read_modes 3 buffer (path_end + 1) end
  (oids, behind) ← read_oids modes buffer behind_modes end
  ok (
    record { mode = modes; oid = oids; path = take (path_end - offset) (drop offset buffer) },
    behind,
  )

abbrev reading_names : GitError
reading_names = message "reading conflict name entries"

-- A round of readConflictNames.
unfoldable pub read_name_entry :
    (buffer : List ℕ) (offset end : ℕ) → Outcome GitError (IndexNameEntry × ℕ)
unfolding read_string
read_name_entry buffer offset end = do
  first ← read_string buffer offset end
  (ancestor, behind_ancestor) ← or_error first reading_names
  second ← read_string buffer behind_ancestor end
  (ours, behind_ours) ← or_error second reading_names
  third ← read_string buffer behind_ours end
  (theirs, behind) ← or_error third reading_names
  ok (record { ancestor = ancestor; ours = ours; theirs = theirs }, behind)

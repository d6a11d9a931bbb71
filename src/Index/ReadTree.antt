-- ===== src/Index/ReadTree.antt =====
-- ReadTree of index.go: the entries of a tree in place of the index's.
use git4go.Common.{
  ℕ, ◌%◌, ◌^◌, bit_and, Option, none, some, List, [], ◌∷◌, ltb, ◌==◌, if◌then◌else◌, length,
  get_elem?, Outcome, ◌>>=◌, ok, err, panic, stuck, GitError, or_panic,
}
use git4go.Common.Sorting.{sort_by}
use git4go.Oid.{Oid, equal}
use git4go.Tree.Entries.{TreeEntry, object_tree}
use git4go.Index.Entry.{index_entry_name_mask, IndexEntry, blank_entry}
use git4go.Index.Order.{entry_less, entry_less_folded}
use git4go.Index.Store.{Index, sort_entries_if_needed}
use git4go.Index.Search.{Bsearch, find_in_entries}

-- What ReadTree takes over from an old entry with the same mode and id. An old id that is nil has no
-- bytes to compare.
unfoldable pub take_over : (old entry : IndexEntry) (id : Oid) → Outcome GitError IndexEntry
unfolding equal
take_over old entry id =
    if old.mode == entry.mode
    then (do
      old_id ← or_panic old.id
      ok (
          if equal old_id id
          then record entry {
            ctime = old.ctime;
            mtime = old.mtime;
            uid = old.uid;
            gid = old.gid;
            size = old.size;
            flags_extended = 0;
          }
          else entry))
    else ok entry

-- The entry as the old one with its path completes it.
unfoldable pub old_entry :
    List IndexEntry → IndexEntry → Oid → Option ℕ → Outcome GitError IndexEntry
unfolding take_over
old_entry entries entry id none = ok entry
old_entry entries entry id (some position) = do
  old ← or_panic (get_elem? entries position)
  take_over old entry id

-- The length of the path, as far as twelve bits hold it.
unfoldable pub path_flags : (path : List ℕ) → ℕ
path_flags path =
    if ltb (length path) index_entry_name_mask
    then bit_and (length path % 2 ^ 16) index_entry_name_mask
    else index_entry_name_mask

-- `v.Entries = newEntries`, sorted.
unfoldable pub replace_entries :
    Index → Outcome GitError (List IndexEntry) → Index × Outcome GitError (Unit {0})
unfolding sort_by entry_less entry_less_folded
replace_entries w (ok entries) = (
  record w { entries = sort_by (if w.ignore_case then entry_less_folded else entry_less) entries },
  ok tt,
)
replace_entries w (err e) = (w, err e)
replace_entries w panic = (w, panic)
replace_entries w stuck = (w, stuck)

module _ (bsearch : Bsearch) where
  -- The callback of ReadTree on an entry that is no tree, with its joined path.
  unfoldable pub tree_index_entry :
      Index → (path : List ℕ) → TreeEntry → Outcome GitError IndexEntry
  unfolding find_in_entries old_entry path_flags blank_entry
  tree_index_entry v path tree_entry = do
    found ← find_in_entries bsearch v v.entries path 0
    entry ←
        old_entry v.entries (blank_entry tree_entry.filemode tree_entry.id path) tree_entry.id found
    ok (record entry { flags = path_flags path })

  -- The callback on each of the entries that WalkPost visits, with the root of each. `join` is
  -- filepath.Join.
  unfoldable pub collect_entries :
      (join : List ℕ → List ℕ → List ℕ)
      → Index
      → List (List ℕ × TreeEntry)
      → Outcome GitError (List IndexEntry)
  unfolding tree_index_entry
  collect_entries join v [] = ok []
  collect_entries join v ((root, tree_entry) ∷ visited) = elim tree_entry.object_type [
    | object_tree ↦ collect_entries join v visited
    | _ ↦ (do
      entry ← tree_index_entry v (join root tree_entry.name) tree_entry
      entries ← collect_entries join v visited
      ok (entry ∷ entries))
  ]

  -- `visited` is what WalkPost visits, or its error. The entries are sorted before, and replaced by
  -- the new ones in order.
  unfoldable pub read_tree :
      (join : List ℕ → List ℕ → List ℕ)
      → Index
      → (visited : Outcome GitError (List (List ℕ × TreeEntry)))
      → Index × Outcome GitError (Unit {0})
  unfolding sort_entries_if_needed collect_entries replace_entries
  read_tree join v visited =
      let sorted = sort_entries_if_needed v v.ignore_case in
      replace_entries sorted (do vs ← visited; collect_entries join sorted vs)

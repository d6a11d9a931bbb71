-- ===== src/Tree/Builder.antt =====
-- tree_builder.go: a map from names to entries, and the tree object that Write makes of it.
pub mod MapLaws
pub mod RoundTrip
pub mod Sorting
pub mod Operations
pub mod Edits
use git4go.Common.{
  [], ℕ, Ordering, Bool, true, false, not, Option, none, some, List, ◌∷◌, ◌++◌, if◌then◌else◌,
  Outcome, ◌>>=◌, ok, err, GitError, message, bytes_compare, bytes_equal,
}
use git4go.Oid.{Oid}
use git4go.Tree.Number.Octal.{octal}
use git4go.Tree.Entries.{ObjectType, object_tree, TreeEntry, attr2o_type}

-- The map as its pairs, each name once, in the order in which the range of Write meets them.
abbrev pub EntryMap : Type 0
EntryMap = List (List ℕ × TreeEntry)

-- Repository.TreeBuilder: no entry.
abbrev pub tree_builder : EntryMap
tree_builder = []

unfoldable pub map_set : EntryMap → List ℕ → TreeEntry → EntryMap
unfolding bytes_equal
map_set [] key entry = (key, entry) ∷ []
map_set ((k, e) ∷ entries) key entry =
    let rest = map_set entries key entry in
    if bytes_equal k key then (key, entry) ∷ entries else (k, e) ∷ rest

unfoldable pub map_delete : EntryMap → List ℕ → EntryMap
unfolding bytes_equal
map_delete [] key = []
map_delete ((k, e) ∷ entries) key =
    let rest = map_delete entries key in if bytes_equal k key then entries else (k, e) ∷ rest

-- An id that is nil is none.
unfoldable pub insert : EntryMap → List ℕ → Option Oid → ℕ → Outcome GitError EntryMap
unfolding map_set attr2o_type
insert b filename none filemode = err (message "oid should not be nil")
insert b filename (some oid) filemode = ok (
    map_set b filename (record {
      name = filename;
      id = oid;
      object_type = attr2o_type filemode;
      filemode = filemode;
    }))

unfoldable pub remove : EntryMap → List ℕ → EntryMap
unfolding map_delete
remove b filename = map_delete b filename

-- TreeEntries.Less.
unfoldable pub less : TreeEntry → TreeEntry → Bool
unfolding bytes_compare
less p q = elim (bytes_compare p.name q.name) [ Ordering.lt ↦ true | _ ↦ false ]

-- sort.Sort on the entries, by insertion: names in a map differ, so the order has no choice.
unfoldable pub insert_sorted : TreeEntry → List TreeEntry → List TreeEntry
unfolding less
insert_sorted e [] = e ∷ []
insert_sorted e (x ∷ xs) =
    let rest = insert_sorted e xs in if less x e then x ∷ rest else e ∷ (x ∷ xs)

unfoldable pub sort_entries : List TreeEntry → List TreeEntry
unfolding insert_sorted
sort_entries [] = []
sort_entries (e ∷ entries) = insert_sorted e (sort_entries entries)

-- `"%o %s"`, a 0 and the id.
unfoldable pub encode_entry : TreeEntry → List ℕ
unfolding octal
encode_entry entry = octal entry.filemode ++ (32 ∷ (entry.name ++ (0 ∷ entry.id)))

unfoldable pub encode_entries : List TreeEntry → List ℕ
unfolding encode_entry
encode_entries [] = []
encode_entries (entry ∷ entries) = encode_entry entry ++ encode_entries entries

unfoldable pub map_entries : EntryMap → List TreeEntry
map_entries [] = []
map_entries ((k, e) ∷ entries) = e ∷ map_entries entries

-- Write, with the outcome of the repository's Odb and the Write of that database as parameters.
unfoldable pub write :
    Outcome GitError (List ℕ → ObjectType → Outcome GitError Oid) → EntryMap → Outcome GitError Oid
unfolding sort_entries encode_entries map_entries
write odb b = do
  odb_write ← odb
  odb_write (encode_entries (sort_entries (map_entries b))) object_tree

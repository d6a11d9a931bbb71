-- ===== src/Tree/Builder/Operations.antt =====
-- Insert, Remove and Write of tree_builder.go against the entries that are read back.
use git4go.Common.{
  ℕ, ◌<◌, ◌≡◌, refl, ◌∙◌, true, none, some, List, if◌then◌else◌, length, All, Outcome, ok, GitError,
  bytes_equal,
}
use git4go.Oid.{Oid}
use git4go.Tree.Entries.{
  ObjectType, object_tree, TreeEntry, attr2o_type, valid_filemode, entry_by_name, new_tree,
}
use git4go.Tree.Builder.{
  EntryMap, map_set, insert, remove, sort_entries, encode_entries, map_entries, write,
}
use git4go.Tree.Builder.RoundTrip.{IsEntry, new_tree-encode_entries}
use git4go.Tree.Builder.Sorting.{sort_entries-All, entry_by_name-sort_entries}
use git4go.Tree.Builder.MapLaws.{
  IsBuilder, map_set-All, map_delete-All, map_set-Distinct, map_delete-Distinct, map_get,
  map_get-map_set, map_get-map_delete, entry_by_name-map_entries, map_entries-All,
}

-- On a builder's map in which each entry stands under its name, each name once, and all names are not
-- empty and have no byte 0, all ids have 20 bytes, and all modes are among the five, with the type that
-- belongs to the mode: Write hands the database bytes as a tree, and newTree reads from them, whatever
-- stands behind them in the array, entries of which EntryByName finds exactly what the map holds under
-- each name.
pub write-new_tree :
    (put : List ℕ → ObjectType → Outcome GitError Oid) (b : EntryMap) (spare : List ℕ)
    → IsBuilder b
    → (bytes : List ℕ) × (entries : List TreeEntry) × (write (ok put) b ≡ put bytes object_tree)
      × (new_tree (record { elems = bytes; spare = spare }) ≡ ok entries)
      × ((n : List ℕ) → entry_by_name entries n ≡ map_get b n)
unfolding write
write-new_tree put b spare v = (
  encode_entries (sort_entries (map_entries b)),
  sort_entries (map_entries b),
  refl,
  new_tree-encode_entries _ spare
      (sort_entries-All IsEntry _ (map_entries-All IsEntry b v.entries)),
  λ n. entry_by_name-sort_entries (map_entries b) n ∙ entry_by_name-map_entries b n v.keyed,
)

-- Insert of a name that is not empty and has no byte 0, of an id and of one of the five modes keeps
-- a builder's map one, in which that name has the new entry and every other its old one.
pub insert-IsBuilder :
    (b : EntryMap) (filename : List ℕ) (oid : Oid) (filemode : ℕ)
    → IsBuilder b
    → 0 < length filename
    → All (λ c. 0 < c) filename
    → length oid ≡ 20
    → valid_filemode filemode ≡ true
    → (b' : EntryMap) × (insert b filename (some oid) filemode ≡ ok b')
      × IsBuilder b'
      × ((n : List ℕ)
          → map_get b' n ≡ (
              if bytes_equal filename n
              then some (record {
                name = filename;
                id = oid;
                object_type = attr2o_type filemode;
                filemode = filemode;
              })
              else map_get b n))
unfolding insert
insert-IsBuilder b filename oid filemode v named no_zero whole mode = (
  map_set b filename entry,
  refl,
  record {
    keyed = map_set-All (λ p. p.1.name ≡ p.0) b filename entry refl v.keyed;
    distinct = map_set-Distinct b filename entry v.distinct;
    entries =
        map_set-All (λ p. IsEntry p.1) b filename entry
          (record {
            named = named;
            no_zero = no_zero;
            whole_id = whole;
            of_mode = mode;
            of_type = refl;
          })
          v.entries;
  },
  map_get-map_set b filename entry,
)
  where
    entry : TreeEntry
    entry = record {
      name = filename;
      id = oid;
      object_type = attr2o_type filemode;
      filemode = filemode;
    }

-- Remove keeps a builder's map one, in which that name has no entry and every other its old one.
pub remove-IsBuilder :
    (b : EntryMap) (filename : List ℕ)
    → IsBuilder b
    → IsBuilder (remove b filename)
      × ((n : List ℕ)
          → map_get (remove b filename) n ≡ (if bytes_equal filename n then none else map_get b n))
unfolding remove
remove-IsBuilder b filename v = (
  record {
    keyed = map_delete-All (λ p. p.1.name ≡ p.0) b filename v.keyed;
    distinct = map_delete-Distinct b filename v.distinct;
    entries = map_delete-All (λ p. IsEntry p.1) b filename v.entries;
  },
  λ n. map_get-map_delete b filename n v.distinct,
)

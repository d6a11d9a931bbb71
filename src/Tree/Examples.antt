-- ===== src/Tree/Examples.antt =====
-- Runs of tree.go and tree_builder.go.
use git4go.Common.{
  ℕ, ◌≡◌, ◌≢◌, refl, none, some, List, [], ◌∷◌, ◌++◌, arith, if◌then◌else◌, replicate, Outcome, ok,
  err, panic, codes, GitError, message, bytes_equal,
}
use git4go.Oid.{Oid}
use git4go.Tree.Number.Octal.{octal}
use git4go.Tree.Entries.{
  filemode_tree, filemode_blob, filemode_link, ObjectType, TreeEntry, attr2o_type, valid_filemode,
  new_tree, entry_by_name, object_tree, object_blob,
}
use git4go.Tree.Builder.{tree_builder, EntryMap, insert, sort_entries, map_entries, write}
use git4go.Tree.Builder.RoundTrip.{IsEntry}
use git4go.Tree.Builder.Operations.{write-new_tree, insert-IsBuilder}
use git4go.Tree.Builder.Edits.{Edit, inserted, removed, perform, left_by, write-left_by}
use git4go.Tree.Builder.MapLaws.{IsBuilder, map_get}

abbrev an_id : Oid
an_id = replicate 20 0xab

abbrev readme : TreeEntry
readme = record {
  name = codes "README";
  id = an_id;
  object_type = object_blob;
  filemode = filemode_blob;
}

abbrev docs : TreeEntry
docs = record {
  name = codes "docs";
  id = an_id;
  object_type = object_tree;
  filemode = filemode_tree;
}

readme-IsEntry : IsEntry readme
readme-IsEntry = record {
  named = omega arith;
  no_zero =
      (omega arith, (omega arith, (omega arith, (omega arith, (omega arith, (omega arith, tt))))));
  whole_id = refl;
  of_mode = unfold valid_filemode in refl;
  of_type = unfold attr2o_type in refl;
}

docs-IsEntry : IsEntry docs
docs-IsEntry = record {
  named = omega arith;
  no_zero = (omega arith, (omega arith, (omega arith, (omega arith, tt))));
  whole_id = refl;
  of_mode = unfold valid_filemode in refl;
  of_type = unfold attr2o_type in refl;
}

abbrev small_map : EntryMap
small_map = (codes "docs", docs) ∷ (codes "README", readme) ∷ []

small_map-IsBuilder : IsBuilder small_map
small_map-IsBuilder = record {
  keyed = (refl, (refl, tt));
  distinct = ((unfold bytes_equal in refl, tt), (tt, tt));
  entries = (docs-IsEntry, (readme-IsEntry, tt));
}

-- Tests.
octal_run : octal filemode_blob ≡ codes "100644"
unfolding octal
octal_run = refl

sorted_run : map_entries small_map ≡ docs ∷ readme ∷ []
unfolding map_entries
sorted_run = refl

capitals_first : sort_entries (docs ∷ readme ∷ []) ≡ readme ∷ docs ∷ []
unfolding sort_entries
capitals_first = refl

no_space_run :
    new_tree (record { elems = codes "100644"; spare = [] })
    ≡ err (message "Tree parse error: attribute")
unfolding new_tree
no_space_run = refl

short_id_run : new_tree (record { elems = codes "100644 a" ++ (0 ∷ 1 ∷ []); spare = [] }) ≡ panic
unfolding new_tree
short_id_run = refl

abbrev put_first : List ℕ → ObjectType → Outcome GitError Oid
put_first bytes type = ok an_id

write-new_tree_example :
    (bytes : List ℕ) × (entries : List TreeEntry) × (write (ok put_first) small_map
      ≡ put_first bytes object_tree)
    × (new_tree (record { elems = bytes; spare = 7 ∷ [] }) ≡ ok entries)
    × ((n : List ℕ) → entry_by_name entries n ≡ map_get small_map n)
write-new_tree_example = write-new_tree put_first small_map (7 ∷ []) small_map-IsBuilder

insert-IsBuilder_example :
    (b' : EntryMap) × (insert small_map (codes "a") (some an_id) filemode_link ≡ ok b')
    × IsBuilder b'
    × ((n : List ℕ)
        → map_get b' n ≡ (
            if bytes_equal (codes "a") n
            then some (record {
              name = codes "a";
              id = an_id;
              object_type = attr2o_type filemode_link;
              filemode = filemode_link;
            })
            else map_get small_map n))
insert-IsBuilder_example =
    insert-IsBuilder small_map (codes "a") an_id filemode_link small_map-IsBuilder (omega arith)
      (omega arith, tt) refl (unfold valid_filemode in refl)

abbrev edits : List Edit
edits =
    inserted (codes "a") an_id filemode_link
    ∷ (removed (codes "b")
        ∷ (inserted (codes "b") an_id filemode_blob ∷ (removed (codes "a") ∷ [])))

write-left_by_example :
    (b : EntryMap) × (bytes : List ℕ) × (entries : List TreeEntry) × (perform tree_builder edits
      ≡ ok b)
    × (write (ok put_first) b ≡ put_first bytes object_tree)
    × (new_tree (record { elems = bytes; spare = 7 ∷ [] }) ≡ ok entries)
    × ((n : List ℕ) → entry_by_name entries n ≡ left_by n none edits)
write-left_by_example = write-left_by put_first edits (7 ∷ []) (
  (omega arith, (omega arith, tt), refl, unfold valid_filemode in refl),
  (tt, ((omega arith, (omega arith, tt), refl, unfold valid_filemode in refl), (tt, tt))),
)

-- The name that was removed last is not there, the other one is a blob.
left_by_run : (left_by (codes "a") none edits ≡ none) × (left_by (codes "b") none edits ≢ none)
unfolding bytes_equal
left_by_run = (refl, λ h. cc)

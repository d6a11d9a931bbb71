-- ===== src/Tree/Builder/Edits.antt =====
-- A whole life of a builder of tree_builder.go: calls of Insert and Remove one after the other, then
-- Write, and newTree on what was written.
use git4go.Common.{
  ℕ, ◌<◌, ◌≡◌, refl, ◌∙◌, true, Option, none, some, List, [], ◌∷◌, if◌then◌else◌, length, All,
  Outcome, ok, ◌>>=◌, GitError, bytes_equal, ap,
}
use git4go.Oid.{Oid}
use git4go.Tree.Entries.{
  ObjectType, object_tree, TreeEntry, attr2o_type, valid_filemode, entry_by_name, new_tree,
}
use git4go.Tree.Builder.{EntryMap, tree_builder, insert, remove, write}
use git4go.Tree.Builder.MapLaws.{IsBuilder, map_get, map_get-tree_builder}
use git4go.Tree.Builder.Operations.{write-new_tree, insert-IsBuilder, remove-IsBuilder}

pub data Edit : Type 0 where
  inserted : (filename : List ℕ) (oid : Oid) (filemode : ℕ) → Edit
  removed : (filename : List ℕ) → Edit

-- A name that is not empty and has no byte 0, an id of 20 bytes and one of the five modes are inserted.
abbrev pub IsEdit : Edit → Type 0
IsEdit (inserted filename oid filemode) =
    (0 < length filename)
    × All (λ c. 0 < c) filename
    × (length oid ≡ 20)
    × (valid_filemode filemode ≡ true)
IsEdit (removed filename) = Unit {0}

-- The calls.
abbrev pub perform : EntryMap → List Edit → Outcome GitError EntryMap
perform b [] = ok b
perform b (inserted filename oid filemode ∷ edits) =
    insert b filename (some oid) filemode >>= (λ b'. perform b' edits)
perform b (removed filename ∷ edits) = perform (remove b filename) edits

-- What the last edit of a name leaves under it, where `found` stood under it before.
abbrev pub left_by : (n : List ℕ) (found : Option TreeEntry) → List Edit → Option TreeEntry
left_by n found [] = found
left_by n found (inserted filename oid filemode ∷ edits) =
    left_by n
      (if bytes_equal filename n
        then some (record {
          name = filename;
          id = oid;
          object_type = attr2o_type filemode;
          filemode = filemode;
        })
        else found)
      edits
left_by n found (removed filename ∷ edits) =
    left_by n (if bytes_equal filename n then none else found) edits

perform-IsBuilder :
    (b : EntryMap) (edits : List Edit)
    → IsBuilder b
    → All IsEdit edits
    → (b' : EntryMap) × (perform b edits ≡ ok b')
      × IsBuilder b'
      × ((n : List ℕ) → map_get b' n ≡ left_by n (map_get b n) edits)
perform-IsBuilder b [] v h = (b, refl, v, λ n. refl)
perform-IsBuilder b (inserted filename oid filemode ∷ edits) v h =
    let (named, no_zero, whole, mode) = h.0 in
    let (b', done, v', now) = insert-IsBuilder b filename oid filemode v named no_zero whole mode in
    let (c, rest, w, held) = perform-IsBuilder b' edits v' h.1 in
    (c, rw done rest, w, λ n. held n ∙ ap (λ found. left_by n found edits) (now n))
perform-IsBuilder b (removed filename ∷ edits) v h =
    let (v', now) = remove-IsBuilder b filename v in
    let (c, rest, w, held) = perform-IsBuilder (remove b filename) edits v' h.1 in
    (c, rest, w, λ n. held n ∙ ap (λ found. left_by n found edits) (now n))

-- Inserts of names that are not empty and have no byte 0, with ids of 20 bytes and modes among the five,
-- and removals, in any number and order, on a new builder: all succeed, Write hands the database bytes
-- as a tree, and from these, whatever stands behind them in the array, newTree reads entries of which
-- EntryByName finds under each name the entry of the last insert, or nothing where the name was removed
-- afterwards or never inserted.
pub write-left_by :
    (put : List ℕ → ObjectType → Outcome GitError Oid) (edits : List Edit) (spare : List ℕ)
    → All IsEdit edits
    → (b : EntryMap) × (bytes : List ℕ) × (entries : List TreeEntry) × (perform tree_builder edits
        ≡ ok b)
      × (write (ok put) b ≡ put bytes object_tree)
      × (new_tree (record { elems = bytes; spare = spare }) ≡ ok entries)
      × ((n : List ℕ) → entry_by_name entries n ≡ left_by n none edits)
write-left_by put edits spare h =
    let (b, done, v, held) =
      perform-IsBuilder tree_builder edits (record { keyed = tt; distinct = tt; entries = tt }) h in
    let (bytes, entries, written, read, found) = write-new_tree put b spare v in
    (
      b,
      bytes,
      entries,
      done,
      written,
      read,
      λ n. found n ∙ held n ∙ ap (λ first. left_by n first edits) (map_get-tree_builder n),
    )

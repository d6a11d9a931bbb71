-- ===== src/Tree/Entries.antt =====
-- The entries of tree.go: newTree, the modes, and the search by name.
use git4go.Common.{
  [], ◌||◌, ℕ, zero, suc, ◌%◌, ◌^◌, bit_and, Bool, not, Option, none, some, List, ◌∷◌, ◌++◌, ◌==◌,
  if◌then◌else◌, length, drop, Outcome, ◌>>=◌, ok, err, stuck, Slice, GitError, or_error, message,
  bytes_equal, or_else,
}
use git4go.Oid.{Oid, new_oid_from_bytes, oid_raw_size}
use git4go.Tree.Number.{strtol32}

-- The numbers of Filemode.
abbrev pub filemode_tree : ℕ
filemode_tree = 0x4000

abbrev pub filemode_blob : ℕ
filemode_blob = 0x81a4

abbrev pub filemode_blob_executable : ℕ
filemode_blob_executable = 0x81ed

abbrev pub filemode_link : ℕ
filemode_link = 0xa000

abbrev pub filemode_commit : ℕ
filemode_commit = 0xe000

-- The types of object.go that an object can have.
pub data ObjectType : Type 0 where
  object_commit object_tree object_blob object_tag : ObjectType

pub record TreeEntry : Type 0 where
  pub name : List ℕ
  pub id : Oid
  pub object_type : ObjectType
  pub filemode : ℕ

unfoldable pub attr2o_type : ℕ → ObjectType
attr2o_type attr =
    if bit_and attr 0xf000 == filemode_commit
    then object_commit
    else if bit_and attr 0xf000 == filemode_tree
    then object_tree
    else object_blob

unfoldable pub attr2_filemode : ℕ → ℕ
attr2_filemode attr =
    if bit_and attr 0xf000 == filemode_tree
    then filemode_tree
    else if not (bit_and attr 0x49 == 0)
    then filemode_blob_executable
    else if bit_and attr 0xf000 == filemode_commit
    then filemode_commit
    else if bit_and attr 0xf000 == filemode_link
    then filemode_link
    else filemode_blob

unfoldable pub valid_filemode : ℕ → Bool
valid_filemode mode =
    mode == filemode_tree
    || (mode == filemode_blob
        || (mode == filemode_blob_executable || (mode == filemode_link || mode == filemode_commit)))

-- The bytes before the first 0 and those behind it, or none where no byte is 0.
unfoldable pub split_zero : (front buffer : List ℕ) → Option (List ℕ × List ℕ)
split_zero front [] = none
split_zero front (c ∷ buffer) =
    let rest = split_zero (front ++ (c ∷ [])) buffer in
    if c == 0 then some (front, buffer) else rest

-- The loop over the name: where no byte is 0, the name and the offset stay as they were.
unfoldable pub read_name : (name contents : List ℕ) → List ℕ × List ℕ
unfolding split_zero
read_name name contents = or_else (split_zero [] contents) (name, contents)

-- The rest of a round behind the attribute.
unfoldable pub read_entry :
    (spare : List ℕ) (attr : ℕ) → List ℕ × List ℕ → Outcome GitError (TreeEntry × List ℕ)
unfolding new_oid_from_bytes attr2o_type attr2_filemode
read_entry spare attr ([], contents) = err (message "Tree parse error: name")
read_entry spare attr (c ∷ name, contents) = do
  oid ← new_oid_from_bytes contents spare
  ok (
    record {
      name = c ∷ name;
      id = oid;
      object_type = attr2o_type attr;
      filemode = attr2_filemode attr;
    },
    drop oid_raw_size contents,
  )

unfoldable pub read_round : (spare name contents : List ℕ) → Outcome GitError (TreeEntry × List ℕ)
unfolding strtol32 read_name read_entry
read_round spare name contents = do
  (attr, contents') ← or_error (strtol32 contents 8) (message "Tree parse error: attribute")
  read_entry spare attr (read_name name contents')

-- The loop of newTree: `contents` are the bytes from rawOffset on, `spare` what the array holds behind
-- them, and `name` the name of the entry before, which a round without a 0 takes over.
unfoldable pub new_tree_loop :
    ℕ → (spare name contents : List ℕ) → Outcome GitError (List TreeEntry)
unfolding read_round
new_tree_loop fuel spare name [] = ok []
new_tree_loop zero spare name (c ∷ contents) = stuck
new_tree_loop (suc fuel) spare name (c ∷ contents) = do
  (entry, contents') ← read_round spare name (c ∷ contents)
  entries ← new_tree_loop fuel spare entry.name contents'
  ok (entry ∷ entries)

-- The entries of a tree object. A round passes over at least one byte.
unfoldable pub new_tree : Slice → Outcome GitError (List TreeEntry)
unfolding new_tree_loop
new_tree contents = new_tree_loop (length contents.elems) contents.spare [] contents.elems

unfoldable pub entry_by_name : List TreeEntry → List ℕ → Option TreeEntry
unfolding bytes_equal
entry_by_name [] filename = none
entry_by_name (entry ∷ entries) filename =
    let rest = entry_by_name entries filename in
    if bytes_equal entry.name filename then some entry else rest

unfoldable pub entry_count : List TreeEntry → ℕ
entry_count entries = length entries % 2 ^ 64

-- ===== src/RefDb.antt =====
-- RefDb.go: the packed references, which are read from one file, and the reference under a name.
-- The items of the cache and its map point to the same values, so the map is the search among the
-- items by their names. The locks are left out.
pub mod Lines
pub mod Packed
mod Examples
use git4go.Common.{
  ℕ, zero, suc, ◌+◌, ◌-◌, Bool, true, false, not, ◌&&◌, ◌||◌, Option, none, some, List, [], ◌∷◌,
  ◌++◌, ltb, leb, ◌==◌, if◌then◌else◌, length, take, drop, Outcome, ◌>>=◌, ok, err, panic, stuck,
  GitError, message, codes, bytes_equal,
}
use git4go.Oid.{Oid, new_oid}

pub data ReferenceType : Type 0 where
  reference_oid reference_symbolic : ReferenceType

-- A reference, less the repository that it belongs to.
pub record Reference : Type 0 where
  pub ref_type : ReferenceType
  pub target_symbolic : List ℕ
  pub target_oid : Option Oid
  pub name : List ℕ

pub record PackRef : Type 0 where
  pub oid : Option Oid
  pub peel : Option Oid
  pub flag : ℕ
  pub name : List ℕ

-- The item of a name, as cacheMap has it.
unfoldable pub cached : List PackRef → List ℕ → Option PackRef
unfolding bytes_equal
cached [] key = none
cached (item ∷ items) key =
    let rest = cached items key in if bytes_equal item.name key then some item else rest

-- The cut of white space, on ASCII.
unfoldable pub is_space : ℕ → Bool
is_space c = c == 32 || leb 9 c && leb c 13

unfoldable pub trim_left : List ℕ → List ℕ
unfolding is_space
trim_left [] = []
trim_left (c ∷ s) = let rest = trim_left s in if is_space c then rest else c ∷ s

unfoldable pub trim_right : List ℕ → List ℕ
unfolding is_space
trim_right [] = []
trim_right (c ∷ s) =
    let rest = trim_right s in if length rest == 0 && is_space c then [] else c ∷ rest

unfoldable pub trim_space : List ℕ → List ℕ
unfolding trim_left trim_right
trim_space s = trim_right (trim_left s)

abbrev pub git_symbol_reference : List ℕ
git_symbol_reference = codes "ref: "

-- A reference to an id.
unfoldable pub oid_reference : Option Oid → (name : List ℕ) → Reference
oid_reference oid name = record {
  ref_type = reference_oid;
  target_symbolic = [];
  target_oid = oid;
  name = name;
}

-- What a file under the name holds. A symbolic reference does not get the name.
unfoldable pub loose_reference : (ref_file name : List ℕ) → Outcome GitError Reference
unfolding bytes_equal trim_space oid_reference
loose_reference ref_file name =
    if bytes_equal (take (length git_symbol_reference) ref_file) git_symbol_reference
    then ok (record {
      ref_type = reference_symbolic;
      target_symbolic = trim_space (drop (length git_symbol_reference) ref_file);
      target_oid = none;
      name = [];
    })
    else (do oid ← new_oid (trim_space ref_file); ok (oid_reference (some oid) name))

unfoldable pub packed_reference : Option PackRef → (name : List ℕ) → Outcome GitError Reference
unfolding oid_reference
packed_reference none name = err (message "not found")
packed_reference (some item) name = ok (oid_reference item.oid name)

-- Lookup. `read_file` is ReadFile under the database's path, none for an error.
unfoldable pub lookup :
    (read_file : List ℕ → Option (List ℕ)) (items : List PackRef) (name : List ℕ)
    → Outcome GitError Reference
unfolding cached loose_reference packed_reference
lookup read_file items name = elim (read_file name) [
  | some ref_file ↦ loose_reference ref_file name
  | none ↦ packed_reference (cached items name) name
]

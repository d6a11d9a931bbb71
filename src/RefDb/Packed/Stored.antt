-- ===== src/RefDb/Packed/Stored.antt =====
-- The items of RefDb.go's cache after references have been put into it.
use git4go.Common.{
  ℕ, ◌≡◌, refl, sym, ap, false, inl, inr, Bool-cases, Option, none, some, List, [], ◌∷◌,
  if◌then◌else◌, Outcome, ok, err, GitError, message, bytes_equal, bytes_equal_self,
  bytes_equal_sound, subst,
}
use git4go.Oid.{Oid}
use git4go.RefDb.{Reference, PackRef, cached, oid_reference, packed_reference}
use git4go.RefDb.Packed.{upsert}

-- What read_ref does to an item.
unfoldable pub with_oid : Oid → PackRef → PackRef
with_oid oid ref = record ref { oid = some oid }

-- The items after a list of references.
unfoldable pub record_all : List PackRef → List (Oid × List ℕ) → List PackRef
unfolding upsert with_oid
record_all items [] = items
record_all items (ref ∷ refs) = record_all (upsert items ref.1 (with_oid ref.0)) refs

-- The id that the last reference of a name has, where `found` is that of those before.
unfoldable pub last_oid : List (Oid × List ℕ) → (name : List ℕ) → (found : Option Oid) → Option Oid
unfolding bytes_equal
last_oid [] name found = found
last_oid (ref ∷ refs) name found =
    last_oid refs name (if bytes_equal ref.1 name then some ref.0 else found)

-- The item of a name has this id.
unfoldable pub Stores : Option PackRef → Option Oid → Type 0
Stores none none = Unit {0}
Stores none (some oid) = ⊥
Stores (some item) none = ⊥
Stores (some item) (some oid) = item.oid ≡ some oid

cached-upsert_same :
    (items : List PackRef) (key : List ℕ) (oid : Oid)
    → Stores (cached (upsert items key (with_oid oid)) key) (some oid)
unfolding cached upsert with_oid Stores
cached-upsert_same [] key oid = rw (bytes_equal_self key) refl
cached-upsert_same (item ∷ items) key oid = elim (Bool-cases (bytes_equal item.name key)) [
  | inl same ↦ rw (same, same) refl
  | inr other ↦ rw (other, other) (cached-upsert_same items key oid)
]

cached-upsert_other :
    (items : List PackRef) (name key : List ℕ) (oid : Oid)
    → bytes_equal name key ≡ false
    → cached (upsert items name (with_oid oid)) key ≡ cached items key
unfolding cached upsert with_oid
cached-upsert_other [] name key oid h = rw h refl
cached-upsert_other (item ∷ items) name key oid h = elim (Bool-cases (bytes_equal item.name name)) [
  | inl same ↦
      let differs : bytes_equal item.name key ≡ false =
        subst (λ t. bytes_equal t key ≡ false) (sym (bytes_equal_sound item.name name same)) h in
      rw (same, differs) refl
  | inr other ↦ rw other (
      ap (λ rest. if bytes_equal item.name key then some item else rest)
        (cached-upsert_other items name key oid h))
]

pub record_all-Stores :
    (refs : List (Oid × List ℕ)) (items : List PackRef) (key : List ℕ) (found : Option Oid)
    → Stores (cached items key) found
    → Stores (cached (record_all items refs) key) (last_oid refs key found)
unfolding record_all last_oid
record_all-Stores [] items key found h = h
record_all-Stores (ref ∷ refs) items key found h =
    record_all-Stores refs (upsert items ref.1 (with_oid ref.0)) key _
      (elim (Bool-cases (bytes_equal ref.1 key)) [
        | inl same ↦ rw same (
            subst (λ k. Stores (cached (upsert items ref.1 (with_oid ref.0)) k) (some ref.0))
              (bytes_equal_sound ref.1 key same) (cached-upsert_same items ref.1 ref.0))
        | inr other ↦ rw (other, cached-upsert_other items ref.1 key ref.0 other) h
      ])

-- Where the item of a name has an id, Lookup without a loose file gives the reference to it.
pub packed_reference-Stores :
    (found : Option PackRef) (oid : Option Oid) (name : List ℕ)
    → Stores found oid
    → packed_reference found name ≡ elim oid as (λ _. Outcome GitError Reference) [
      | none ↦ err (message "not found")
      | some o ↦ ok (oid_reference (some o) name)
    ]
unfolding packed_reference Stores
packed_reference-Stores none none name h = refl
packed_reference-Stores none (some oid) name h = absurd h
packed_reference-Stores (some item) none name h = absurd h
packed_reference-Stores (some item) (some oid) name h = ap (λ o. ok (oid_reference o name)) h

-- ===== src/RefDb/Examples.antt =====
-- Tests and witnesses for RefDb.go.
use git4go.Common.{
  ℕ, zero, suc, true, panic, ◌≡◌, ◌<◌, refl, none, some, List, [], ◌∷◌, ◌++◌, arith, replicate, All,
  ok, codes, bytes_equal,
}
use git4go.Common.Actions.{continue}
use git4go.Oid.{Oid, string}
use git4go.RefDb.{lookup, oid_reference, reference_symbolic}
use git4go.RefDb.Packed.{PackRefSortedCache, reload_if_changed}
use git4go.RefDb.Packed.Stored.{last_oid}
use git4go.RefDb.Packed.Line.{IsRefName}
use git4go.RefDb.Packed.RoundTrip.{AreRefs, encode_refs, reload_if_changed-lookup}

abbrev empty_cache : PackRefSortedCache
empty_cache = record { items = []; stamp = 0; peeling_mode = 0; not_exist = true }

abbrev first_id : Oid
first_id = replicate 20 0xab

abbrev second_id : Oid
second_id = replicate 20 0x1c

replicate-All : (n x : ℕ) → x < 256 → All (λ b. b < 256) (replicate n x)
replicate-All zero x h = tt
replicate-All (suc n) x h = (h, replicate-All n x h)

abbrev name : List ℕ
name = codes "ab"

name-IsRefName : IsRefName name
name-IsRefName = (
  (λ h. omega (arith, h), λ h. omega (arith, h)),
  ((λ h. omega (arith, h), λ h. omega (arith, h)), tt),
)

abbrev two_refs : List (Oid × List ℕ)
two_refs = (first_id, name) ∷ (second_id, name) ∷ []

two_refs-AreRefs : AreRefs two_refs
two_refs-AreRefs = (
  ((refl, replicate-All 20 0xab (omega arith)), name-IsRefName),
  (((refl, replicate-All 20 0x1c (omega arith)), name-IsRefName), tt),
)

-- A symbolic reference is cut at its line's end.
loose_run :
    lookup (λ n. some (codes "ref: refs/heads/m" ++ (10 ∷ []))) [] (codes "HEAD")
    ≡ ok (record {
      ref_type = reference_symbolic;
      target_symbolic = codes "refs/heads/m";
      target_oid = none;
      name = [];
    })
unfolding lookup bytes_equal
loose_run = refl

-- A line of a peeled reference, which is not the last, makes the next line unreadable.
peeled_run :
    (reload_if_changed
      (some 1)
      (ok (record {
        elems =
            encode_refs ((first_id, name) ∷ [])
            ++ ((94 ∷ string second_id) ++ (10 ∷ encode_refs ((second_id, codes "cd") ∷ [])));
        spare = [];
      }))
      empty_cache).1
    ≡ panic
unfolding reload_if_changed continue encode_refs bytes_equal string
peeled_run = refl

-- Witnesses.
reload_if_changed-lookup_example :
    let after =
      reload_if_changed
        (some 1)
        (ok (record { elems = encode_refs two_refs; spare = [] }))
        empty_cache in
    (after.1 ≡ ok tt)
    × (lookup (λ _. none) after.0.items name ≡ ok (oid_reference (some second_id) name))
unfolding last_oid bytes_equal
reload_if_changed-lookup_example =
    reload_if_changed-lookup two_refs [] empty_cache 1 name two_refs-AreRefs (omega arith) refl
      (omega arith)

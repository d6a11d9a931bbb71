-- ===== src/Reference/Resolved.antt =====
-- What referenceLookupResolved of reference.go returns.
use git4go.Common.{
  ℕ, zero, suc, ◌≤◌, ◌≡◌, refl, subst, ◌∙◌, ap, ◌↔◌, ◌⊎◌, inl, inr, Bool, true, List, arith,
  Outcome, ok, GitError, >>=-eq-ok, ok-injective, ℤ, ◌&&◌, not, ◌==◌, if◌then◌else◌, err, message,
}
use git4go.RefDb.{Reference, ReferenceType, reference_oid, reference_symbolic}
use git4go.Reference.{
  reference_normalize, lookup_loop, nesting_level, is_symbolic, check_resolved,
  reference_lookup_resolved,
}

module _ (lookup : List ℕ → Outcome GitError Reference) where
  -- A name leads to a reference to an id over a number of symbolic references.
  pub data Resolves : ℕ → List ℕ → Reference → Type 0 where
    at_oid :
        (name : List ℕ) (ref : Reference)
        → lookup name ≡ ok ref
        → ref.ref_type ≡ reference_oid
        → Resolves 0 name ref
    by_symbol :
        (n : ℕ) (name : List ℕ) (ref target : Reference)
        → lookup name ≡ ok ref
        → ref.ref_type ≡ reference_symbolic
        → Resolves n ref.target_symbolic target
        → Resolves (suc n) name target

  Resolves-ref_type :
      (n : ℕ) (name : List ℕ) (ref : Reference) → Resolves n name ref → ref.ref_type ≡ reference_oid
  Resolves-ref_type _ _ _ (at_oid name ref found is_oid) = is_oid
  Resolves-ref_type _ _ _ (by_symbol n name ref target found symbolic rest) =
      Resolves-ref_type n ref.target_symbolic target rest

  branch :
      (t : ReferenceType) (first found : Reference) (rest : Outcome GitError Reference)
      → (elim t as (λ _. Outcome GitError Reference) [
        | reference_oid ↦ ok first
        | reference_symbolic ↦ rest
      ])
        ≡ ok found
      → ((t ≡ reference_oid) × (first ≡ found)) ⊎ ((t ≡ reference_symbolic) × (rest ≡ ok found))
  branch reference_oid first found rest h = inl (refl, ok-injective h)
  branch reference_symbolic first found rest h = inr (refl, h)

  lookup_loop-Resolves :
      (nesting : ℕ) (name : List ℕ) (ref : Reference)
      → lookup_loop lookup nesting name ≡ ok ref
      → ref.ref_type ≡ reference_oid
      → (n : ℕ) × (n ≤ nesting) × Resolves n name ref
  unfolding lookup_loop
  lookup_loop-Resolves zero name ref h is_oid = (0, omega arith, at_oid name ref h is_oid)
  lookup_loop-Resolves (suc nesting) name ref h is_oid =
      let (first, found, next) = >>=-eq-ok (lookup name) _ h in
      elim (branch first.ref_type first ref (lookup_loop lookup nesting first.target_symbolic)
        next) [
          | inl (t, same) ↦ (0, omega arith, at_oid name ref (found ∙ ap ok same) is_oid)
          | inr (t, rest) ↦
              (let (n, le, chain) =
                  lookup_loop-Resolves nesting first.target_symbolic ref rest is_oid in
                (suc n, omega (arith, le), by_symbol n name first ref found t chain))
        ]

  Resolves-lookup_loop :
      (n nesting : ℕ) (name : List ℕ) (ref : Reference)
      → n ≤ nesting
      → Resolves n name ref
      → lookup_loop lookup nesting name ≡ ok ref
  unfolding lookup_loop
  Resolves-lookup_loop _ zero _ _ le (at_oid name ref found is_oid) = found
  Resolves-lookup_loop _ (suc nesting) _ _ le (at_oid name ref found is_oid) = simp (found, is_oid)
  Resolves-lookup_loop _ zero _ _ le (by_symbol n name ref target found symbolic rest) =
      absurd (omega (arith, le))
  Resolves-lookup_loop _ (suc nesting) _ _ le (by_symbol n name ref target found symbolic rest) =
      rw (found, symbolic)
        (Resolves-lookup_loop n nesting ref.target_symbolic target (omega (arith, le)) rest)

-- After the loop only a reference to an id is left, where the nesting is not 0.
check_resolved-eq-ok :
    (max_nesting : ℕ) (ref found : Reference)
    → 1 ≤ max_nesting
    → check_resolved max_nesting ref ≡ ok found
    → (ref ≡ found) × (ref.ref_type ≡ reference_oid)
unfolding check_resolved is_symbolic
check_resolved-eq-ok max_nesting ref found h eq = by_type ref.ref_type refl eq
  where
    by_type :
        (t : ReferenceType)
        → ref.ref_type ≡ t
        → (if is_symbolic t && not (max_nesting == 0)
            then err (message "Cannot resolve reference")
            else ok ref)
          ≡ ok found
        → (ref ≡ found) × (ref.ref_type ≡ reference_oid)
    by_type reference_oid t e = (ok-injective e, t)
    by_type reference_symbolic t e = ground arith

check_resolved-oid :
    (max_nesting : ℕ) (ref : Reference)
    → ref.ref_type ≡ reference_oid
    → check_resolved max_nesting ref ≡ ok ref
unfolding check_resolved is_symbolic
check_resolved-oid max_nesting ref is_oid = rw is_oid refl

-- Where the level of nesting is not 0, referenceLookupResolved returns a reference exactly where it is
-- the reference to an id to which the normalized name leads over symbolic references, of which there
-- are no more than that level.
pub reference_lookup_resolved-Resolves :
    (nfc : List ℕ → List ℕ) (precompose : Bool) (lookup : List ℕ → Outcome GitError Reference)
    (name : List ℕ) (max_nesting : ℤ) (ref : Reference)
    → 1 ≤ nesting_level max_nesting
    → (reference_lookup_resolved nfc precompose lookup name max_nesting ≡ ok ref) ↔ (
        (scan_name : List ℕ) × (reference_normalize nfc name precompose true ≡ ok scan_name)
        × (n : ℕ) × (n ≤ nesting_level max_nesting)
        × Resolves lookup n scan_name ref)
unfolding reference_lookup_resolved
reference_lookup_resolved-Resolves nfc precompose lookup name max_nesting ref h = (to, back)
  where
    to :
        reference_lookup_resolved nfc precompose lookup name max_nesting ≡ ok ref
        → (scan_name : List ℕ) × (reference_normalize nfc name precompose true ≡ ok scan_name)
          × (n : ℕ) × (n ≤ nesting_level max_nesting)
          × Resolves lookup n scan_name ref
    to eq =
        let (scan_name, normal, rest) =
          >>=-eq-ok (reference_normalize nfc name precompose true) _ eq in
        let (last, looped, checked) =
          >>=-eq-ok (lookup_loop lookup (nesting_level max_nesting) scan_name) _ rest in
        let (same, is_oid) = check_resolved-eq-ok (nesting_level max_nesting) last ref h checked in
        let (n, le, chain) =
          lookup_loop-Resolves lookup (nesting_level max_nesting) scan_name ref
            (looped ∙ ap ok same) (subst (λ r. r.ref_type ≡ reference_oid) same is_oid) in
        (scan_name, normal, n, le, chain)

    back :
        (scan_name : List ℕ) × (reference_normalize nfc name precompose true ≡ ok scan_name)
          × (n : ℕ) × (n ≤ nesting_level max_nesting)
          × Resolves lookup n scan_name ref
        → reference_lookup_resolved nfc precompose lookup name max_nesting ≡ ok ref
    back (scan_name, normal, n, le, chain) =
        rw
          (normal, Resolves-lookup_loop lookup n (nesting_level max_nesting) scan_name ref le chain)
          (check_resolved-oid (nesting_level max_nesting) ref
            (Resolves-ref_type lookup n scan_name ref chain))

-- ===== src/Reference/Examples.antt =====
-- Tests and witnesses for reference.go.
use git4go.Common.{
  ℕ, ◌≤◌, ◌≡◌, refl, ◌↔◌, false, true, Option, none, some, List, [], ◌∷◌, ◌++◌, if◌then◌else◌,
  arith, Outcome, ok, err, panic, GitError, message, codes, bytes_equal, negsuc,
}
use git4go.RefDb.{Reference, PackRef, lookup, oid_reference}
use git4go.Reference.{
  reference_normalize, nesting_level, reference_lookup_resolved, clean, head, dwim_reference,
}
use git4go.Reference.Resolved.{Resolves, reference_lookup_resolved-Resolves}

-- The name that HEAD stands for, and its reference.
abbrev master : List ℕ
master = codes "refs/heads/m"

abbrev master_ref : Reference
master_ref = oid_reference (some (1 ∷ [])) master

-- A repository whose HEAD is a file and whose branch is a packed reference.
head_file : List ℕ → Option (List ℕ)
unfolding bytes_equal
head_file name =
    if bytes_equal name (codes "HEAD") then some (codes "ref: refs/heads/m" ++ (10 ∷ [])) else none

abbrev packed_master : List PackRef
packed_master = record { oid = some (1 ∷ []); peel = none; flag = 0; name = master } ∷ []

head_and_master : List ℕ → Outcome GitError Reference
unfolding lookup head_file
head_and_master name = lookup head_file packed_master name

clean_run : clean (codes "a//./b/../c/") ≡ codes "a/c"
unfolding clean bytes_equal
clean_run = refl

clean_up_run : clean (codes "a/../../b") ≡ codes "../b"
unfolding clean bytes_equal
clean_up_run = refl

head_run : head (λ s. s) false head_and_master ≡ ok master_ref
unfolding head head_and_master bytes_equal reference_lookup_resolved oid_reference
head_run = refl

-- Head on a repository without a HEAD.
head_missing_run : head (λ s. s) false (λ name. err (message "not found")) ≡ panic
unfolding head bytes_equal reference_lookup_resolved
head_missing_run = refl

dwim_run : dwim_reference (λ s. s) false head_and_master (codes "m") ≡ ok master_ref
unfolding dwim_reference head_and_master bytes_equal reference_normalize reference_lookup_resolved
    oid_reference
dwim_run = refl

-- Witnesses.
reference_lookup_resolved-Resolves_example :
    (reference_lookup_resolved (λ s. s) false head_and_master (codes "HEAD") (negsuc 0)
      ≡ ok master_ref)
    ↔ ((scan_name : List ℕ) × (reference_normalize (λ s. s) (codes "HEAD") false true
          ≡ ok scan_name)
        × (n : ℕ) × (n ≤ nesting_level (negsuc 0))
        × Resolves head_and_master n scan_name master_ref)
unfolding nesting_level
reference_lookup_resolved-Resolves_example =
    reference_lookup_resolved-Resolves (λ s. s) false head_and_master (codes "HEAD") (negsuc 0)
      master_ref (omega arith)

-- ===== src/Reference.antt =====
-- reference.go: names, and the reference that a name leads to. filepath.Clean is by the parts of a
-- path that does not begin with a slash, the only kind that it gets here.
pub mod Resolved
mod Examples
use git4go.Common.{
  ℕ, zero, suc, ◌-◌, Bool, true, false, not, ◌&&◌, ◌||◌, Option, none, some, List, [], ◌∷◌, ◌++◌,
  ltb, ◌==◌, if◌then◌else◌, length, Outcome, ◌>>=◌, ok, err, panic, stuck, GitError, message, codes,
  bytes_equal, get_elem?, ℤ, pos, negsuc,
}
use git4go.RefDb.{Reference, ReferenceType, reference_oid, reference_symbolic}

-- The parts between slashes, at least one.
unfoldable pub split_slash : List ℕ → List ℕ × List (List ℕ)
split_slash [] = ([], [])
split_slash (c ∷ s) =
    let (first, rest) = split_slash s in if c == 47 then ([], first ∷ rest) else (c ∷ first, rest)

-- The parts that are kept, the last one first: an empty part and a dot go, and two dots take the part
-- before with them where that is none.
unfoldable pub clean_step : (kept : List (List ℕ)) (part : List ℕ) → List (List ℕ)
unfolding bytes_equal
clean_step kept part =
    if length part == 0 || bytes_equal part (codes ".")
    then kept
    else (if bytes_equal part (codes "..") then back kept else part ∷ kept)
  where
    back : List (List ℕ) → List (List ℕ)
    back [] = part ∷ []
    back (before ∷ kept) = if bytes_equal before (codes "..") then part ∷ before ∷ kept else kept

unfoldable pub clean_parts : (kept parts : List (List ℕ)) → List (List ℕ)
unfolding clean_step
clean_parts kept [] = kept
clean_parts kept (part ∷ parts) = clean_parts (clean_step kept part) parts

-- The parts, the last one first, as a path that goes on with `behind`.
unfoldable pub join_slash : (kept : List (List ℕ)) (behind : List ℕ) → List ℕ
join_slash [] behind = behind
join_slash (part ∷ []) behind = part ++ behind
join_slash (part ∷ before ∷ kept) behind = join_slash (before ∷ kept) (47 ∷ (part ++ behind))

unfoldable pub clean : List ℕ → List ℕ
unfolding split_slash clean_parts join_slash
clean path =
    let (first, rest) = split_slash path in
    let kept = clean_parts [] (first ∷ rest) in
    if length kept == 0 then codes "." else join_slash kept []

unfoldable pub has_slash : List ℕ → Bool
has_slash [] = false
has_slash (c ∷ s) = c == 47 || has_slash s

-- lastChar is '.' or '/'.
unfoldable pub ends_badly : List ℕ → Bool
ends_badly name = is_bad (get_elem? name (length name - 1))
  where
    is_bad : Option ℕ → Bool
    is_bad none = false
    is_bad (some last_char) = last_char == 46 || last_char == 47

abbrev pub invalid_name : GitError
invalid_name = message "The given reference name is not valid"

-- referenceNormalize. `nfc` is the normal form of golang.org/x/text.
module _ (nfc : List ℕ → List ℕ) where
  unfoldable pub reference_normalize :
      (name : List ℕ) (precompose_unicode allow_one_level : Bool) → Outcome GitError (List ℕ)
  unfolding clean ends_badly has_slash
  reference_normalize [] precompose_unicode allow_one_level = err invalid_name
  reference_normalize (c ∷ s) precompose_unicode allow_one_level =
      let name = clean (c ∷ s) in
      if c == 47 || (ends_badly name || (not (has_slash name) && not allow_one_level))
      then err invalid_name
      else ok (if precompose_unicode then nfc name else name)

-- The loop of referenceLookupResolved, which gives the last reference that it looks up.
module _ (lookup : List ℕ → Outcome GitError Reference) where
  unfoldable pub lookup_loop : (nesting : ℕ) (scan_name : List ℕ) → Outcome GitError Reference
  lookup_loop zero scan_name = lookup scan_name
  lookup_loop (suc nesting) scan_name = do
    ref ← lookup scan_name
    elim ref.ref_type [
      | reference_oid ↦ ok ref
      | reference_symbolic ↦ lookup_loop nesting ref.target_symbolic
    ]

abbrev pub default_nesting_level : ℕ
default_nesting_level = 5

abbrev pub max_nesting_level : ℕ
max_nesting_level = 10

unfoldable pub nesting_level : ℤ → ℕ
nesting_level (pos n) = if ltb max_nesting_level n then max_nesting_level else n
nesting_level (negsuc n) = default_nesting_level

unfoldable pub is_symbolic : ReferenceType → Bool
is_symbolic reference_oid = false
is_symbolic reference_symbolic = true

-- What follows the loop.
unfoldable pub check_resolved : (max_nesting : ℕ) → Reference → Outcome GitError Reference
unfolding is_symbolic
check_resolved max_nesting ref =
    if is_symbolic ref.ref_type && not (max_nesting == 0)
    then err (message "Cannot resolve reference")
    else ok ref

-- The next reference where a lookup has failed.
unfoldable pub or_next : (found rest : Outcome GitError Reference) → Outcome GitError Reference
or_next (ok ref) rest = ok ref
or_next (err e) rest = rest
or_next panic rest = panic
or_next stuck rest = stuck

-- The methods of a repository, with the configuration's core.precomposeunicode and the Lookup of the
-- database of references.
module _ (nfc : List ℕ → List ℕ) (precompose_unicode : Bool)
    (lookup : List ℕ → Outcome GitError Reference) where
  unfoldable pub reference_lookup_resolved :
      (name : List ℕ) (max_nesting : ℤ) → Outcome GitError Reference
  unfolding reference_normalize lookup_loop nesting_level check_resolved
  reference_lookup_resolved name max_nesting = do
    scan_name ← reference_normalize nfc name precompose_unicode true
    ref ← lookup_loop lookup (nesting_level max_nesting) scan_name
    check_resolved (nesting_level max_nesting) ref

  unfoldable pub lookup_reference : (name : List ℕ) → Outcome GitError Reference
  lookup_reference name = reference_lookup_resolved name (pos 0)

  unfoldable pub resolve : Reference → Outcome GitError Reference
  resolve r = elim r.ref_type [
    | reference_oid ↦ ok r
    | reference_symbolic ↦ reference_lookup_resolved r.target_symbolic (negsuc 0)
  ]

  -- Head, which reads the type of a nil reference where HEAD cannot be looked up.
  unfoldable pub head : Outcome GitError Reference
  unfolding lookup_reference resolve
  head = after (lookup_reference (codes "HEAD"))
    where
      after : Outcome GitError Reference → Outcome GitError Reference
      after (ok r) = resolve r
      after (err e) = panic
      after panic = panic
      after stuck = stuck

  abbrev pub dwim_formatters : List (List ℕ × List ℕ)
  dwim_formatters =
      ([], [])
      ∷ (codes "refs/", [])
      ∷ (codes "refs/tags/", [])
      ∷ (codes "refs/heads/", [])
      ∷ (codes "refs/remotes/", [])
      ∷ (codes "refs/remotes/", codes "/HEAD")
      ∷ []

  -- The loop of DwimReference: an error of the lookup is passed over, one of the name is not.
  unfoldable pub dwim_loop :
      (formatters : List (List ℕ × List ℕ)) (name : List ℕ) → Outcome GitError Reference
  unfolding or_next
  dwim_loop [] name = err (message "Could not use as valid reference name")
  dwim_loop (formatter ∷ formatters) name = do
    ref_name ← reference_normalize nfc (formatter.0 ++ (name ++ formatter.1)) false true
    or_next (reference_lookup_resolved ref_name (negsuc 0)) (dwim_loop formatters name)

  unfoldable pub dwim_reference : (name : List ℕ) → Outcome GitError Reference
  unfolding dwim_loop
  dwim_reference [] = dwim_loop dwim_formatters (codes "HEAD")
  dwim_reference (c ∷ name) = dwim_loop dwim_formatters (c ∷ name)

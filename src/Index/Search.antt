-- ===== src/Index/Search.antt =====
-- The searches of index.go. The binary search of github.com/shibukawa/bsearch is a parameter.
use git4go.Common.{
  ℕ, zero, suc, ◌+◌, ◌-◌, ◌/◌, Ordering, ◌≡◌, Bool, false, Option, none, some, List, ltb, leb,
  if◌then◌else◌, length, get_elem?, Outcome, ◌>>=◌, ok, GitError, bytes_compare, bytes_equal,
  or_panic, ℤ, pos, negsuc,
}
use git4go.Index.Entry.{IndexEntry, IndexReucEntry, stage}
use git4go.Index.Order.{to_lower}
use git4go.Index.Store.{Index, sort_entries_if_needed}

-- The package's Search, whose -1 is none, and its constants for a result of the comparison.
pub record Bsearch : Type 0 where
  pub search : ℕ → (ℕ → Outcome GitError ℤ) → Outcome GitError (Option ℕ)
  pub smaller : ℤ
  pub equal : ℤ
  pub bigger : ℤ

-- Its documentation, as far as the theorems need it: among no elements nothing is found.
abbrev pub FindsNothing : Bsearch → Type 0
FindsNothing b = (compare_at : ℕ → Outcome GitError ℤ) → b.search 0 compare_at ≡ ok none

-- `a - b` as an int.
unfoldable pub difference : ℕ → ℕ → ℤ
difference a b = if leb b a then pos (a - b) else negsuc (b - a - 1)

-- The loop back to the head of the elements with the path: the position falls to 0 at most. `fold` is
-- strings.ToLower or nothing.
unfoldable pub first_of_path :
    (fold : List ℕ → List ℕ) (entries : List IndexEntry) (path : List ℕ) (pos : ℕ)
    → Outcome GitError ℕ
unfolding bytes_equal
first_of_path fold entries path zero = ok 0
first_of_path fold entries path (suc p) =
    let before = first_of_path fold entries path p in
    do
      entry ← or_panic (get_elem? entries p)
      if bytes_equal (fold entry.path) path then before else ok (suc p)

module _ (bsearch : Bsearch) where
  -- The comparison of both branches of Find and of findInEntries: `equal` is the result on equal paths.
  unfoldable pub compare_path : (path path_in_list : List ℕ) (equal : ℤ) → ℤ
  unfolding bytes_compare
  compare_path path path_in_list equal = elim (bytes_compare path path_in_list) [
    | Ordering.gt ↦ bsearch.smaller
    | Ordering.eq ↦ equal
    | Ordering.lt ↦ bsearch.bigger
  ]

  -- What both branches of Find do, over `n` elements; none is -1.
  unfoldable pub find_from :
      (fold : List ℕ → List ℕ) (n : ℕ) (entries : List IndexEntry) (path : List ℕ)
      → Outcome GitError (Option ℕ)
  unfolding compare_path first_of_path
  find_from fold n entries path = do
    found ← bsearch.search n (λ i. do
      entry ← or_panic (get_elem? entries i)
      ok (compare_path path (fold entry.path) bsearch.equal))
    head found
    where
      head : Option ℕ → Outcome GitError (Option ℕ)
      head none = ok none
      head (some p) = do first ← first_of_path fold entries path p; ok (some first)

  -- Find, which counts the REUC entries in the branch with regard to case.
  unfoldable pub find : Index → (path : List ℕ) → Outcome GitError (Option ℕ)
  unfolding find_from to_lower
  find v path =
      if v.ignore_case
      then find_from to_lower (length v.entries) v.entries (to_lower path)
      else find_from (λ p. p) (length v.reuc) v.entries path

  -- findInEntries, which reads the index's ignoreCase and not its argument, and counts as Find does.
  unfoldable pub find_in_entries :
      Index → (entries : List IndexEntry) (path : List ℕ) (s : ℕ) → Outcome GitError (Option ℕ)
  unfolding compare_path to_lower difference stage
  find_in_entries v entries path s =
      if v.ignore_case
      then bsearch.search (length entries) (λ i. do
        entry ← or_panic (get_elem? entries i)
        ok (compare_path (to_lower path) (to_lower entry.path) (difference (stage entry) s)))
      else bsearch.search (length v.reuc) (λ i. do
        entry ← or_panic (get_elem? entries i)
        ok (compare_path path entry.path (difference (stage entry) s)))

  -- sortAndFindInEntries: the index with its entries sorted, and the position.
  unfoldable pub sort_and_find_in_entries :
      Index → (path : List ℕ) (s : ℕ) → Index × Outcome GitError (Option ℕ)
  unfolding sort_entries_if_needed find_in_entries
  sort_and_find_in_entries v path s =
      let sorted = sort_entries_if_needed v v.ignore_case in
      (sorted, find_in_entries sorted sorted.entries path s)

-- sort.Search: the loop between i and j, with a round for each halving at most.
unfoldable pub search_loop : (rounds : ℕ) (test : ℕ → Bool) (i j : ℕ) → ℕ
search_loop zero test i j = i
search_loop (suc rounds) test i j =
    let h = (i + j) / 2 in
    let lower = search_loop rounds test i h in
    let upper = search_loop rounds test (h + 1) j in
    if ltb i j then if test h then lower else upper else i

unfoldable pub sort_search : (n : ℕ) (test : ℕ → Bool) → ℕ
unfolding search_loop
sort_search n test = search_loop n test 0 n

-- Does the REUC entry at an index have the path?
unfoldable pub reuc_has_path :
    (fold : List ℕ → List ℕ) (reuc : List IndexReucEntry) (path : List ℕ) → ℕ → Bool
unfolding bytes_equal
reuc_has_path fold reuc path i = has (get_elem? reuc i)
  where
    has : Option IndexReucEntry → Bool
    has none = false
    has (some entry) = bytes_equal (fold entry.path) path

-- reucFind: sort.Search gives the number of entries, and never -1, where it finds none.
unfoldable pub reuc_find : Index → (reuc_path : List ℕ) → ℕ
unfolding sort_search reuc_has_path to_lower
reuc_find v reuc_path =
    if v.ignore_case
    then sort_search (length v.reuc) (reuc_has_path to_lower v.reuc (to_lower reuc_path))
    else sort_search (length v.reuc) (reuc_has_path (λ p. p) v.reuc reuc_path)

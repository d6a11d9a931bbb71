-- ===== src/Index/Lookup.antt =====
-- The searches of index.go where the index has no REUC entries.
use git4go.Common.{
  ℕ, ◌≡◌, refl, ap, inl, inr, false, none, List, [], Bool-cases, ok, err, not_found, git_error,
}
use git4go.Common.Actions.{continue, continue-ok}
use git4go.Index.Store.{Index}
use git4go.Index.Search.{Bsearch, FindsNothing, find_from, find, sort_and_find_in_entries}
use git4go.Index.Conflicts.{get_conflict}
use git4go.Index.Changes.{remove}

module _ (bsearch : Bsearch) (documented : FindsNothing bsearch) (v : Index) (path : List ℕ)
    (h : v.ignore_case ≡ false) (e : v.reuc ≡ []) where
  find_nothing : find bsearch v path ≡ ok none
  unfolding find find_from
  find_nothing = simp (h, e) (simp (documented _) refl)

  search_nothing : (s : ℕ) → (sort_and_find_in_entries bsearch v path s).1 ≡ ok none
  unfolding sort_and_find_in_entries
  search_nothing s = elim (Bool-cases v.entries_sorted) [
    | inl b ↦ simp (b, h, e) (simp (documented _) refl)
    | inr b ↦ simp (b, h, e) (simp (documented _) refl)
  ]

-- In an index that regards case and has no REUC entries, Find, GetConflict and Remove find no path at
-- all, whatever the entries are, where the binary search finds nothing among no elements.
pub find_no_reuc :
    (bsearch : Bsearch) (v : Index) (path : List ℕ) (s : ℕ)
    → FindsNothing bsearch
    → v.ignore_case ≡ false
    → v.reuc ≡ []
    → (find bsearch v path ≡ ok none)
      × (get_conflict bsearch v path ≡ err (git_error not_found))
      × ((remove bsearch path s v).1 ≡ err (git_error not_found))
unfolding get_conflict remove continue
find_no_reuc bsearch v path s documented h e = (
  find_nothing bsearch documented v path h e,
  rw (find_nothing bsearch documented v path h e) refl,
  ap (λ r. r.1)
      (continue-ok (sort_and_find_in_entries bsearch v path s) _
        (search_nothing bsearch documented v path h e s)),
)

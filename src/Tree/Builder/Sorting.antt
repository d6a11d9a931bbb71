-- ===== src/Tree/Builder/Sorting.antt =====
-- The order in which TreeBuilder.Write of tree_builder.go writes the entries: sorting changes no
-- search and no property of the entries.
use git4go.Common.{
  [], bytes_equal-both, if_swap, ℕ, Ordering, ◌≡◌, refl, ap, ◌∙◌, inl, inr, true, false, some, List,
  ◌∷◌, if◌then◌else◌, Bool-cases, if_both, All, bytes_compare, bytes_equal,
}
use git4go.Tree.Entries.{TreeEntry, entry_by_name}
use git4go.Tree.Builder.{less, insert_sorted, sort_entries}

insert_sorted-All :
    (P : TreeEntry → Type 0) (e : TreeEntry) (xs : List TreeEntry)
    → P e
    → All P xs
    → All P (insert_sorted e xs)
unfolding insert_sorted
insert_sorted-All P e [] p h = (p, tt)
insert_sorted-All P e (x ∷ xs) p h =
    if_both (All P) (less x e) (h.0, insert_sorted-All P e xs p h.1) (p, h)

pub sort_entries-All :
    (P : TreeEntry → Type 0) (xs : List TreeEntry) → All P xs → All P (sort_entries xs)
unfolding sort_entries
sort_entries-All P [] h = tt
sort_entries-All P (x ∷ xs) h = insert_sorted-All P x _ h.0 (sort_entries-All P xs h.1)

less-names : (x e : TreeEntry) → less x e ≡ true → bytes_equal x.name e.name ≡ false
unfolding less bytes_equal
less-names x e h = apart (bytes_compare x.name e.name) h
  where
    apart :
        (c : Ordering)
        → elim c [ Ordering.lt ↦ true | _ ↦ false ] ≡ true
        → elim c [ Ordering.eq ↦ true | _ ↦ false ] ≡ false
    apart Ordering.lt h = refl
    apart Ordering.eq h = cc
    apart Ordering.gt h = refl

entry_by_name-insert_sorted :
    (e : TreeEntry) (xs : List TreeEntry) (n : List ℕ)
    → entry_by_name (insert_sorted e xs) n
      ≡ (if bytes_equal e.name n then some e else entry_by_name xs n)
unfolding entry_by_name insert_sorted
entry_by_name-insert_sorted e [] n = refl
entry_by_name-insert_sorted e (x ∷ xs) n = elim (Bool-cases (less x e)) [
  | inl l ↦
      rw (l, entry_by_name-insert_sorted e xs n)
        (if_swap (bytes_equal x.name n) (bytes_equal e.name n) (some x) (some e)
          (entry_by_name xs n) (bytes_equal-both x.name e.name n (less-names x e l)))
  | inr l ↦ rw l refl
]

pub entry_by_name-sort_entries :
    (xs : List TreeEntry) (n : List ℕ) → entry_by_name (sort_entries xs) n ≡ entry_by_name xs n
unfolding sort_entries entry_by_name
entry_by_name-sort_entries [] n = refl
entry_by_name-sort_entries (x ∷ xs) n =
    entry_by_name-insert_sorted x (sort_entries xs) n
    ∙ ap (λ t. if bytes_equal x.name n then some x else t) (entry_by_name-sort_entries xs n)

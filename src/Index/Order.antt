-- ===== src/Index/Order.antt =====
-- The orders of index.go: of entries by path and stage, of REUC entries by path, of names.
use git4go.Common.{
  ℕ, ◌+◌, Ordering, Bool, true, false, ◌&&◌, List, [], ◌∷◌, ltb, leb, if◌then◌else◌, bytes_compare,
}
use git4go.Index.Entry.{IndexEntry, IndexNameEntry, IndexReucEntry, stage}

-- `<` on strings.
unfoldable pub bytes_less : List ℕ → List ℕ → Bool
unfolding bytes_compare
bytes_less a b = elim (bytes_compare a b) [ Ordering.lt ↦ true | _ ↦ false ]

-- strings.ToLower on ASCII: other bytes stay.
unfoldable pub to_lower : List ℕ → List ℕ
to_lower [] = []
to_lower (c ∷ s) = (if leb 65 c && leb c 90 then c + 32 else c) ∷ to_lower s

-- The stages decide between equal paths.
unfoldable pub path_stage_less : (path path' : List ℕ) (stage stage' : ℕ) → Bool
unfolding bytes_compare
path_stage_less path path' s s' = elim (bytes_compare path path') [
  | Ordering.lt ↦ true
  | Ordering.eq ↦ ltb s s'
  | Ordering.gt ↦ false
]

-- indexEntriesCaseSensitive.Less.
unfoldable pub entry_less : IndexEntry → IndexEntry → Bool
unfolding path_stage_less stage
entry_less e1 e2 = path_stage_less e1.path e2.path (stage e1) (stage e2)

-- indexEntriesCaseInSensitive.Less.
unfoldable pub entry_less_folded : IndexEntry → IndexEntry → Bool
unfolding path_stage_less to_lower stage
entry_less_folded e1 e2 =
    path_stage_less (to_lower e1.path) (to_lower e2.path) (stage e1) (stage e2)

-- The Less of the two reucEntries types.
unfoldable pub reuc_less : IndexReucEntry → IndexReucEntry → Bool
unfolding bytes_less
reuc_less e1 e2 = bytes_less e1.path e2.path

unfoldable pub reuc_less_folded : IndexReucEntry → IndexReucEntry → Bool
unfolding bytes_less to_lower
reuc_less_folded e1 e2 = bytes_less (to_lower e1.path) (to_lower e2.path)

-- indexNameEntries.Less.
unfoldable pub name_less : IndexNameEntry → IndexNameEntry → Bool
unfolding bytes_less
name_less e1 e2 =
    if bytes_less e1.ancestor e2.ancestor
    then true
    else if bytes_less e2.ancestor e1.ancestor
    then false
    else bytes_less e1.ours e2.ours

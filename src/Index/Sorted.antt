-- ===== src/Index/Sorted.antt =====
-- The sorting of the entries in index.go.
use git4go.Common.{
  ℕ, Ordering, ◌≡◌, refl, sym, ap, ◌∙◌, Bool, true, false, List, [], ◌∷◌, ◌+◌, ◌/◌, ◌%◌, ◌<◌, ◌≤◌,
  ◌⊎◌, inl, inr, leb, ◌&&◌, arith, ltb, if◌then◌else◌, bytes_compare, bytes_compare_self,
  bytes_compare-eq, bytes_compare_flip,
}
use git4go.Common.Bits.{bit_and-shifted}
use git4go.Common.Masks.{low_two}
use git4go.Common.Sorting.{IsSorted, sort_by-perm, sort_by-IsSorted}
use git4go.Index.Entry.{IndexEntry, stage}
use git4go.Index.Order.{to_lower, path_stage_less, entry_less, entry_less_folded}
use git4go.Index.Store.{Index, sort_entries_if_needed}
use mathlib.Core.List.{Perm}

abbrev by_stage : Ordering → ℕ → ℕ → Bool
by_stage c s t = elim c [ Ordering.lt ↦ true | Ordering.eq ↦ ltb s t | Ordering.gt ↦ false ]

by_stage_asym :
    (c d : Ordering) (s t : ℕ)
    → (c ≡ Ordering.lt → d ≡ Ordering.gt)
    → (c ≡ Ordering.eq → d ≡ Ordering.eq)
    → by_stage c s t ≡ true
    → by_stage d t s ≡ false
by_stage_asym Ordering.lt d s t below same h = rw (below refl) refl
by_stage_asym Ordering.eq d s t below same h = rw (same refl) (ground arith)
by_stage_asym Ordering.gt d s t below same h = cc

path_stage_less_asym :
    (p q : List ℕ) (s t : ℕ) → path_stage_less p q s t ≡ true → path_stage_less q p t s ≡ false
unfolding path_stage_less
path_stage_less_asym p q s t h =
    by_stage_asym (bytes_compare p q) (bytes_compare q p) s t (bytes_compare_flip p q).1
      (λ e. ap (λ r. bytes_compare r p) (sym (bytes_compare-eq p q e)) ∙ bytes_compare_self p) h

-- The order that the flag of ignoreCase chooses.
abbrev order : Bool → IndexEntry → IndexEntry → Bool
order ignore_case = if ignore_case then entry_less_folded else entry_less

less_asym :
    (ignore_case : Bool) (x y : IndexEntry)
    → order ignore_case x y ≡ true
    → order ignore_case y x ≡ false
unfolding entry_less entry_less_folded
less_asym true x y h =
    path_stage_less_asym (to_lower x.path) (to_lower y.path) (stage x) (stage y) h
less_asym false x y h = path_stage_less_asym x.path y.path (stage x) (stage y) h

-- A path comes before another: at the first byte that differs its byte is the smaller one, or it ends.
abbrev pub Before : List ℕ → List ℕ → Type 0
Before p [] = ⊥
Before [] (d ∷ q) = Unit {0}
Before (c ∷ p) (d ∷ q) = (c < d) ⊎ ((c ≡ d) × Before p q)

-- A path as it is compared: where case is ignored, with small letters for the capitals from A to Z.
abbrev pub folded : Bool → List ℕ → List ℕ
folded false p = p
folded true [] = []
folded true (c ∷ p) = (if leb 65 c && leb c 90 then c + 32 else c) ∷ folded true p

-- The two bits of an entry's flags that are its stage.
abbrev pub stage_bits : IndexEntry → ℕ
stage_bits e = e.flags / 4096 % 4

-- An entry may stand before another: its path comes before, or the paths are the same and its stage is
-- not the greater one.
abbrev pub InOrder : (ignore_case : Bool) → IndexEntry → IndexEntry → Type 0
InOrder ignore_case e e' =
    Before (folded ignore_case e.path) (folded ignore_case e'.path)
    ⊎ ((folded ignore_case e.path ≡ folded ignore_case e'.path) × (stage_bits e ≤ stage_bits e'))

-- Each entry is in order with the next.
abbrev pub AreInOrder : (ignore_case : Bool) → List IndexEntry → Type 0
AreInOrder ignore_case [] = Unit {0}
AreInOrder ignore_case (e ∷ []) = Unit {0}
AreInOrder ignore_case (e ∷ e' ∷ es) = InOrder ignore_case e e' × AreInOrder ignore_case (e' ∷ es)

bytes_compare-Before : (p q : List ℕ) → bytes_compare p q ≡ Ordering.lt → Before p q
unfolding bytes_compare
bytes_compare-Before [] [] h = cc
bytes_compare-Before (c ∷ p) [] h = cc
bytes_compare-Before [] (d ∷ q) h = tt
bytes_compare-Before (c ∷ p) (d ∷ q) h = ground (arith, bytes_compare-Before p q)

folded_lem :
    (ignore_case : Bool) (p : List ℕ)
    → folded ignore_case p ≡ (if ignore_case then to_lower p else p)
unfolding to_lower
folded_lem false p = refl
folded_lem true [] = refl
folded_lem true (c ∷ p) =
    ap (λ l. (if leb 65 c && leb c 90 then c + 32 else c) ∷ l) (folded_lem true p)

stage_lem : (e : IndexEntry) → stage e ≡ stage_bits e
unfolding stage
stage_lem e = omega (arith, bit_and-shifted 12 e.flags 3, low_two (e.flags / 4096))

-- What is not behind another path and stage is in order with it.
path_stage_less-false :
    (p q : List ℕ) (s t : ℕ) → path_stage_less q p t s ≡ false → Before p q ⊎ ((p ≡ q) × (s ≤ t))
unfolding path_stage_less
path_stage_less-false p q s t h = split (bytes_compare q p) refl h
  where
    split :
        (c : Ordering)
        → bytes_compare q p ≡ c
        → by_stage c t s ≡ false
        → Before p q ⊎ ((p ≡ q) × (s ≤ t))
    split Ordering.lt e k = cc
    split Ordering.eq e k = inr (sym (bytes_compare-eq q p e), ground arith)
    split Ordering.gt e k = inl (bytes_compare-Before p q ((bytes_compare_flip q p).0 e))

order-false :
    (ignore_case : Bool) (e e' : IndexEntry)
    → order ignore_case e' e ≡ false
    → InOrder ignore_case e e'
unfolding entry_less entry_less_folded
order-false true e e' h =
    rw (folded_lem true e.path, folded_lem true e'.path)
      (rw (stage_lem e, stage_lem e') at
        (path_stage_less-false (to_lower e.path) (to_lower e'.path) (stage e) (stage e') h))
order-false false e e' h =
    rw (stage_lem e, stage_lem e') at (path_stage_less-false e.path e'.path (stage e) (stage e') h)

IsSorted-AreInOrder :
    (ignore_case : Bool) (es : List IndexEntry)
    → IsSorted (order ignore_case) es
    → AreInOrder ignore_case es
IsSorted-AreInOrder ignore_case [] h = tt
IsSorted-AreInOrder ignore_case (e ∷ []) h = tt
IsSorted-AreInOrder ignore_case (e ∷ e' ∷ es) h =
    (order-false ignore_case e e' h.0, IsSorted-AreInOrder ignore_case (e' ∷ es) h.1)

-- sortEntriesIfNeeded on an index that is not marked as sorted puts the entries in the ascending order
-- of their paths, by the bytes, with or without regard to case, and of their stages where the paths are
-- the same; it keeps each of them, and does not mark the index as sorted.
pub sort_entries_if_needed-AreInOrder :
    (v : Index) (ignore_case : Bool)
    → v.entries_sorted ≡ false
    → AreInOrder ignore_case (sort_entries_if_needed v ignore_case).entries
      × Perm (sort_entries_if_needed v ignore_case).entries v.entries
      × ((sort_entries_if_needed v ignore_case).entries_sorted ≡ false)
unfolding sort_entries_if_needed
sort_entries_if_needed-AreInOrder v ignore_case h = simp h (
  IsSorted-AreInOrder ignore_case _
      (sort_by-IsSorted (order ignore_case) (less_asym ignore_case) v.entries),
  sort_by-perm (order ignore_case) v.entries,
  refl,
)

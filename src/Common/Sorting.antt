-- ===== src/Common/Sorting.antt =====
-- sort.Sort, by insertion: two elements of which neither is less keep their order.
use git4go.Common.Lists.{All}
use git4go.Common.Tests.{if◌then◌else◌, if_both, if_split}
use mathlib.Core.Path.{◌≡◌}
use mathlib.Core.Bool.{Bool, true, false}
use mathlib.Core.List.{List, [], ◌∷◌, Perm}
use mathlib.Core.List.Perm

module _ {ℓ} {A : Type ℓ} where
  unfoldable pub insert_by : (less : A → A → Bool) → A → List A → List A
  insert_by less e [] = e ∷ []
  insert_by less e (x ∷ xs) =
      let rest = insert_by less e xs in if less x e then x ∷ rest else e ∷ (x ∷ xs)

  unfoldable pub sort_by : (less : A → A → Bool) → List A → List A
  unfolding insert_by
  sort_by less [] = []
  sort_by less (e ∷ es) = insert_by less e (sort_by less es)

  -- No element is less than the one before it.
  abbrev pub IsSorted : (less : A → A → Bool) → List A → Type 0
  IsSorted less [] = Unit {0}
  IsSorted less (x ∷ []) = Unit {0}
  IsSorted less (x ∷ y ∷ xs) = (less y x ≡ false) × IsSorted less (y ∷ xs)

  insert_by-perm : (less : A → A → Bool) (e : A) (xs : List A) → Perm (insert_by less e xs) (e ∷ xs)
  unfolding insert_by
  insert_by-perm less e [] = Perm.refl _
  insert_by-perm less e (x ∷ xs) =
      if_both (λ l. Perm l (e ∷ (x ∷ xs))) (less x e)
        (Perm.trans (Perm.cons x (insert_by-perm less e xs)) (Perm.swap _ _ _)) (Perm.refl _)

  pub sort_by-perm : (less : A → A → Bool) (xs : List A) → Perm (sort_by less xs) xs
  unfolding sort_by
  sort_by-perm less [] = Perm.refl []
  sort_by-perm less (x ∷ xs) =
      Perm.trans (insert_by-perm less x (sort_by less xs)) (Perm.cons x (sort_by-perm less xs))

  -- An order that does not put each of two elements before the other sorts.
  module _ (less : A → A → Bool) (asym : (x y : A) → less x y ≡ true → less y x ≡ false) where
    behind :
        (x e : A) (xs : List A)
        → less e x ≡ false
        → IsSorted less (x ∷ xs)
        → IsSorted less (x ∷ insert_by less e xs)
    unfolding insert_by
    behind x e [] h s = (h, tt)
    behind x e (y ∷ ys) h s =
        if_split (λ l. IsSorted less (x ∷ l)) (less y e)
          (λ p. (s.0, behind y e ys (asym y e p) s.1)) (λ p. (h, (p, s.1)))

    insert_by-IsSorted :
        (e : A) (xs : List A) → IsSorted less xs → IsSorted less (insert_by less e xs)
    unfolding insert_by
    insert_by-IsSorted e [] s = tt
    insert_by-IsSorted e (x ∷ xs) s =
        if_split (IsSorted less) (less x e) (λ p. behind x e xs (asym x e p) s) (λ p. (p, s))

    pub sort_by-IsSorted : (xs : List A) → IsSorted less (sort_by less xs)
    unfolding sort_by
    sort_by-IsSorted [] = tt
    sort_by-IsSorted (x ∷ xs) = insert_by-IsSorted x _ (sort_by-IsSorted xs)

  insert_by-All :
      (P : A → Type 0) (less : A → A → Bool) (e : A) (xs : List A)
      → P e
      → All P xs
      → All P (insert_by less e xs)
  unfolding insert_by
  insert_by-All P less e [] p h = (p, tt)
  insert_by-All P less e (x ∷ xs) p h =
      if_both (All P) (less x e) (h.0, insert_by-All P less e xs p h.1) (p, h)

  pub sort_by-All :
      (P : A → Type 0) (less : A → A → Bool) (xs : List A) → All P xs → All P (sort_by less xs)
  unfolding sort_by
  sort_by-All P less [] h = tt
  sort_by-All P less (x ∷ xs) h = insert_by-All P less x _ h.0 (sort_by-All P less xs h.1)

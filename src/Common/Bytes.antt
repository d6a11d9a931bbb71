-- ===== src/Common/Bytes.antt =====
-- Comparing and indexing byte slices, as Go's bytes package and index expressions do.
use Prim.Native.Nat.{ℕ, compare, Ordering}
use mathlib.Core.Path.{◌≡◌, refl, sym, ◌∙◌, subst}
use mathlib.Core.Bool.{Bool, true, false, ◌&&◌}
use mathlib.Core.Option.{Option, none, some}
use mathlib.Core.List.{List, [], ◌∷◌}
use native.Mathlib.Omega.{arith}
use git4go.Common.Lists.{get_elem?}
use git4go.Common.Tests.{Bool-cases}
use mathlib.Core.Logic.{inl, inr}
use git4go.Common.Outcomes.{Outcome, ok, panic}

-- bytes.Compare, and `<` on strings.
unfoldable pub bytes_compare : List ℕ → List ℕ → Ordering
bytes_compare [] [] = Ordering.eq
bytes_compare [] (y ∷ ys) = Ordering.lt
bytes_compare (x ∷ xs) [] = Ordering.gt
bytes_compare (x ∷ xs) (y ∷ ys) =
    let rest = bytes_compare xs ys in elim (compare x y) [ Ordering.eq ↦ rest | c ↦ c ]

-- bytes.Equal, and `==` on strings.
unfoldable pub bytes_equal : List ℕ → List ℕ → Bool
unfolding bytes_compare
bytes_equal xs ys = elim (bytes_compare xs ys) [ Ordering.eq ↦ true | _ ↦ false ]

abbrev pub or_panic {ℓ κ} : {A : Type ℓ} {E : Type κ} → Option A → Outcome E A
or_panic none = panic
or_panic (some a) = ok a

abbrev pub or_else {ℓ} : {A : Type ℓ} → Option A → A → A
or_else none a = a
or_else (some b) a = b

-- `buffer[i]`.
abbrev pub byte_at {ℓ} : {E : Type ℓ} → List ℕ → ℕ → Outcome E ℕ
byte_at buffer i = or_panic (get_elem? buffer i)

pub bytes_equal_self : (xs : List ℕ) → bytes_equal xs xs ≡ true
unfolding bytes_equal bytes_compare
bytes_equal_self [] = refl
bytes_equal_self (x ∷ xs) = ground (arith, bytes_equal_self xs)

pub bytes_compare_self : (xs : List ℕ) → bytes_compare xs xs ≡ Ordering.eq
unfolding bytes_compare
bytes_compare_self [] = refl
bytes_compare_self (x ∷ xs) = ground (arith, bytes_compare_self xs)

pub bytes_compare-eq : (xs ys : List ℕ) → bytes_compare xs ys ≡ Ordering.eq → xs ≡ ys
unfolding bytes_compare
bytes_compare-eq [] [] h = refl
bytes_compare-eq [] (y ∷ ys) h = cc
bytes_compare-eq (x ∷ xs) [] h = cc
bytes_compare-eq (x ∷ xs) (y ∷ ys) h = grind (arith, bytes_compare-eq xs ys)

pub bytes_equal_sound : (xs ys : List ℕ) → bytes_equal xs ys ≡ true → xs ≡ ys
unfolding bytes_equal
bytes_equal_sound xs ys h = bytes_compare-eq xs ys (equal (bytes_compare xs ys) h)
  where
    equal : (c : Ordering) → elim c [ Ordering.eq ↦ true | _ ↦ false ] ≡ true → c ≡ Ordering.eq
    equal Ordering.lt h = cc
    equal Ordering.eq h = refl
    equal Ordering.gt h = cc

-- Two texts that differ are not both equal to a third.
pub bytes_equal-both :
    (k key n : List ℕ) → bytes_equal k key ≡ false → bytes_equal k n && bytes_equal key n ≡ false
bytes_equal-both k key n h = elim (Bool-cases (bytes_equal k n)) [
  | inr p ↦ rw p refl
  | inl p ↦ elim (Bool-cases (bytes_equal key n)) [
    | inr q ↦ rw (p, q) refl
    | inl q ↦
        let same : k ≡ key = bytes_equal_sound k n p ∙ sym (bytes_equal_sound key n q) in
        cc (sym (bytes_equal_self key) ∙ subst (λ t. bytes_equal t key ≡ false) same h)
  ]
]

pub bytes_compare_trans :
    (xs ys zs : List ℕ)
    → bytes_compare xs ys ≡ Ordering.lt
    → bytes_compare ys zs ≡ Ordering.lt
    → bytes_compare xs zs ≡ Ordering.lt
unfolding bytes_compare
bytes_compare_trans [] [] zs h k = cc
bytes_compare_trans [] (y ∷ ys) [] h k = cc
bytes_compare_trans [] (y ∷ ys) (z ∷ zs) h k = refl
bytes_compare_trans (x ∷ xs) [] zs h k = cc
bytes_compare_trans (x ∷ xs) (y ∷ ys) [] h k = cc
bytes_compare_trans (x ∷ xs) (y ∷ ys) (z ∷ zs) h k = ground (arith, bytes_compare_trans xs ys zs)

pub bytes_compare_flip :
    (xs ys : List ℕ)
    → (bytes_compare xs ys ≡ Ordering.gt → bytes_compare ys xs ≡ Ordering.lt)
      × (bytes_compare xs ys ≡ Ordering.lt → bytes_compare ys xs ≡ Ordering.gt)
unfolding bytes_compare
bytes_compare_flip [] [] = (λ h. cc, λ h. cc)
bytes_compare_flip [] (y ∷ ys) = (λ h. cc, λ h. refl)
bytes_compare_flip (x ∷ xs) [] = (λ h. refl, λ h. cc)
bytes_compare_flip (x ∷ xs) (y ∷ ys) = (
  λ h. ground (arith, (bytes_compare_flip xs ys).0),
  λ h. ground (arith, (bytes_compare_flip xs ys).1),
)

-- ===== src/Common/Lists.antt =====
-- Go slices as lists over the native numbers: length, the two halves, indexing and `copy`.
use Prim.Native.Nat.{ℕ, zero, suc, ◌+◌, ◌-◌, ◌≤◌}
use mathlib.Core.Path.{◌≡◌, refl, sym, ◌∙◌, ap}
use mathlib.Core.Option.{Option, none, some}
use mathlib.Core.List.{List, [], ◌∷◌, ◌++◌}
use native.Mathlib.Omega.{arith}
use native.Mathlib.Numerals.{unary_clauses}

suc_add : (a b : ℕ) → suc a + b ≡ suc (a + b)
suc_add a b = omega arith

zero_add : (a : ℕ) → 0 + a ≡ a
zero_add a = omega arith

module _ {ℓ} {A : Type ℓ} where
  abbrev pub length : List A → ℕ
  length [] = 0
  length (x ∷ xs) = suc (length xs)

  abbrev pub get_elem? : List A → ℕ → Option A
  get_elem? [] i = none
  get_elem? (x ∷ xs) zero = some x
  get_elem? (x ∷ xs) (suc i) = get_elem? xs i

  abbrev pub set : List A → ℕ → A → List A
  set [] i v = []
  set (x ∷ xs) zero v = v ∷ xs
  set (x ∷ xs) (suc i) v = x ∷ set xs i v

  abbrev pub take : ℕ → List A → List A
  take zero xs = []
  take (suc n) [] = []
  take (suc n) (x ∷ xs) = x ∷ take n xs

  abbrev pub drop : ℕ → List A → List A
  drop zero xs = xs
  drop (suc n) [] = []
  drop (suc n) (x ∷ xs) = drop n xs

  abbrev pub replicate : ℕ → A → List A
  replicate zero x = []
  replicate (suc n) x = x ∷ replicate n x

  abbrev pub All {κ} : (A → Type κ) → List A → Type κ
  All P [] = Unit {κ}
  All P (x ∷ xs) = P x × All P xs

  -- Go's `copy(dst, src)`: as many elements as both hold.
  abbrev pub overwrite : List A → List A → List A
  overwrite [] src = []
  overwrite (d ∷ ds) [] = d ∷ ds
  overwrite (d ∷ ds) (s ∷ ss) = s ∷ overwrite ds ss

  -- Go's `copy(dst[offset:], src)` for an offset within `dst`.
  abbrev pub copy_at : List A → ℕ → List A → List A
  copy_at dst zero src = overwrite dst src
  copy_at [] (suc n) src = []
  copy_at (d ∷ ds) (suc n) src = d ∷ copy_at ds n src

  pub length-append : (xs ys : List A) → length (xs ++ ys) ≡ length xs + length ys
  length-append [] ys = omega arith
  length-append (x ∷ xs) ys = omega (arith, length-append xs ys)

  pub take-append-drop : (n : ℕ) (xs : List A) → take n xs ++ drop n xs ≡ xs
  take-append-drop zero xs = refl
  take-append-drop (suc n) [] = refl
  take-append-drop (suc n) (x ∷ xs) = ap (◌∷◌ x) (take-append-drop n xs)

  pub length-take : (n : ℕ) (xs : List A) → n ≤ length xs → length (take n xs) ≡ n
  length-take zero xs h = refl
  length-take (suc n) [] h = absurd (omega arith)
  length-take (suc n) (x ∷ xs) h = omega (arith, length-take n xs (omega arith))

  pub length-take-le : (n : ℕ) (xs : List A) → length (take n xs) ≤ length xs
  length-take-le zero xs = omega arith
  length-take-le (suc n) [] = omega arith
  length-take-le (suc n) (x ∷ xs) = omega (arith, length-take-le n xs)

  pub length-drop : (n : ℕ) (xs : List A) → length (drop n xs) ≡ length xs - n
  length-drop zero xs = omega arith
  length-drop (suc n) [] = omega arith
  length-drop (suc n) (x ∷ xs) = omega (arith, length-drop n xs)

  pub take_all : (xs : List A) → take (length xs) xs ≡ xs
  take_all [] = refl
  take_all (x ∷ xs) = ap (◌∷◌ x) (take_all xs)

  pub drop_all : (n : ℕ) (xs : List A) → length xs ≤ n → drop n xs ≡ []
  drop_all zero [] h = refl
  drop_all zero (x ∷ xs) h = absurd (omega arith)
  drop_all (suc n) [] h = refl
  drop_all (suc n) (x ∷ xs) h = drop_all n xs (omega arith)

  pub take-append_left : (n : ℕ) (xs ys : List A) → n ≤ length xs → take n (xs ++ ys) ≡ take n xs
  take-append_left zero xs ys h = refl
  take-append_left (suc n) [] ys h = absurd (omega arith)
  take-append_left (suc n) (x ∷ xs) ys h = ap (◌∷◌ x) (take-append_left n xs ys (omega arith))

  pub drop-append_left :
      (n : ℕ) (xs ys : List A) → n ≤ length xs → drop n (xs ++ ys) ≡ drop n xs ++ ys
  drop-append_left zero xs ys h = refl
  drop-append_left (suc n) [] ys h = absurd (omega arith)
  drop-append_left (suc n) (x ∷ xs) ys h = drop-append_left n xs ys (omega arith)

  pub take-append_self : (xs ys : List A) → take (length xs) (xs ++ ys) ≡ xs
  take-append_self [] ys = refl
  take-append_self (x ∷ xs) ys = ap (◌∷◌ x) (take-append_self xs ys)

  pub drop-append_self : (xs ys : List A) → drop (length xs) (xs ++ ys) ≡ ys
  drop-append_self [] ys = refl
  drop-append_self (x ∷ xs) ys = drop-append_self xs ys

  pub drop-nil : (n : ℕ) → drop n [] ≡ []
  drop-nil zero = refl
  drop-nil (suc n) = refl

  pub drop-drop : (m n : ℕ) (xs : List A) → drop m (drop n xs) ≡ drop (n + m) xs
  drop-drop m zero xs = ap (λ k. drop k xs) (omega arith)
  drop-drop m (suc n) [] = drop-nil m ∙ sym (drop-nil (suc n + m))
  drop-drop m (suc n) (x ∷ xs) = drop-drop m n xs ∙ ap (λ k. drop k (x ∷ xs)) (sym (suc_add n m))

  take-nil : (k : ℕ) → take k [] ≡ []
  take-nil zero = refl
  take-nil (suc k) = refl

  -- `take` of a sum, in the two parts that a reader consumes one after the other.
  pub take-add : (m n : ℕ) (xs : List A) → take (m + n) xs ≡ take m xs ++ take n (drop m xs)
  take-add zero n xs = ap (λ k. take k xs) (omega arith)
  take-add (suc m) n [] = ap (λ k. take k []) (suc_add m n) ∙ sym (take-nil n)
  take-add (suc m) n (x ∷ xs) =
      ap (λ k. take k (x ∷ xs)) (suc_add m n) ∙ ap (◌∷◌ x) (take-add m n xs)

  pub length-overwrite : (dst src : List A) → length (overwrite dst src) ≡ length dst
  length-overwrite [] src = refl
  length-overwrite (d ∷ ds) [] = refl
  length-overwrite (d ∷ ds) (s ∷ ss) = omega (arith, length-overwrite ds ss)

  pub length-copy_at :
      (dst : List A) (n : ℕ) (src : List A) → length (copy_at dst n src) ≡ length dst
  length-copy_at dst zero src = length-overwrite dst src
  length-copy_at [] (suc n) src = refl
  length-copy_at (d ∷ ds) (suc n) src = omega (arith, length-copy_at ds n src)

  pub overwrite-eq :
      (dst src : List A)
      → length src ≤ length dst
      → overwrite dst src ≡ src ++ drop (length src) dst
  overwrite-eq [] [] h = refl
  overwrite-eq [] (s ∷ ss) h = absurd (omega arith)
  overwrite-eq (d ∷ ds) [] h = refl
  overwrite-eq (d ∷ ds) (s ∷ ss) h = ap (◌∷◌ s) (overwrite-eq ds ss (omega arith))

  -- A copy that fits replaces exactly its own range.
  pub copy_at-append :
      (front back src : List A)
      → length src ≤ length back
      → copy_at (front ++ back) (length front) src ≡ front ++ (src ++ drop (length src) back)
  copy_at-append [] back src h = overwrite-eq back src h
  copy_at-append (x ∷ front) back src h = ap (◌∷◌ x) (copy_at-append front back src h)

  pub take-copy_at :
      (dst : List A) (n : ℕ) (src : List A)
      → n + length src ≤ length dst
      → take (n + length src) (copy_at dst n src) ≡ take n dst ++ src
  take-copy_at dst zero src h =
      ap (λ k. take k (overwrite dst src)) (zero_add (length src))
      ∙ rw (overwrite-eq dst src (omega arith)) (take-append_self src _)
    where
      zero_add : (a : ℕ) → 0 + a ≡ a
      zero_add a = omega arith
  take-copy_at [] (suc n) src h = absurd (omega arith)
  take-copy_at (d ∷ ds) (suc n) src h =
      ap (λ k. take k (copy_at (d ∷ ds) (suc n) src)) (suc_add n (length src))
      ∙ ap (◌∷◌ d) (take-copy_at ds n src (omega arith))

  pub length-replicate : (n : ℕ) (x : A) → length (replicate n x) ≡ n
  length-replicate zero x = refl
  length-replicate (suc n) x = omega (arith, length-replicate n x)

  pub All-append {κ} : (P : A → Type κ) (xs ys : List A) → All P xs → All P ys → All P (xs ++ ys)
  All-append P [] ys h k = k
  All-append P (x ∷ xs) ys h k = (h.0, All-append P xs ys h.1 k)

  pub All-take {κ} : (P : A → Type κ) (n : ℕ) (xs : List A) → All P xs → All P (take n xs)
  All-take P zero xs h = tt
  All-take P (suc n) [] h = tt
  All-take P (suc n) (x ∷ xs) h = (h.0, All-take P n xs h.1)

  pub All-drop {κ} : (P : A → Type κ) (n : ℕ) (xs : List A) → All P xs → All P (drop n xs)
  All-drop P zero xs h = h
  All-drop P (suc n) [] h = tt
  All-drop P (suc n) (x ∷ xs) h = All-drop P n xs h.1

  pub take-take : (n k : ℕ) (xs : List A) → n ≤ length (take k xs) → take n (take k xs) ≡ take n xs
  take-take zero k xs h = refl
  take-take (suc n) zero xs h = absurd (omega arith)
  take-take (suc n) (suc k) [] h = refl
  take-take (suc n) (suc k) (x ∷ xs) h = ap (◌∷◌ x) (take-take n k xs (omega arith))

  pub drop-replicate : (k n : ℕ) (x : A) → drop k (replicate n x) ≡ replicate (n - k) x
  drop-replicate zero n x = simp unary_clauses refl
  drop-replicate (suc k) zero x = ap (λ m. replicate m x) none_left
    where
      none_left : 0 ≡ 0 - suc k
      none_left = omega arith
  drop-replicate (suc k) (suc n) x = simp unary_clauses (drop-replicate k n x)

  pub get_elem?-none : (xs : List A) (i : ℕ) → length xs ≤ i → get_elem? xs i ≡ none
  get_elem?-none [] i h = refl
  get_elem?-none (x ∷ xs) zero h = absurd (omega arith)
  get_elem?-none (x ∷ xs) (suc i) h = get_elem?-none xs i (omega arith)

  pub get_elem?-append :
      (xs ys : List A) (i : ℕ) → get_elem? (xs ++ ys) (length xs + i) ≡ get_elem? ys i
  get_elem?-append [] ys i = ap (get_elem? ys) (zero_add i)
  get_elem?-append (x ∷ xs) ys i =
      ap (get_elem? (x ∷ (xs ++ ys))) (suc_add (length xs) i) ∙ get_elem?-append xs ys i

  pub drop-append_add : (xs ys : List A) (n : ℕ) → drop (length xs + n) (xs ++ ys) ≡ drop n ys
  drop-append_add [] ys n = ap (λ k. drop k ys) (zero_add n)
  drop-append_add (x ∷ xs) ys n =
      ap (λ k. drop k (x ∷ (xs ++ ys))) (suc_add (length xs) n) ∙ drop-append_add xs ys n

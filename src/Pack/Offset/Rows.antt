-- ===== src/Pack/Offset/Rows.antt =====
-- A well-formed index of version 2, and how findOffset of pack.go compares its rows with an id.
use git4go.Common.{
  ℕ, suc, ◌+◌, ◌*◌, ◌<◌, ◌≤◌, Ordering, ◌≡◌, refl, sym, ap, ap₂, ◌∙◌, false, List, [], ◌∷◌, arith,
  ◌==◌, length, take, drop, take_all, slice_range-start, ok, Slice, bytes_compare,
}
use git4go.Oid.{Oid, n_cmp, n_cmp_odd}
use git4go.Pack.Search.Position.{row_at, IsSorted}
use git4go.Pack.Offset.{PackIndex, FindError, level1}

abbrev pub ids : PackIndex → Slice
ids p = record { elems = drop (8 + 4 * 256) p.index_map; spare = [] }

abbrev pub first_byte : List ℕ → ℕ
first_byte [] = 0
first_byte (b ∷ bytes) = b

-- An index of version 2: its ids rise strictly, and `fan b` of them have no first byte above `b`.
pub record IsIndex (p : PackIndex) (fan : ℕ → ℕ) : Type 0 where
  pub version : p.index_version ≡ 2
  pub room : 8 + 4 * 256 ≤ length p.index_map
  pub sorted : IsSorted (ids p) 20 p.num_objects
  pub words : (b : ℕ) → b < 256 → level1 {E = FindError} p b ≡ ok (fan b)
  pub within : (b : ℕ) → fan b ≤ p.num_objects
  pub rising : (b : ℕ) → fan b ≤ fan (suc b)
  pub low : (b i : ℕ) → i < fan b → first_byte (row_at (ids p) 20 i) ≤ b
  pub high : (b i : ℕ) → fan b ≤ i → i < p.num_objects → b < first_byte (row_at (ids p) 20 i)

pub compare-first :
    (xs ys : List ℕ)
    → 0 < length xs
    → 0 < length ys
    → first_byte xs < first_byte ys
    → bytes_compare xs ys ≡ Ordering.lt
unfolding bytes_compare
compare-first [] ys h k lt = absurd (omega (arith, h))
compare-first (x ∷ xs) [] h k lt = absurd (omega (arith, k))
compare-first (x ∷ xs) (y ∷ ys) h k lt = ground (arith, lt)

pub suc_ne_zero : (b : ℕ) → (suc b == 0) ≡ false
suc_ne_zero b = ground arith

-- NCmp of whole ids says whether they are the same.
pub n_cmp-whole :
    (key id : Oid) (c : Ordering)
    → length key ≡ 20
    → length id ≡ 20
    → bytes_compare key id ≡ c
    → n_cmp {E = FindError} key id 40 ≡ ok c
unfolding n_cmp n_cmp_odd
n_cmp-whole key id c hk hi h =
    rw
      (
        slice_range-start {E = FindError} key 20 (omega (arith, hk)),
        slice_range-start {E = FindError} id 20 (omega (arith, hi)),
      )
      (ap (λ o. n_cmp_odd key id 40 o) (ap₂ bytes_compare (whole key hk) (whole id hi) ∙ h)
        ∙ even c)
  where
    whole : (l : List ℕ) → length l ≡ 20 → take 20 l ≡ l
    whole l twenty = ap (λ k. take k l) (sym twenty) ∙ take_all l

    even : (o : Ordering) → n_cmp_odd {E = FindError} key id 40 o ≡ ok o
    even Ordering.lt = refl
    even Ordering.eq = refl
    even Ordering.gt = refl

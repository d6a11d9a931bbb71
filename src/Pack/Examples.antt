-- ===== src/Pack/Examples.antt =====
-- Runs of pack.go.
use git4go.Common.{
  ℕ, zero, suc, ◌+◌, ◌*◌, ◌%◌, ◌^◌, ◌≤◌, ◌<◌, Ordering, ◌≡◌, refl, List, [], ◌∷◌, ◌++◌, arith,
  length, replicate, Outcome, ok, Slice, GitError, bytes_compare, ℤ, pos, negsuc,
}
use git4go.Pack.Header.{unpack_header}
use git4go.Pack.Header.RoundTrip.{encode_pack_header, unpack_header-encode_pack_header}
use git4go.Pack.Search.{sha1_position}
use git4go.Pack.Search.Position.{row_at, IsSorted, IsPosition, sha1_position-IsPosition}

abbrev two_rows : Slice
two_rows = record { elems = replicate 20 3 ++ replicate 20 5; spare = [] }

two_rows_fit : (i : ℕ) → i < 2 → i * 20 + 20 ≤ length two_rows.elems
two_rows_fit i h = omega arith

two_rows_rise :
    (i j : ℕ)
    → i < j
    → j < 2
    → bytes_compare (row_at two_rows 20 i) (row_at two_rows 20 j) ≡ Ordering.lt
unfolding bytes_compare
two_rows_rise zero zero h k = absurd (omega arith)
two_rows_rise zero (suc zero) h k = refl
two_rows_rise zero (suc (suc j)) h k = absurd (omega arith)
two_rows_rise (suc i) zero h k = absurd (omega arith)
two_rows_rise (suc i) (suc j) h k = absurd (omega arith)

two_rows-IsSorted : IsSorted two_rows 20 2
two_rows-IsSorted = record { few = omega arith; fits = two_rows_fit; rising = two_rows_rise }

-- Tests.
between_run : sha1_position {E = GitError} two_rows 20 0 2 (replicate 20 4) ≡ ok (negsuc 1)
unfolding sha1_position
between_run = refl

second_run : sha1_position {E = GitError} two_rows 20 0 2 (replicate 20 5) ≡ ok (pos 1)
unfolding sha1_position
second_run = refl

-- Witnesses.
sha1_position-IsPosition_example :
    (p : ℤ) × (sha1_position {E = GitError} two_rows 20 0 2 (replicate 20 5) ≡ ok p)
    × IsPosition two_rows 20 2 (replicate 20 5) p
sha1_position-IsPosition_example =
    sha1_position-IsPosition two_rows 20 2 (replicate 20 5) GitError 0 2 two_rows-IsSorted
      (omega arith) (omega arith) (λ i h. absurd (omega arith)) (λ i h k. absurd (omega arith))

abbrev window : ℕ → ℕ → Outcome GitError (List ℕ)
window offset n = ok (encode_pack_header 3 1000 ++ (120 ∷ 156 ∷ []))

unpack_header-encode_pack_header_example :
    unpack_header window 12
    ≡ ok (record {
      base_key = 0;
      obj_type = 3;
      offset = (12 + length (encode_pack_header 3 1000)) % 2 ^ 64;
      size = 1000;
    })
unpack_header-encode_pack_header_example =
    unpack_header-encode_pack_header window 12 3 1000 (120 ∷ 156 ∷ []) (omega arith) (omega arith)
      refl

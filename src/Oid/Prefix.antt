-- ===== src/Oid/Prefix.antt =====
-- Prefixes of ids in oid.go: NewOidFromPrefix and NCmp.
use git4go.Common.{
  bytes_compare_self, bytes_compare-eq, slice_range-start, overwrite-eq, drop-replicate,
  get_elem?-none, ℕ, zero, suc, ◌+◌, ◌-◌, ◌*◌, ◌/◌, ◌%◌, ◌≤◌, ◌<◌, Ordering, ◌≡◌, refl, sym, ap,
  ◌∙◌, ◌↔◌, false, Option, none, some, List, [], ◌∷◌, ◌++◌, arith, ltb, length, take, replicate,
  overwrite, length-take, All-take, take-take, Outcome, ◌>>=◌, ok-injective, ok, err, panic,
  GitError, or_error, from_hex, bytes_compare,
}
use git4go.Oid.{
  Oid, IsOid, zero_oid, hex_digit, hex_value, encode_to_string, decode_string, mask_low_digit,
  new_oid_from_prefix, string, n_cmp, n_cmp_odd,
}
use native.Mathlib.Numerals.{unary_clauses}
use git4go.Oid.RoundTrip.{decode_string-encode_to_string, length-encode_to_string}

decode_string_odd : (k : ℕ) (s : List ℕ) → length s ≡ 2 * k + 1 → decode_string s ≡ err from_hex
unfolding decode_string
decode_string_odd k [] h = absurd (omega arith)
decode_string_odd k (c ∷ []) h = refl
decode_string_odd zero (c ∷ c' ∷ s) h = absurd (omega arith)
decode_string_odd (suc k) (c ∷ c' ∷ s) h =
    stops (hex_value c) (hex_value c') (decode_string s) (decode_string_odd k s (omega arith))
  where
    stops :
        (v w : Option ℕ) (r : Outcome GitError (List ℕ))
        → r ≡ err from_hex
        → (or_error v from_hex >>= λ high.
            or_error w from_hex >>= λ low. r >>= λ bytes. ok ((high * 16 + low) ∷ bytes))
          ≡ err from_hex
    stops none w r p = refl
    stops (some v) none r p = refl
    stops (some v) (some w) r p = rw p refl

take-encode_to_string :
    (k : ℕ) (bytes : List ℕ)
    → take (2 * k) (encode_to_string bytes) ≡ encode_to_string (take k bytes)
unfolding encode_to_string
take-encode_to_string zero bytes = refl
take-encode_to_string (suc k) [] = simp unary_clauses refl
take-encode_to_string (suc k) (b ∷ bytes) =
    simp unary_clauses
      (ap (λ t. hex_digit (b / 16) ∷ hex_digit (b % 16) ∷ t) (take-encode_to_string k bytes))

-- NewOidFromPrefix refuses every text with an odd number of digits.
new_oid_from_prefix_odd :
    (k : ℕ) (s : List ℕ) → length s ≡ 2 * k + 1 → k < 20 → new_oid_from_prefix s ≡ err from_hex
unfolding new_oid_from_prefix
new_oid_from_prefix_odd k s h small = rw (decode_string_odd k s h) (ground arith)

-- An even number of digits of an id's text gives that id with the rest of its bytes 0.
pub new_oid_from_prefix-take :
    (k : ℕ) (oid : Oid)
    → IsOid oid
    → k ≤ 20
    → new_oid_from_prefix (take (2 * k) (string oid)) ≡ ok (take k oid ++ replicate (20 - k) 0)
unfolding new_oid_from_prefix string mask_low_digit
new_oid_from_prefix-take k oid h small =
    rw
      (
        take-encode_to_string k oid,
        decode_string-encode_to_string (take k oid) (All-take _ k oid h.1),
        digits,
        half_up,
        slice_range-start {E = GitError} (take k oid) k (omega (arith, size)),
        even,
        not_over,
      )
      (ap ok filled)
  where
    size : length (take k oid) ≡ k
    size = length-take k oid (omega (arith, h.0))

    digits : length (encode_to_string (take k oid)) ≡ 2 * k
    digits = omega (arith, size, length-encode_to_string (take k oid))

    half_up : (2 * k + 1) / 2 ≡ k
    half_up = omega arith

    even : 2 * k % 2 ≡ 0
    even = omega arith

    not_over : ltb 40 (2 * k) ≡ false
    not_over = ground arith

    filled : overwrite zero_oid (take k (take k oid)) ≡ take k oid ++ replicate (20 - k) 0
    filled =
        rw (take-take k k oid (omega (arith, size)), overwrite-eq zero_oid (take k oid) short, size)
          (ap (◌++◌ (take k oid)) (drop-replicate k 20 0))
      where
        short : length (take k oid) ≤ 20
        short = omega (arith, size)

take-string_injective :
    (k : ℕ) (oid oid2 : Oid)
    → IsOid oid
    → IsOid oid2
    → take (2 * k) (string oid) ≡ take (2 * k) (string oid2)
    → take k oid ≡ take k oid2
unfolding string
take-string_injective k oid oid2 h h2 p = ok-injective (
    sym (decode_string-encode_to_string (take k oid) (All-take _ k oid h.1))
    ∙ ap decode_string (sym (take-encode_to_string k oid) ∙ p ∙ take-encode_to_string k oid2)
    ∙ decode_string-encode_to_string (take k oid2) (All-take _ k oid2 h2.1))

n_cmp-compare :
    (n : ℕ) (oid oid2 : Oid)
    → IsOid oid
    → IsOid oid2
    → n / 2 ≤ 20
    → n_cmp {E = GitError} oid oid2 n
      ≡ n_cmp_odd oid oid2 n (bytes_compare (take (n / 2) oid) (take (n / 2) oid2))
unfolding n_cmp
n_cmp-compare n oid oid2 h h2 small =
    rw
      (
        slice_range-start {E = GitError} oid (n / 2) (omega (arith, h.0)),
        slice_range-start {E = GitError} oid2 (n / 2) (omega (arith, h2.0)),
      )
      refl

n_cmp_even :
    (k : ℕ) (oid oid2 : Oid) (c : Ordering) → n_cmp_odd {E = GitError} oid oid2 (2 * k) c ≡ ok c
unfolding n_cmp_odd
n_cmp_even k oid oid2 Ordering.lt = refl
n_cmp_even k oid oid2 Ordering.eq = ground arith
n_cmp_even k oid oid2 Ordering.gt = refl

half : (k : ℕ) → 2 * k / 2 ≡ k
half k = omega arith

-- NCmp of an even number of digits, within the 40, is 0 exactly where the texts agree on them.
pub n_cmp-eq :
    (k : ℕ) (oid oid2 : Oid)
    → IsOid oid
    → IsOid oid2
    → k ≤ 20
    → (n_cmp {E = GitError} oid oid2 (2 * k) ≡ ok Ordering.eq)
      ↔ (take (2 * k) (string oid) ≡ take (2 * k) (string oid2))
unfolding string
n_cmp-eq k oid oid2 h h2 small = (
  λ e.
      take-encode_to_string k oid
      ∙ ap encode_to_string (bytes_compare-eq _ _ (ok-injective (sym compared ∙ e)))
      ∙ sym (take-encode_to_string k oid2),
  λ p.
      compared
      ∙ ap ok (
          ap (λ t. bytes_compare t (take k oid2)) (take-string_injective k oid oid2 h h2 p)
          ∙ bytes_compare_self (take k oid2)),
)
  where
    compared : n_cmp {E = GitError} oid oid2 (2 * k) ≡ ok (bytes_compare (take k oid) (take k oid2))
    compared =
        n_cmp-compare (2 * k) oid oid2 h h2 (omega arith)
        ∙ n_cmp_even k oid oid2 _
        ∙ rw (half k) refl

-- NCmp of 39 digits panics on every two ids that agree on the first 38.
n_cmp-39 :
    (oid oid2 : Oid)
    → IsOid oid
    → IsOid oid2
    → take 19 oid ≡ take 19 oid2
    → n_cmp {E = GitError} oid oid2 39 ≡ panic
unfolding n_cmp_odd
n_cmp-39 oid oid2 h h2 same =
    n_cmp-compare 39 oid oid2 h h2 (omega arith)
    ∙ ap (n_cmp_odd oid oid2 39)
        (ap (λ t. bytes_compare t (take 19 oid2)) same ∙ bytes_compare_self (take 19 oid2))
    ∙ past
  where
    past : n_cmp_odd {E = GitError} oid oid2 39 Ordering.eq ≡ panic
    past = rw (get_elem?-none oid 20 (omega (arith, h.0))) refl

-- ===== src/Pack/IndexSamples.antt =====
-- An index of one id, of which findOffset of pack.go finds the offset: tests and a witness.
use git4go.Common.{
  ℕ, zero, suc, ◌+◌, ◌*◌, ◌<◌, ◌≤◌, ◌≡◌, ◌≢◌, refl, sym, ap, true, some, List, [], ◌∷◌, ◌++◌, arith,
  dec_lt, if◌then◌else◌, replicate, ok, err, message, get_elem?, ◌⊎◌, ◌>>=◌, ltb, subst, ◌∙◌,
}
use git4go.Oid.{Oid}
use git4go.Util.{ntohl}
use git4go.Pack.Offset.{
  PackIndex, FindError, level1, word_at, find_offset, nth_packed_object_offset,
}
use git4go.Pack.Offset.Found.{find_offset-row}
use git4go.Pack.Offset.Rows.{ids, IsIndex, first_byte}
use git4go.Pack.Search.Position.{row_at}

-- An index of one id, whose first byte is 255.
abbrev one_id : Oid
one_id = replicate 20 255

abbrev after_zeros : List ℕ
after_zeros = (0 ∷ 0 ∷ 0 ∷ 1 ∷ []) ++ (one_id ++ (9 ∷ 9 ∷ 9 ∷ 9 ∷ 0 ∷ 0 ∷ 1 ∷ 4 ∷ []))

abbrev one_row : PackIndex
one_row = record {
  index_map = replicate 1028 0 ++ after_zeros;
  index_version = 2;
  num_objects = 1;
  bad_objects = [];
}

abbrev fan : ℕ → ℕ
fan b = if ltb b 255 then 0 else 1

get_elem?-zeros : (n i : ℕ) (rest : List ℕ) → i < n → get_elem? (replicate n 0 ++ rest) i ≡ some 0
get_elem?-zeros zero i rest h = absurd (omega (arith, h))
get_elem?-zeros (suc n) zero rest h = refl
get_elem?-zeros (suc n) (suc i) rest h = get_elem?-zeros n i rest (omega (arith, h))

zero_word :
    (n i : ℕ) (rest : List ℕ)
    → 4 * i + 3 < n
    → word_at {E = FindError} (replicate n 0 ++ rest) i ≡ ok 0
unfolding word_at ntohl
zero_word n i rest h =
    rw
      (
        get_elem?-zeros n (4 * i) rest (omega (arith, h)),
        get_elem?-zeros n (4 * i + 1) rest (omega (arith, h)),
        get_elem?-zeros n (4 * i + 2) rest (omega (arith, h)),
        get_elem?-zeros n (4 * i + 3) rest h,
      )
      refl

fan_low : (b : ℕ) → b < 255 → 0 ≡ fan b
fan_low b h = ground (arith, h)

last_word : level1 {E = FindError} one_row 255 ≡ ok 1
unfolding level1
last_word = refl

one_row-words : (b : ℕ) → b < 256 → level1 {E = FindError} one_row b ≡ ok (fan b)
unfolding level1
one_row-words b h = elim (dec_lt b 255) as (λ _. level1 {E = FindError} one_row b ≡ ok (fan b)) [
  | yes k ↦
      zero_word 1028 (2 + b) after_zeros (omega (arith, k)) ∙ ap (λ (v : ℕ). ok v) (fan_low b k)
  | no k ↦
      subst (λ c. level1 {E = FindError} one_row c ≡ ok (fan c)) {x = 255} {y = b}
        (omega (arith, h, k)) last_word
]

fan_within : (b : ℕ) → fan b ≤ 1
fan_within b = ground arith

fan_rising : (b : ℕ) → fan b ≤ fan (suc b)
fan_rising b = ground arith

fan_some : (b i : ℕ) → i < fan b → (255 ≤ b) × (i ≡ 0)
fan_some b i h = (ground (arith, h), omega (arith, h, fan_within b))

fan_none : (b i : ℕ) → fan b ≤ i → i < 1 → b < 255
fan_none b i h k = ground (arith, h, k)

only_row : row_at (ids one_row) 20 0 ≡ one_id
only_row = refl

one_row-IsIndex : IsIndex one_row fan
one_row-IsIndex = record {
  version = refl;
  room = omega arith;
  sorted = record {
    few = omega arith;
    fits = λ i h. omega (arith, h);
    rising = λ i j h k. absurd (omega (arith, h, k));
  };
  words = one_row-words;
  within = fan_within;
  rising = fan_rising;
  low = λ b i h.
      subst (λ k. first_byte (row_at (ids one_row) 20 k) ≤ b) (sym (fan_some b i h).1)
        (fan_some b i h).0;
  high = λ b i h k.
      subst (λ j. b < first_byte (row_at (ids one_row) 20 j)) {x = 0} {y = i} (omega (arith, k))
        (fan_none b i h k);
}

find_offset_run : find_offset one_row one_id 40 ≡ ok (260, one_id)
unfolding find_offset
find_offset_run = refl

find_offset-row_example :
    ((i : ℕ) × (i < 1)
      × (row_at (ids one_row) 20 i ≡ one_id)
      × (find_offset one_row one_id 40
          ≡ (do offset ← nth_packed_object_offset one_row i; ok (offset, one_id))))
    ⊎ (((i : ℕ) → i < 1 → row_at (ids one_row) 20 i ≢ one_id)
        × (find_offset one_row one_id 40
            ≡ err (record {
              not_found = true;
              error = message "failed to find offset for pack entry";
            })))
find_offset-row_example =
    find_offset-row one_row fan 255 (replicate 19 255) one_row-IsIndex refl (omega arith)

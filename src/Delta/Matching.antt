-- ===== src/Delta/Matching.antt =====
-- What sliceBlock and chooseMatch promise: blocks of 1 to 91 bytes, and a match that is a run which
-- the source and the target share.
use git4go.Common.{
  ℕ, ◌+◌, ◌/◌, ◌≤◌, ◌<◌, ◌≡◌, refl, subst, arith, List, [], ◌∷◌, length, take, drop, length-drop,
  length-take, if_both, Option, none, some, ltb,
}
use git4go.Delta.Blocks.{block_length, slice_block}
use git4go.Delta.Match.{Match, common_prefix, inside, longer, choose_loop, choose_match}

block_length_bounds :
    (rest : List ℕ) (n : ℕ)
    → n ≤ 90
    → (n ≤ block_length rest n)
      × (block_length rest n ≤ 91)
      × (block_length rest n ≤ n + length rest)
unfolding block_length
block_length_bounds [] n h = omega arith
block_length_bounds (b ∷ rest) n h = ground (arith, block_length_bounds rest (n + 1))

block_length_pos : (rest : List ℕ) → 0 < length rest → 0 < block_length rest 0
unfolding block_length
block_length_pos [] h = absurd (omega arith)
block_length_pos (b ∷ rest) h = ground (arith, block_length_bounds rest 1)

-- A block that begins within the buffer has 1 to 91 bytes and ends within it.
pub slice_block_bounds :
    (buffer : List ℕ) (pos : ℕ)
    → pos < length buffer
    → (0 < length (slice_block buffer pos))
      × (length (slice_block buffer pos) ≤ 91)
      × (pos + length (slice_block buffer pos) ≤ length buffer)
unfolding slice_block
slice_block_bounds buffer pos h = omega (
  arith,
  length-drop pos buffer,
  length-take (block_length (drop pos buffer) 0) (drop pos buffer)
      (omega (arith, block_length_bounds (drop pos buffer) 0)),
  block_length_bounds (drop pos buffer) 0,
  block_length_pos (drop pos buffer),
)

pub common_prefix-take :
    (ss ts : List ℕ) → take (common_prefix ss ts) ss ≡ take (common_prefix ss ts) ts
unfolding common_prefix
common_prefix-take [] [] = refl
common_prefix-take [] (t ∷ ts) = refl
common_prefix-take (s ∷ ss) [] = refl
common_prefix-take (s ∷ ss) (t ∷ ts) = ground (arith, common_prefix-take ss ts)

pub common_prefix-le :
    (ss ts : List ℕ) → (common_prefix ss ts ≤ length ss) × (common_prefix ss ts ≤ length ts)
unfolding common_prefix
common_prefix-le [] ts = omega arith
common_prefix-le (s ∷ ss) [] = omega arith
common_prefix-le (s ∷ ss) (t ∷ ts) = ground (arith, common_prefix-le ss ts)

-- The best run so far is as long as the two texts agree.
abbrev pub IsRun : List ℕ → List ℕ → Option Match → Type 0
IsRun source rest none = Unit {0}
IsRun source rest (some m) = m.length ≡ common_prefix (drop m.offset source) rest

longer-IsRun :
    (source rest : List ℕ) (rv : Option Match) (spos : ℕ)
    → IsRun source rest rv
    → IsRun source rest (some (longer rv (common_prefix (drop spos source) rest) spos))
unfolding longer
longer-IsRun source rest none spos h = refl
longer-IsRun source rest (some m) spos h =
    if_both (λ (r : Match). r.length ≡ common_prefix (drop r.offset source) rest) _ refl h

choose_loop-IsRun :
    (source positions rest : List ℕ) (rv : Option Match)
    → IsRun source rest rv
    → IsRun source rest (choose_loop source positions rest rv)
unfolding choose_loop
choose_loop-IsRun source [] rest rv h = h
choose_loop-IsRun source (spos ∷ positions) rest rv h =
    let better = longer-IsRun source rest rv spos h in
    if_both (IsRun source rest) (inside rv spos) (choose_loop-IsRun source positions rest rv h) (
      if_both (IsRun source rest) (ltb (length source / 5) best.length) {x = some best} better
        (choose_loop-IsRun source positions rest (some best) better))
  where
    best : Match
    best = longer rv (common_prefix (drop spos source) rest) spos

-- A match of chooseMatch is a run that the source has at its offset and the target where it is
-- looked for.
pub choose_match-run :
    (source positions rest : List ℕ) (m : Match)
    → choose_match source positions rest ≡ some m
    → (m.length ≤ length (drop m.offset source))
      × (m.length ≤ length rest)
      × (take m.length (drop m.offset source) ≡ take m.length rest)
unfolding choose_match
choose_match-run source positions rest m h = (
  rw is_run (common_prefix-le (drop m.offset source) rest).0,
  rw is_run (common_prefix-le (drop m.offset source) rest).1,
  rw is_run (common_prefix-take (drop m.offset source) rest),
)
  where
    is_run : m.length ≡ common_prefix (drop m.offset source) rest
    is_run = subst (IsRun source rest) h (choose_loop-IsRun source positions rest none tt)

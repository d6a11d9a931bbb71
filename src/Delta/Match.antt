-- ===== src/Delta/Match.antt =====
-- chooseMatch of delta.go: the longest run that the source and the rest of the target share, among
-- the offsets at which the source has the target's next block.
use git4go.Common.{
  ℕ, suc, ◌+◌, ◌/◌, Bool, false, Option, none, some, List, [], ◌∷◌, drop, ltb, ◌==◌, if◌then◌else◌,
  length as list_length,
}

pub record Match : Type 0 where
  pub length : ℕ
  pub offset : ℕ

-- The inner loop of chooseMatch: how far two byte strings agree.
unfoldable pub common_prefix : List ℕ → List ℕ → ℕ
common_prefix [] ts = 0
common_prefix (s ∷ ss) [] = 0
common_prefix (s ∷ ss) (t ∷ ts) = if s == t then suc (common_prefix ss ts) else 0

-- An offset inside the best run so far is passed over.
unfoldable pub inside : Option Match → ℕ → Bool
inside none spos = false
inside (some m) spos = ltb spos (m.offset + m.length)

unfoldable pub longer : Option Match → (length offset : ℕ) → Match
longer none length offset = record { length = length; offset = offset }
longer (some m) length offset =
    if ltb m.length length then record { length = length; offset = offset } else m

-- `rest` is the target from targetPos on.
unfoldable pub choose_loop : List ℕ → (positions rest : List ℕ) → Option Match → Option Match
unfolding common_prefix inside longer
choose_loop source [] rest rv = rv
choose_loop source (spos ∷ positions) rest rv =
    let rv' = longer rv (common_prefix (drop spos source) rest) spos in
    let skip = choose_loop source positions rest rv in
    let next = choose_loop source positions rest (some rv') in
    if inside rv spos
    then skip
    else if ltb (list_length source / 5) rv'.length
    then some rv'
    else next

unfoldable pub choose_match : List ℕ → (positions rest : List ℕ) → Option Match
unfolding choose_loop
choose_match source positions rest = choose_loop source positions rest none

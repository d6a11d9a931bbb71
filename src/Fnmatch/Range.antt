-- ===== src/Fnmatch/Range.antt =====
-- rangeMatch of fnmatch.go: a character against the brackets of a pattern.
use git4go.Common.{
  ℕ, zero, suc, ◌+◌, Bool, true, false, not, ◌&&◌, ◌||◌, Option, none, some, List, leb, ◌==◌,
  if◌then◌else◌, length, Outcome, ◌>>=◌, ok, stuck, GitError, or_else, byte_at,
}
use git4go.Fnmatch.Fold.{fnm_no_escape, fnm_path_name, fnm_case_fold, has, to_lower}

pub data RangeMatchResult : Type 0 where
  range_match range_no_match range_error : RangeMatchResult

-- What a part of the loop does: it returns from the function, or goes on with the character and the
-- offset.
pub data RangeStep : Type 0 where
  leave : RangeMatchResult → RangeStep
  go_on : (c offset : ℕ) (found : Bool) → RangeStep

-- A backslash that escapes: the next character stands for itself.
unfoldable pub unescape :
    (pattern : List ℕ) (flags offset c : ℕ) → Outcome GitError (Option (ℕ × ℕ))
unfolding has
unescape pattern flags offset c =
    if c == 92 && not (has flags fnm_no_escape)
    then if offset + 1 == length pattern
      then ok none
      else (do c' ← byte_at pattern (offset + 1); ok (some (c', offset + 1)))
    else ok (some (c, offset))

unfoldable pub fold : (flags c : ℕ) → ℕ
unfolding has to_lower
fold flags c = if has flags fnm_case_fold then to_lower c else c

-- The end of a range, unescaped.
unfoldable pub range_within : (test flags c : ℕ) (found : Bool) → Option (ℕ × ℕ) → RangeStep
unfolding fold
range_within test flags c found none = leave range_error
range_within test flags c found (some (c2, offset)) =
    go_on c offset (found || (leb c test && leb test (fold flags c2)))

-- Behind a dash: the end of a range, or the closing bracket.
unfoldable pub range_end :
    (pattern : List ℕ) (test flags c offset : ℕ) (found : Bool) → Outcome GitError RangeStep
unfolding unescape range_within
range_end pattern test flags c offset found =
    if offset + 2 == length pattern then ok (leave range_error) else (do
      c2 ← byte_at pattern (offset + 1)
      if c2 == 93 then ok (go_on c offset (found || (c == test))) else (do
        escaped ← unescape pattern flags (offset + 2) c2
        ok (range_within test flags c found escaped)))

-- A character, unescaped: a slash, a dash, or any other.
unfoldable pub range_character :
    (pattern : List ℕ) (test flags : ℕ) (found : Bool) → Option (ℕ × ℕ) → Outcome GitError RangeStep
unfolding range_end has fold
range_character pattern test flags found none = ok (leave range_error)
range_character pattern test flags found (some (c, offset)) =
    if c == 47 && has flags fnm_path_name
    then ok (leave range_no_match)
    else if fold flags c == 45
    then range_end pattern test flags (fold flags c) offset found
    else ok (go_on (fold flags c) offset (found || (fold flags c == test)))

-- One round up to the next character.
unfoldable pub range_step :
    (pattern : List ℕ) (test flags c offset : ℕ) (found : Bool) → Outcome GitError RangeStep
unfolding unescape range_character
range_step pattern test flags c offset found = do
  escaped ← unescape pattern flags offset c
  range_character pattern test flags found escaped

-- The end of a round: the loop goes on, is left, or has reached the closing bracket.
unfoldable pub range_next :
    (pattern : List ℕ) (negate : Bool)
    → RangeStep
    → ((c offset : ℕ) (found : Bool) → Outcome GitError (RangeMatchResult × Option ℕ))
    → Outcome GitError (RangeMatchResult × Option ℕ)
range_next pattern negate (leave result) again = ok (result, none)
range_next pattern negate (go_on c offset found) again = do
  c' ← byte_at pattern offset
  if c' == 93
      then ok (closed negate found, some (offset + 1))
      else if offset + 1 == length pattern
      then ok (range_error, none)
      else again c' (offset + 1) found
  where
    closed : Bool → Bool → RangeMatchResult
    closed true true = range_no_match
    closed true false = range_match
    closed false true = range_match
    closed false false = range_no_match

-- The loop: the result, and the offset behind the closing bracket where the loop reached it. Each
-- round passes over a character of the pattern.
unfoldable pub range_loop :
    ℕ
    → (pattern : List ℕ) (test flags : ℕ) (negate : Bool) (c offset : ℕ) (found : Bool)
    → Outcome GitError (RangeMatchResult × Option ℕ)
unfolding range_step range_next
range_loop zero pattern test flags negate c offset found = stuck
range_loop (suc fuel) pattern test flags negate c offset found = do
  step ← range_step pattern test flags c offset found
  range_next pattern negate step (range_loop fuel pattern test flags negate)

-- rangeMatch: the result with the offset that *originalPatternOffset has afterwards.
unfoldable pub range_match_at :
    (pattern : List ℕ) (test original_offset flags : ℕ) → Outcome GitError (RangeMatchResult × ℕ)
unfolding range_loop fold
range_match_at pattern test original_offset flags = do
  c ← byte_at pattern original_offset
  if c == 33 || (c == 94) then negated else run false c original_offset
  where
    run : Bool → ℕ → ℕ → Outcome GitError (RangeMatchResult × ℕ)
    run negate c offset = do
      (result, moved) ←
          range_loop (suc (length pattern)) pattern (fold flags test) flags negate c offset false
      ok (result, or_else moved original_offset)

    negated : Outcome GitError (RangeMatchResult × ℕ)
    negated =
        if original_offset + 1 == length pattern
        then ok (range_error, original_offset)
        else (do c ← byte_at pattern (original_offset + 1); run true c (original_offset + 1))

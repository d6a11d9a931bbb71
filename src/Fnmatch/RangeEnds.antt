-- ===== src/Fnmatch/RangeEnds.antt =====
-- rangeMatch of fnmatch.go ends on every input.
use git4go.Common.{
  if_split, or_else, Ends-weaken, ℕ, zero, suc, ◌+◌, ◌≤◌, ◌<◌, ◌≡◌, Bool, true, false, not, ◌&&◌,
  ◌||◌, Option, none, some, List, [], ◌∷◌, arith, ◌==◌, if_both, length, get_elem?, Outcome, ◌>>=◌,
  Ends, >>=-Ends, ok, GitError, or_panic, byte_at,
}
use git4go.Fnmatch.Fold.{fnm_no_escape, fnm_path_name, has}
use git4go.Fnmatch.Range.{
  RangeMatchResult, RangeStep, unescape, fold, range_within, range_end, range_character, range_step,
  range_next, range_loop, range_match_at, leave, go_on,
}

-- An offset that was not moved back.
Past : ℕ → Option (ℕ × ℕ) → Type 0
Past offset none = Unit {0}
Past offset (some p) = offset ≤ p.1

StepPast : ℕ → RangeStep → Type 0
StepPast offset (leave result) = Unit {0}
StepPast offset (go_on c offset' found) = offset ≤ offset'

StepPast-weaken :
    (offset offset' : ℕ)
    → offset ≤ offset'
    → (s : RangeStep) → StepPast offset' s
    → StepPast offset s
unfolding StepPast
StepPast-weaken offset offset' h (leave result) k = tt
StepPast-weaken offset offset' h (go_on c o found) k = omega arith

pub byte_at-Ends : (xs : List ℕ) (i : ℕ) → Ends {E = GitError} (λ _. i < length xs) (byte_at xs i)
byte_at-Ends [] i = tt
byte_at-Ends (x ∷ xs) zero = omega arith
byte_at-Ends (x ∷ xs) (suc i) = below (get_elem? xs i) (byte_at-Ends xs i)
  where
    below :
        (o : Option ℕ)
        → Ends {E = GitError} (λ _. i < length xs) (or_panic o)
        → Ends {E = GitError} (λ _. suc i < length (x ∷ xs)) (or_panic o)
    below none h = tt
    below (some v) h = omega arith

unescape-Ends :
    (pattern : List ℕ) (flags offset c : ℕ) → Ends (Past offset) (unescape pattern flags offset c)
unfolding unescape Past
unescape-Ends pattern flags offset c =
    if_both (Ends {E = GitError} (Past offset)) (c == 92 && not (has flags fnm_no_escape))
      (if_both (Ends {E = GitError} (Past offset)) (offset + 1 == length pattern) tt (
        >>=-Ends (λ _. offset + 1 < length pattern) (Past offset) _
          (λ c'. ok (some (c', offset + 1))) (byte_at-Ends pattern (offset + 1))
          (λ c' h. omega arith)))
      (omega arith)

range_end-Ends :
    (pattern : List ℕ) (test flags c offset : ℕ) (found : Bool)
    → Ends (StepPast offset) (range_end pattern test flags c offset found)
unfolding range_end StepPast
range_end-Ends pattern test flags c offset found =
    if_both (Ends {E = GitError} (StepPast offset)) (offset + 2 == length pattern) tt (
      >>=-Ends (λ _. offset + 1 < length pattern) (StepPast offset) _ _
        (byte_at-Ends pattern (offset + 1))
        (λ c2 h.
          if_both (Ends {E = GitError} (StepPast offset)) (c2 == 93)
            {x = ok (go_on c offset (found || (c == test)))} here
            (>>=-Ends (Past (offset + 2)) (StepPast offset) (unescape pattern flags (offset + 2) c2)
              (λ escaped. ok (range_within test flags c found escaped))
              (unescape-Ends pattern flags (offset + 2) c2) within)))
  where
    here : offset ≤ offset
    here = omega arith

    within :
        (o : Option (ℕ × ℕ))
        → Past (offset + 2) o
        → StepPast offset (range_within test flags c found o)
    within none h = unfold range_within in tt
    within (some p) h = unfold range_within Past in omega arith

range_step-Ends :
    (pattern : List ℕ) (test flags c offset : ℕ) (found : Bool)
    → Ends (StepPast offset) (range_step pattern test flags c offset found)
unfolding range_step StepPast Past range_character
range_step-Ends pattern test flags c offset found =
    >>=-Ends (Past offset) (StepPast offset) _ _ (unescape-Ends pattern flags offset c) character
  where
    character :
        (o : Option (ℕ × ℕ))
        → Past offset o
        → Ends (StepPast offset) (range_character pattern test flags found o)
    character none h = unfold range_character StepPast in tt
    character (some (c', offset')) h =
        unfold range_character Past in
        if_both (Ends {E = GitError} (StepPast offset)) (c' == 47 && has flags fnm_path_name) tt (
          if_both (Ends {E = GitError} (StepPast offset)) (fold flags c' == 45)
            (Ends-weaken (StepPast offset') (StepPast offset) _ (StepPast-weaken offset offset' h)
              (range_end-Ends pattern test flags (fold flags c') offset' found))
            h)

-- The offset that a matching loop leaves.
Moved : ℕ → RangeMatchResult × Option ℕ → Type 0
Moved offset (result, none) = Unit {0}
Moved offset (result, some o) = offset ≤ o

Moved-weaken :
    (offset offset' : ℕ)
    → offset ≤ offset'
    → (r : RangeMatchResult × Option ℕ) → Moved offset' r
    → Moved offset r
unfolding Moved
Moved-weaken offset offset' h (result, none) k = tt
Moved-weaken offset offset' h (result, some o) k = omega arith

range_next-Ends :
    (pattern : List ℕ) (negate : Bool) (offset : ℕ) (s : RangeStep)
    (again : (c offset : ℕ) (found : Bool) → Outcome GitError (RangeMatchResult × Option ℕ))
    → StepPast offset s
    → ((c o : ℕ) (found : Bool)
        → offset < o
        → o < length pattern
        → Ends (Moved o) (again c o found))
    → Ends (Moved offset) (range_next pattern negate s again)
unfolding range_next StepPast Moved
range_next-Ends pattern negate offset (leave result) again h rest = tt
range_next-Ends pattern negate offset (go_on c' offset' found') again h rest =
    >>=-Ends (λ _. offset' < length pattern) (Moved offset) (byte_at pattern offset') _
      (byte_at-Ends pattern offset')
      (λ c'' k. if_both (Ends {E = GitError} (Moved offset)) (c'' == 93) past (
        if_split (Ends {E = GitError} (Moved offset)) (offset' + 1 == length pattern) (λ _. tt)
          (λ e.
            Ends-weaken (Moved (offset' + 1)) (Moved offset) _
              (Moved-weaken offset (offset' + 1) past)
              (rest c'' (offset' + 1) found' (omega arith) (room k e)))))
  where
    past : offset ≤ offset' + 1
    past = omega arith

    room :
        offset' < length pattern
        → offset' + 1 == length pattern ≡ false
        → offset' + 1 < length pattern
    room k e = ground arith

range_loop-Ends :
    (fuel : ℕ) (pattern : List ℕ) (test flags : ℕ) (negate : Bool) (c offset : ℕ) (found : Bool)
    → offset < length pattern
    → length pattern ≤ offset + fuel
    → Ends (Moved offset) (range_loop fuel pattern test flags negate c offset found)
unfolding range_loop
range_loop-Ends zero pattern test flags negate c offset found inside enough = absurd (omega arith)
range_loop-Ends (suc fuel) pattern test flags negate c offset found inside enough =
    >>=-Ends (StepPast offset) (Moved offset) (range_step pattern test flags c offset found) _
      (range_step-Ends pattern test flags c offset found)
      (λ s h.
        range_next-Ends pattern negate offset s (range_loop fuel pattern test flags negate) h
          (λ c' o found' past within.
            range_loop-Ends fuel pattern test flags negate c' o found' within (omega arith)))

-- rangeMatch ends, with an offset that is not before the one it began at.
pub range_match_at-Ends :
    (pattern : List ℕ) (test original_offset flags : ℕ)
    → Ends (λ r. original_offset ≤ r.1) (range_match_at pattern test original_offset flags)
unfolding range_match_at Moved
range_match_at-Ends pattern test o flags =
    >>=-Ends (λ _. o < length pattern) (λ r. o ≤ r.1) (byte_at pattern o) _ (byte_at-Ends pattern o)
      (λ c h.
        if_both (Ends {E = GitError} (λ r. o ≤ r.1)) (c == 33 || (c == 94))
          (if_split (Ends {E = GitError} (λ r. o ≤ r.1)) (o + 1 == length pattern) (λ _. self)
            (λ e.
              >>=-Ends (λ _. o + 1 < length pattern) (λ r. o ≤ r.1) (byte_at pattern (o + 1)) _
                (byte_at-Ends pattern (o + 1)) (λ c' k. run true c' (o + 1) (omega arith) k)))
          (run false c o self h))
  where
    self : o ≤ o
    self = omega arith

    run :
        (negate : Bool) (c offset : ℕ)
        → o ≤ offset
        → offset < length pattern
        → Ends {E = GitError} {A = RangeMatchResult × ℕ}
            (λ r. o ≤ r.1)
            (range_loop (suc (length pattern)) pattern (fold flags test) flags negate c offset false
              >>= λ r. ok (r.0, or_else r.1 o))
    run negate c offset h inside =
        >>=-Ends (Moved offset) (λ r. o ≤ r.1) _ _
          (range_loop-Ends (suc (length pattern)) pattern (fold flags test) flags negate c offset
            false inside (omega arith))
          left
      where
        left : (r : RangeMatchResult × Option ℕ) → Moved offset r → o ≤ or_else r.1 o
        left (result, none) k = self
        left (result, some o') k = omega arith

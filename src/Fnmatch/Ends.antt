-- ===== src/Fnmatch/Ends.antt =====
-- fnMatch of fnmatch.go ends on every pattern and string.
use git4go.Common.{
  ℕ, zero, suc, ◌+◌, ◌-◌, ◌≤◌, ◌<◌, refl, ◌≢◌, inl, inr, Bool, ◌&&◌, Option, none, some, List, [],
  ◌∷◌, arith, ltb, ◌==◌, if_both, length, drop, Outcome, Ends, >>=-Ends, Ends-ne-stuck, Ends-weaken,
  ok, err, panic, stuck, GitError, byte_at,
}
use git4go.Fnmatch.Fold.{fnm_path_name, fnm_leading_dir, has}
use git4go.Fnmatch.RangeEnds.{byte_at-Ends}
use git4go.Fnmatch.Match.{
  Round, hidden_dot, index_slash, skip_stars, double_star, Recursion, star_loop, to_slash,
  behind_star, match_star_at, match_star, match_round, at_pattern_end, go, match_loop, fn_match_x,
  without_error, fn_match, return, continue_with,
}
use git4go.Fnmatch.RoundEnds.{
  Shrinks, Done, hidden_dot-Ends, match_character-Ends, match_any-Ends, match_escape-Ends,
  match_range-Ends,
}

skip_stars-Ends : (po : ℕ) (rest : List ℕ) → Ends {E = GitError} (λ o. po ≤ o) (skip_stars po rest)
unfolding skip_stars
skip_stars-Ends po [] = tt
skip_stars-Ends po (c ∷ rest) =
    if_both (Ends {E = GitError} (λ o. po ≤ o)) (c == 42)
      (Ends-weaken (λ o. po + 1 ≤ o) (λ o. po ≤ o) (skip_stars (po + 1) rest) (λ o h. omega arith)
        (skip_stars-Ends (po + 1) rest))
      (if_both (λ o. po ≤ o) (c == 47) (omega arith) (omega arith))

double_star-Ends :
    (pattern : List ℕ) (po flags : ℕ) → Ends (λ r. po ≤ r.0) (double_star pattern po flags)
unfolding double_star
double_star-Ends pattern po flags =
    if_both (Ends {E = GitError} (λ r. po ≤ r.0)) (ltb po (length pattern))
      (>>=-Ends (λ _. po < length pattern) (λ r. po ≤ r.0) (byte_at pattern po) _
        (byte_at-Ends pattern po)
        (λ c k.
          if_both (Ends {E = GitError} (λ r. po ≤ r.0)) (c == 42)
            (>>=-Ends (λ o. po ≤ o) (λ r. po ≤ r.0) (skip_stars po (drop po pattern)) _
              (skip_stars-Ends po (drop po pattern)) (λ o h. h))
            self))
      self
  where
    self : po ≤ po
    self = omega arith

module _ (call : Recursion) (calls : (po so flags : ℕ) → Ends Done (call po so flags)) where
  star_loop-Ends : (po so flags : ℕ) (rest : List ℕ) → Ends Done (star_loop call po so flags rest)
  unfolding star_loop Done
  star_loop-Ends po so flags [] = tt
  star_loop-Ends po so flags (test ∷ rest) =
      >>=-Ends Done Done (call po so flags) _ (calls po so flags) (λ matched _.
        if_both (Ends {E = GitError} {A = Bool} Done) matched tt (
          if_both (Ends {E = GitError} {A = Bool} Done) (test == 47 && has flags fnm_path_name) tt
            (star_loop-Ends po (so + 1) flags rest)))

  behind_star-Ends :
      (pattern str : List ℕ) (po po' so flags : ℕ)
      → po ≤ po'
      → Ends (Shrinks str po so) (behind_star call pattern str po' so flags)
  unfolding behind_star Shrinks to_slash
  behind_star-Ends pattern str po po' so flags h =
      >>=-Ends (λ _. po' < length pattern) (Shrinks str po so) (byte_at pattern po') _
        (byte_at-Ends pattern po')
        (λ c k.
          if_both (Ends {E = GitError} (Shrinks str po so)) (c == 47 && has flags fnm_path_name)
            (slash (index_slash (drop so str)))
            (>>=-Ends Done (Shrinks str po so) (star_loop call po' so flags (drop so str)) _
              (star_loop-Ends po' so flags (drop so str)) (λ matched _. tt)))
    where
      slash : (o : Option ℕ) → Shrinks str po so (to_slash po' so flags o)
      slash none = tt
      slash (some i) = (omega arith, inl h)

  match_star-Ends :
      (pattern str : List ℕ) (po initial so flags : ℕ)
      → Ends (Shrinks str po so) (match_star call pattern str po initial so flags)
  unfolding match_star match_star_at Shrinks
  match_star-Ends pattern str po initial so flags =
      >>=-Ends (λ r. po ≤ r.0) (Shrinks str po so) (double_star pattern po flags) _
        (double_star-Ends pattern po flags)
        (λ r h.
          >>=-Ends (λ _. so < length str) (Shrinks str po so) (byte_at str so) _
            (byte_at-Ends str so)
            (λ s k.
              >>=-Ends Done (Shrinks str po so) (hidden_dot str s initial so r.1) _
                (hidden_dot-Ends str so s initial r.1)
                (λ dot _. if_both (Ends {E = GitError} (Shrinks str po so)) dot tt (
                  if_both (Ends {E = GitError} (Shrinks str po so)) (r.0 == length pattern) tt
                    (behind_star-Ends pattern str po r.0 so r.1 h)))))

  match_round-Ends :
      (pattern str : List ℕ) (c po initial so flags : ℕ)
      → Ends (Shrinks str po so) (match_round call pattern str c po initial so flags)
  unfolding match_round
  match_round-Ends pattern str c po initial so flags =
      if_both P (c == 63) (match_any-Ends str so po initial flags) (
        if_both P (c == 42) (match_star-Ends pattern str po initial so flags) (
          if_both P (c == 91) (match_range-Ends str so pattern po initial flags) (
            if_both P (c == 92) (match_escape-Ends str so pattern po flags)
              (match_character-Ends str so c po po flags (omega arith)))))
    where
      P : Outcome GitError Round → Type 0
      P = Ends (Shrinks str po so)

  go-Ends :
      (pattern str : List ℕ) (po so : ℕ) (r : Round) (again : Recursion)
      → Shrinks str (po + 1) so r
      → po < length pattern
      → ((po' so' flags : ℕ)
          → (length pattern - po') + (length str - so') < (length pattern - po) + (length str - so)
          → Ends Done (again po' so' flags))
      → Ends Done (go r again)
  unfolding go Shrinks Done
  go-Ends pattern str po so (return result) again h inside rest = tt
  go-Ends pattern str po so (continue_with po' so' flags) again (h, inl k) inside rest =
      rest po' so' flags (omega arith)
  go-Ends pattern str po so (continue_with po' so' flags) again (h, inr k) inside rest =
      rest po' so' flags (omega (arith, k.0, k.1, k.2))

  at_pattern_end-Ends : (str : List ℕ) (so flags : ℕ) → Ends Done (at_pattern_end str so flags)
  unfolding at_pattern_end Done
  at_pattern_end-Ends str so flags =
      if_both (Ends {E = GitError} {A = Bool} Done) (has flags fnm_leading_dir)
        (>>=-Ends (λ _. 0 < length str) Done (byte_at str 0) _ (byte_at-Ends str 0) (λ first k. tt))
        tt

  match_loop-Ends :
      (fuel : ℕ) (pattern str : List ℕ) (initial po so flags : ℕ)
      → (length pattern - po) + (length str - so) < fuel
      → Ends Done (match_loop fuel call pattern str initial po so flags)
  unfolding match_loop
  match_loop-Ends zero pattern str initial po so flags enough = absurd (omega arith)
  match_loop-Ends (suc fuel) pattern str initial po so flags enough =
      if_both (Ends {E = GitError} {A = Bool} Done) (po == length pattern)
        (at_pattern_end-Ends str so flags)
        (>>=-Ends (λ _. po < length pattern) Done (byte_at pattern po) _ (byte_at-Ends pattern po)
          (λ c k.
            >>=-Ends (Shrinks str (po + 1) so) Done
              (match_round call pattern str c (po + 1) initial so flags) _
              (match_round-Ends pattern str c (po + 1) initial so flags)
              (λ r h.
                go-Ends pattern str po so r (match_loop fuel call pattern str initial) h k
                  (λ po' so' flags' less.
                    match_loop-Ends fuel pattern str initial po' so' flags' (omega arith)))))

fn_match_x-Ends :
    (recurs : ℕ) (pattern str : List ℕ) (po so flags : ℕ)
    → Ends Done (fn_match_x (suc recurs) pattern str po so flags)
unfolding fn_match_x
fn_match_x-Ends zero pattern str po so flags = tt
fn_match_x-Ends (suc recurs) pattern str po so flags =
    match_loop-Ends (fn_match_x (suc recurs) pattern str) (fn_match_x-Ends recurs pattern str)
      (suc (length pattern + length str)) pattern str so po so flags (omega arith)

-- fnMatch ends on every pattern and string, whatever the flags are: the lengths are fuel enough for
-- its loop, and so is the pattern's for the loop of rangeMatch.
pub fn_match-ne-stuck : (pattern str : List ℕ) (flags : ℕ) → fn_match pattern str flags ≢ stuck
unfolding fn_match without_error
fn_match-ne-stuck pattern str flags = ended (fn_match_x 64 pattern str 0 0 flags) (
    Ends-ne-stuck Done (fn_match_x 64 pattern str 0 0 flags)
      (fn_match_x-Ends 63 pattern str 0 0 flags))
  where
    ended : (r : Outcome GitError Bool) → r ≢ stuck → without_error r ≢ stuck
    ended (ok b) h = λ p. cc
    ended (err e) h = λ p. cc
    ended panic h = λ p. cc
    ended stuck h = absurd (h refl)

-- ===== src/Fnmatch/RoundEnds.antt =====
-- The cases of fnMatchX of fnmatch.go other than the star: each ends, and leaves less to match.
use git4go.Common.{
  ℕ, ◌+◌, ◌-◌, ◌≤◌, ◌<◌, ◌≡◌, refl, ◌⊎◌, inl, inr, Bool, true, false, not, ◌&&◌, ◌||◌, List, arith,
  ltb, ◌==◌, if◌then◌else◌, if_both, length, Ends, >>=-Ends, GitError, byte_at,
}
use git4go.Fnmatch.Fold.{
  fnm_no_escape, fnm_path_name, fnm_period, fnm_case_fold, has, case_insensitive_match,
}
use git4go.Fnmatch.Range.{
  RangeMatchResult, range_match_at, range_match, range_no_match, range_error,
}
use git4go.Fnmatch.RangeEnds.{byte_at-Ends, range_match_at-Ends}
use git4go.Fnmatch.Match.{
  Round, hidden_dot, match_character, match_any, behind_slash, after_range, match_range,
  match_escape, return, continue_with,
}

-- A round that goes on leaves more of the pattern behind, or more of the string. `po` is the offset
-- behind the character of the round.
unfoldable pub Shrinks : (str : List ℕ) (po so : ℕ) → Round → Type 0
Shrinks str po so (return result) = Unit {0}
Shrinks str po so (continue_with po' so' flags) =
    (so ≤ so') × ((po ≤ po') ⊎ ((po ≤ po' + 1) × (so < length str) × (so < so')))

unfoldable pub Done : {A : Type 0} → A → Type 0
Done a = Unit {0}

module _ (str : List ℕ) (so : ℕ) where
  pub hidden_dot-Ends : (s initial flags : ℕ) → Ends Done (hidden_dot str s initial so flags)
  unfolding hidden_dot Done
  hidden_dot-Ends s initial flags =
      if_both (Ends {E = GitError} {A = Bool} Done) (s == 46 && has flags fnm_period)
        (if_both (Ends {E = GitError} {A = Bool} Done) (initial == so) tt (
          if_both (Ends {E = GitError} {A = Bool} Done) (has flags fnm_path_name && not (so == 0))
            (>>=-Ends (λ _. so - 1 < length str) Done (byte_at str (so - 1)) _
              (byte_at-Ends str (so - 1)) (λ before k. tt))
            tt))
        tt

  abbrev Within : Bool → Type 0
  Within b = b ≡ true → so < length str

  case_insensitive_match-Ends : (c flags : ℕ) → Ends Within (case_insensitive_match c str so flags)
  unfolding case_insensitive_match
  case_insensitive_match-Ends c flags =
      if_both (Ends {E = GitError} Within) (so == length str) (λ e. cc)
        (>>=-Ends (λ _. so < length str) Within (byte_at str so) _ (byte_at-Ends str so)
          (λ s k.
            if_both (Ends {E = GitError} Within) (c == s) (λ _. k)
              (if_both (Ends {E = GitError} Within) (not (has flags fnm_case_fold)) (λ _. k)
                (if_both (Ends {E = GitError} Within) (ltb 127 c || ltb 127 s)
                  (if_both (Ends {E = GitError} Within) (c == 0xc4 && s == 0xb0) tt (λ _. k))
                  (λ _. k)))))

  pub match_character-Ends :
      (c po po' flags : ℕ)
      → po ≤ po' + 1
      → Ends (Shrinks str po so) (match_character c str po' so flags)
  unfolding match_character Shrinks
  match_character-Ends c po po' flags h =
      >>=-Ends Within (Shrinks str po so) (case_insensitive_match c str so flags) _
        (case_insensitive_match-Ends c flags) moved
    where
      moved :
          (b : Bool)
          → Within b
          → Shrinks str po so (if b then continue_with po' (so + 1) flags else return false)
      moved true q = (omega arith, inr (h, q refl, omega arith))
      moved false q = tt

  pub match_any-Ends :
      (po initial flags : ℕ) → Ends (Shrinks str po so) (match_any str po initial so flags)
  unfolding match_any Shrinks
  match_any-Ends po initial flags =
      if_both (Ends {E = GitError} (Shrinks str po so)) (so == length str) tt (
        >>=-Ends (λ _. so < length str) (Shrinks str po so) (byte_at str so) _ (byte_at-Ends str so)
          (λ s k.
            >>=-Ends Done (Shrinks str po so) (hidden_dot str s initial so flags) _
              (hidden_dot-Ends s initial flags)
              (λ dot _.
                if_both (Shrinks str po so) (s == 47 && has flags fnm_path_name || dot) tt
                  (omega arith, inl (omega arith)))))

  pub match_escape-Ends :
      (pattern : List ℕ) (po flags : ℕ)
      → Ends (Shrinks str po so) (match_escape pattern str po so flags)
  unfolding match_escape
  match_escape-Ends pattern po flags =
      if_both (Ends {E = GitError} (Shrinks str po so))
        (not (has flags fnm_no_escape) && (po == length pattern))
        (match_character-Ends 92 po (po - 1) flags (omega arith))
        (match_character-Ends 92 po po flags (omega arith))

  behind_slash-Ends : (flags : ℕ) → Ends Done (behind_slash str so flags)
  unfolding behind_slash Done
  behind_slash-Ends flags =
      if_both (Ends {E = GitError} {A = Bool} Done) (has flags fnm_path_name && not (so == 0))
        (>>=-Ends (λ _. so - 1 < length str) Done (byte_at str (so - 1)) _
          (byte_at-Ends str (so - 1)) (λ before k. tt))
        tt

  after_range-Ends :
      (po flags : ℕ) (r : RangeMatchResult × ℕ)
      → po ≤ r.1
      → Ends (Shrinks str po so) (after_range str so flags r)
  unfolding after_range Shrinks
  after_range-Ends po flags (range_match, o) h = (omega arith, inl h)
  after_range-Ends po flags (range_no_match, o) h = tt
  after_range-Ends po flags (range_error, o) h = match_character-Ends 91 po o flags (omega arith)

  pub match_range-Ends :
      (pattern : List ℕ) (po initial flags : ℕ)
      → Ends (Shrinks str po so) (match_range pattern str po initial so flags)
  unfolding match_range Shrinks
  match_range-Ends pattern po initial flags =
      if_both (Ends {E = GitError} (Shrinks str po so)) (so == length str) tt (
        >>=-Ends (λ _. so < length str) (Shrinks str po so) (byte_at str so) _ (byte_at-Ends str so)
          (λ s k.
            >>=-Ends Done (Shrinks str po so) (behind_slash str so flags) _
              (behind_slash-Ends flags)
              (λ slash _.
                if_both (Ends {E = GitError} (Shrinks str po so))
                  (s == 47 && has flags fnm_path_name
                    || (s == 46 && has flags fnm_period && (initial == so) || slash))
                  tt
                  (>>=-Ends (λ r. po ≤ r.1) (Shrinks str po so) (range_match_at pattern s po flags)
                    (after_range str so flags) (range_match_at-Ends pattern s po flags)
                    (after_range-Ends po flags)))))

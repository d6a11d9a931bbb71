-- ===== src/Fnmatch/Match.antt =====
-- fnMatchX and fnMatch of fnmatch.go.
use git4go.Common.{
  ℕ, zero, suc, ◌+◌, ◌-◌, bit_and, Bool, true, false, not, ◌&&◌, ◌||◌, Option, none, some, List, [],
  ◌∷◌, ltb, ◌==◌, if◌then◌else◌, length, drop, Outcome, ◌>>=◌, ok, err, panic, stuck, GitError,
  message, byte_at,
}
use git4go.Fnmatch.Fold.{
  fnm_no_escape, fnm_path_name, fnm_period, fnm_leading_dir, has, case_insensitive_match,
}
use git4go.Fnmatch.Range.{
  RangeMatchResult, range_match_at, range_match, range_no_match, range_error,
}

-- A round of the loop: it returns, or goes on with the two offsets and the flags.
pub data Round : Type 0 where
  return : Bool → Round
  continue_with : (pattern_offset str_offset flags : ℕ) → Round

-- A leading dot that a wildcard is not to match. The offset is not 0 where the character before is
-- read.
unfoldable pub hidden_dot : (str : List ℕ) (s initial str_offset flags : ℕ) → Outcome GitError Bool
unfolding has
hidden_dot str s initial str_offset flags =
    if s == 46 && has flags fnm_period
    then if initial == str_offset
      then ok true
      else if has flags fnm_path_name && not (str_offset == 0)
      then (do before ← byte_at str (str_offset - 1); ok (before == 47))
      else ok false
    else ok false

-- strings.IndexByte(str, '/').
unfoldable pub index_slash : List ℕ → Option ℕ
index_slash [] = none
index_slash (c ∷ str) = let rest = index_slash str in if c == 47 then some 0 else after rest
  where
    after : Option ℕ → Option ℕ
    after none = none
    after (some i) = some (suc i)

unfoldable pub match_character :
    (c : ℕ) (str : List ℕ) (pattern_offset str_offset flags : ℕ) → Outcome GitError Round
unfolding case_insensitive_match
match_character c str pattern_offset str_offset flags = do
  same ← case_insensitive_match c str str_offset flags
  ok (if same then continue_with pattern_offset (str_offset + 1) flags else return false)

unfoldable pub match_any :
    (str : List ℕ) (pattern_offset initial str_offset flags : ℕ) → Outcome GitError Round
unfolding has hidden_dot
match_any str pattern_offset initial str_offset flags =
    if str_offset == length str then ok (return false) else (do
      s ← byte_at str str_offset
      dot ← hidden_dot str s initial str_offset flags
      ok (
          if s == 47 && has flags fnm_path_name || dot
          then return false
          else continue_with pattern_offset (str_offset + 1) flags))

-- The stars that follow a star, and a slash behind them. The inner loop reads the character behind
-- each star, the one behind the pattern's last too. `rest` is the pattern from the offset on.
unfoldable pub skip_stars : (pattern_offset : ℕ) (rest : List ℕ) → Outcome GitError ℕ
skip_stars pattern_offset [] = panic
skip_stars pattern_offset (c ∷ rest) =
    let more = skip_stars (pattern_offset + 1) rest in
    if c == 42 then more else ok (if c == 47 then pattern_offset + 1 else pattern_offset)

unfoldable pub double_star :
    (pattern : List ℕ) (pattern_offset flags : ℕ) → Outcome GitError (ℕ × ℕ)
unfolding skip_stars
double_star pattern pattern_offset flags =
    if ltb pattern_offset (length pattern)
    then (do
      c ← byte_at pattern pattern_offset
      if c == 42
          then (do
            offset ← skip_stars pattern_offset (drop pattern_offset pattern)
            ok (offset, bit_and flags fnm_path_name))
          else ok (pattern_offset, flags))
    else ok (pattern_offset, flags)

-- A call of fnMatchX on the rest of the pattern: at a string offset, with the flags.
abbrev pub Recursion : Type 0
Recursion = (pattern_offset str_offset flags : ℕ) → Outcome GitError Bool

-- The loop behind a star over the offsets of the string, of which `rest` is what is left.
unfoldable pub star_loop :
    Recursion → (pattern_offset str_offset flags : ℕ) (rest : List ℕ) → Outcome GitError Bool
unfolding has
star_loop call pattern_offset str_offset flags [] = ok false
star_loop call pattern_offset str_offset flags (test ∷ rest) =
    let more = star_loop call pattern_offset (str_offset + 1) flags rest in
    (do
      matched ← call pattern_offset str_offset flags
      if matched then ok true else if test == 47 && has flags fnm_path_name then ok false else more)

missing : Option ℕ → Bool
missing none = true
missing (some i) = false

-- The pattern ends in a star.
unfoldable pub at_last_star : (str : List ℕ) (str_offset flags : ℕ) → Bool
unfolding has index_slash missing
at_last_star str str_offset flags =
    if has flags fnm_path_name
    then has flags fnm_leading_dir || missing (index_slash (drop str_offset str))
    else true

unfoldable pub to_slash : (pattern_offset str_offset flags : ℕ) → Option ℕ → Round
to_slash pattern_offset str_offset flags none = return false
to_slash pattern_offset str_offset flags (some i) =
    continue_with pattern_offset (str_offset + i) flags

-- Behind the stars: a slash, or anything else.
unfoldable pub behind_star :
    Recursion
    → (pattern str : List ℕ) (pattern_offset str_offset flags : ℕ) → Outcome GitError Round
unfolding has index_slash star_loop to_slash
behind_star call pattern str pattern_offset str_offset flags = do
  c ← byte_at pattern pattern_offset
  if c == 47 && has flags fnm_path_name
      then ok (to_slash pattern_offset str_offset flags (index_slash (drop str_offset str)))
      else (do
        matched ← star_loop call pattern_offset str_offset flags (drop str_offset str)
        ok (return matched))

unfoldable pub match_star_at :
    Recursion
    → (pattern str : List ℕ) (pattern_offset initial str_offset flags : ℕ) → Outcome GitError Round
unfolding hidden_dot at_last_star behind_star
match_star_at call pattern str pattern_offset initial str_offset flags = do
  s ← byte_at str str_offset
  dot ← hidden_dot str s initial str_offset flags
  if dot
      then ok (return false)
      else if pattern_offset == length pattern
      then ok (return (at_last_star str str_offset flags))
      else behind_star call pattern str pattern_offset str_offset flags

unfoldable pub match_star :
    Recursion
    → (pattern str : List ℕ) (pattern_offset initial str_offset flags : ℕ) → Outcome GitError Round
unfolding double_star match_star_at
match_star call pattern str pattern_offset initial str_offset flags = do
  (offset, flags') ← double_star pattern pattern_offset flags
  match_star_at call pattern str offset initial str_offset flags'

unfoldable pub behind_slash : (str : List ℕ) (str_offset flags : ℕ) → Outcome GitError Bool
unfolding has
behind_slash str str_offset flags =
    if has flags fnm_path_name && not (str_offset == 0)
    then (do before ← byte_at str (str_offset - 1); ok (before == 47))
    else ok false

unfoldable pub after_range :
    (str : List ℕ) (str_offset flags : ℕ) → RangeMatchResult × ℕ → Outcome GitError Round
unfolding match_character
after_range str str_offset flags (range_match, offset) = ok (continue_with offset str_offset flags)
after_range str str_offset flags (range_no_match, offset) = ok (return false)
after_range str str_offset flags (range_error, offset) =
    match_character 91 str offset str_offset flags

-- Go's && binds before ||: behind a slash, where names are matched, a bracket never matches.
unfoldable pub match_range :
    (pattern str : List ℕ) (pattern_offset initial str_offset flags : ℕ) → Outcome GitError Round
unfolding has range_match_at behind_slash after_range
match_range pattern str pattern_offset initial str_offset flags =
    if str_offset == length str then ok (return false) else (do
      s ← byte_at str str_offset
      slash ← behind_slash str str_offset flags
      if s == 47 && has flags fnm_path_name
            || (s == 46 && has flags fnm_period && (initial == str_offset) || slash)
          then ok (return false)
          else (do
            result ← range_match_at pattern s pattern_offset flags
            after_range str str_offset flags result))

unfoldable pub match_escape :
    (pattern str : List ℕ) (pattern_offset str_offset flags : ℕ) → Outcome GitError Round
unfolding has match_character
match_escape pattern str pattern_offset str_offset flags =
    if not (has flags fnm_no_escape) && (pattern_offset == length pattern)
    then match_character 92 str (pattern_offset - 1) str_offset flags
    else match_character 92 str pattern_offset str_offset flags

-- A round; `c` is the pattern's character before the offset.
unfoldable pub match_round :
    Recursion
    → (pattern str : List ℕ) (c pattern_offset initial str_offset flags : ℕ)
    → Outcome GitError Round
unfolding match_any match_star match_range match_escape match_character
match_round call pattern str c pattern_offset initial str_offset flags =
    if c == 63
    then match_any str pattern_offset initial str_offset flags
    else if c == 42
    then match_star call pattern str pattern_offset initial str_offset flags
    else if c == 91
    then match_range pattern str pattern_offset initial str_offset flags
    else if c == 92
    then match_escape pattern str pattern_offset str_offset flags
    else match_character c str pattern_offset str_offset flags

unfoldable pub at_pattern_end : (str : List ℕ) (str_offset flags : ℕ) → Outcome GitError Bool
unfolding has
at_pattern_end str str_offset flags =
    if has flags fnm_leading_dir
    then (do first ← byte_at str 0; ok (first == 47 || (str_offset == length str)))
    else ok (str_offset == length str)

unfoldable pub go : Round → Recursion → Outcome GitError Bool
go (return result) again = ok result
go (continue_with pattern_offset str_offset flags) again = again pattern_offset str_offset flags

-- The loop of fnMatchX. A round moves one of the offsets on.
unfoldable pub match_loop :
    ℕ
    → Recursion
    → (pattern str : List ℕ) (initial pattern_offset str_offset flags : ℕ) → Outcome GitError Bool
unfolding match_round at_pattern_end go
match_loop zero call pattern str initial pattern_offset str_offset flags = stuck
match_loop (suc fuel) call pattern str initial pattern_offset str_offset flags =
    if pattern_offset == length pattern then at_pattern_end str str_offset flags else (do
      c ← byte_at pattern pattern_offset
      round ← match_round call pattern str c (pattern_offset + 1) initial str_offset flags
      go round (match_loop fuel call pattern str initial))

-- `recurs` is what the source calls so; a call with 0, which has no end there, is not made.
unfoldable pub fn_match_x :
    (recurs : ℕ) (pattern str : List ℕ) (pattern_offset str_offset flags : ℕ)
    → Outcome GitError Bool
unfolding match_loop
fn_match_x zero pattern str pattern_offset str_offset flags = stuck
fn_match_x (suc zero) pattern str pattern_offset str_offset flags =
    err (message "too deep recursion")
fn_match_x (suc (suc recurs)) pattern str pattern_offset str_offset flags =
    match_loop (suc (length pattern + length str)) (fn_match_x (suc recurs) pattern str) pattern str
      str_offset pattern_offset str_offset flags

-- `result, _ :=`: the error becomes false.
unfoldable pub without_error : Outcome GitError Bool → Outcome GitError Bool
without_error (ok b) = ok b
without_error (err e) = ok false
without_error panic = panic
without_error stuck = stuck

unfoldable pub fn_match : (pattern str : List ℕ) (flags : ℕ) → Outcome GitError Bool
unfolding fn_match_x without_error
fn_match pattern str flags = without_error (fn_match_x 64 pattern str 0 0 flags)

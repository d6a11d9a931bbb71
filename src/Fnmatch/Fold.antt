-- ===== src/Fnmatch/Fold.antt =====
-- The flags of fnmatch.go and its comparisons without regard to case.
use git4go.Common.{
  ℕ, ◌+◌, bit_and, Bool, true, false, not, ◌&&◌, ◌||◌, List, ltb, leb, ◌==◌, if◌then◌else◌, length,
  Outcome, ◌>>=◌, ok, panic, GitError, byte_at,
}

abbrev pub fnm_no_escape : ℕ
fnm_no_escape = 1

abbrev pub fnm_path_name : ℕ
fnm_path_name = 2

abbrev pub fnm_period : ℕ
fnm_period = 4

abbrev pub fnm_leading_dir : ℕ
fnm_leading_dir = 8

abbrev pub fnm_case_fold : ℕ
fnm_case_fold = 16

-- `flags&flag != 0`.
unfoldable pub has : (flags flag : ℕ) → Bool
has flags flag = not (bit_and flags flag == 0)

-- bytes.ToLower on one byte. A byte above 127 alone is no UTF-8, and becomes the three bytes of
-- U+FFFD, of which the first is taken.
unfoldable pub to_lower : ℕ → ℕ
to_lower c = if ltb 127 c then 0xef else if leb 65 c && leb c 90 then c + 32 else c

-- bytes.ToLower on the two bytes and their comparison. Where one is above 127 the results differ,
-- but for U+0130, the only letter of two bytes that becomes one byte: there out[1] is out of range.
unfoldable pub case_insensitive_match :
    (c : ℕ) (str : List ℕ) (str_offset flags : ℕ) → Outcome GitError Bool
unfolding has to_lower
case_insensitive_match c str str_offset flags = if str_offset == length str then ok false else (do
  s ← byte_at str str_offset
  if c == s then ok true else if not (has flags fnm_case_fold) then ok false else folded s)
  where
    folded : ℕ → Outcome GitError Bool
    folded s =
        if ltb 127 c || ltb 127 s
        then if c == 0xc4 && s == 0xb0 then panic else ok false
        else ok (to_lower c == to_lower s)

-- ===== src/RevWalk/Parse.antt =====
-- commitQuickParse of revwalk.go: the parents and the time in the bytes of a commit.
use git4go.Common.{
  ℕ, zero, suc, ◌+◌, ◌-◌, ◌*◌, ◌^◌, Bool, true, false, ◌&&◌, Option, none, some, List, [], ◌∷◌, ltb,
  leb, ◌==◌, if◌then◌else◌, length, take, drop, Outcome, ◌>>=◌, ok, err, panic, stuck, codes,
  GitError, or_error, message, from_strconv, or_panic,
}
use git4go.Oid.{Oid, oid_hex_size, parse_oid_with_prefix}

-- The loop over the parents' lines: the ids and the offset behind them. A line has 48 bytes.
unfoldable pub parse_parents_loop :
    (rounds : ℕ) (bytes : List ℕ) (offset : ℕ) → Outcome GitError (List Oid × ℕ)
unfolding parse_oid_with_prefix
parse_parents_loop zero bytes offset = stuck
parse_parents_loop (suc rounds) bytes offset = do
  (parent_id, behind) ← parse_oid_with_prefix bytes offset (codes "parent ")
  elim parent_id [
    | none ↦ ok ([], behind)
    | some id ↦ (do (ids, end) ← parse_parents_loop rounds bytes behind; ok (id ∷ ids, end))
  ]

-- The line of the tree comes first.
unfoldable pub parse_parents : (bytes : List ℕ) → Outcome GitError (List Oid × ℕ)
unfolding parse_parents_loop
parse_parents bytes = parse_parents_loop (length bytes + 1) bytes (5 + oid_hex_size + 1)

-- The bytes behind the line of the author, which must end.
unfoldable pub skip_line : List ℕ → Option (List ℕ)
skip_line [] = none
skip_line (c ∷ bytes) = let rest = skip_line bytes in if c == 10 then some bytes else rest

-- The variables of the loop over the line of the committer. An offset of -1 is none; the offsets
-- count from the beginning of the line.
pub record TimeScan : Type 0 where
  pub section_offset : Option ℕ
  pub section_end : Option ℕ
  pub after_space : Bool
  pub time_section : Bool

abbrev pub scan_start : TimeScan
scan_start = record {
  section_offset = none;
  section_end = none;
  after_space = false;
  time_section = false;
}

unfoldable pub is_digit : ℕ → Bool
is_digit c = leb 48 c && leb c 57

-- A round of the loop, on a character that does not end the line.
unfoldable pub scan_step : (offset c : ℕ) → TimeScan → TimeScan
unfolding is_digit
scan_step offset c scan =
    if scan.time_section
    then record scan { section_end = some offset; time_section = is_digit c }
    else if scan.after_space && is_digit c
    then record scan { section_offset = some offset; time_section = true }
    else record scan { after_space = c == 32 }

unfoldable pub scan_line : (offset : ℕ) → TimeScan → List ℕ → TimeScan
unfolding scan_step
scan_line offset scan [] = scan
scan_line offset scan (c ∷ bytes) =
    let rest = scan_line (offset + 1) (scan_step offset c scan) bytes in
    if c == 10 then scan else rest

-- strconv.ParseUint of decimal digits, without its bound.
unfoldable pub decimal_value : (n : ℕ) → List ℕ → ℕ
decimal_value n [] = n
decimal_value n (c ∷ digits) = decimal_value (n * 10 + (c - 48)) digits

-- strconv.ParseUint(s, 10, 64): no text and a number of more than 64 bits are errors, and so is a
-- character that is no digit.
unfoldable pub all_digits : List ℕ → Bool
unfolding is_digit
all_digits [] = true
all_digits (c ∷ s) = is_digit c && all_digits s

unfoldable pub parse_uint : List ℕ → Outcome GitError ℕ
unfolding decimal_value all_digits
parse_uint [] = err from_strconv
parse_uint (c ∷ s) =
    if all_digits (c ∷ s) && ltb (decimal_value 0 (c ∷ s)) (2 ^ 64)
    then ok (decimal_value 0 (c ∷ s))
    else err from_strconv

-- `data[timeSectionOffset:timeSectionEnd]`, whose bounds must be in order.
unfoldable pub time_text : List ℕ → TimeScan → Outcome GitError (List ℕ)
time_text line scan = do
  start ← or_error scan.section_offset (message "object is corrupted")
  end ← or_panic scan.section_end
  if leb start end then ok (take (end - start) (drop start line)) else panic

-- The time, from the offset behind the parents on.
unfoldable pub parse_time : (bytes : List ℕ) (offset : ℕ) → Outcome GitError ℕ
unfolding skip_line scan_line time_text parse_uint
parse_time bytes offset = do
  line ← or_error (skip_line (drop offset bytes)) (message "object is corrupted")
  text ← time_text line (scan_line 0 scan_start line)
  parse_uint text

-- ===== src/Object/Signature.antt =====
-- signature.go: who did something and when. A time is the seconds since 1970 with the distance of its
-- zone in seconds, none for the machine's own. The overflow of a zone of many digits is left out.
pub mod Text
pub mod Zone
pub mod RoundTrip
use git4go.Common.{
  ℕ, zero, suc, ◌+◌, ◌-◌, ◌*◌, ◌^◌, Bool, true, false, not, ◌&&◌, ◌||◌, Option, none, some, List,
  [], ◌∷◌, ◌++◌, ltb, leb, ◌==◌, if◌then◌else◌, length, take, drop, Outcome, ok, err, panic, stuck,
  ◌>>=◌, GitError, message, from_strconv, bytes_equal, or_error, Slice, slice_range, ℤ, pos, negsuc,
  negate, difference, ◌+ℤ◌, times, quotient, remainder,
}
use git4go.RefDb.{trim_space}
use git4go.RevWalk.Parse.{decimal_value, all_digits}

pub record Time : Type 0 where
  pub seconds : ℤ
  pub zone : Option ℤ

pub record Signature : Type 0 where
  pub name : List ℕ
  pub email : List ℕ
  pub when : Time

-- Offset, with the zone of the machine at a time.
unfoldable pub zone_seconds : (local_zone : ℤ → ℤ) → Time → ℤ
zone_seconds local_zone time = elim time.zone [ none ↦ local_zone time.seconds | some zone ↦ zone ]

unfoldable pub offset : (local_zone : ℤ → ℤ) → Signature → ℤ
unfolding zone_seconds quotient
offset local_zone v = quotient (zone_seconds local_zone v.when) 60

-- strconv.ParseInt(s, 10, 64): its value, and whether there was an error.
unfoldable pub signed_digits : (negative : Bool) → List ℕ → ℤ × Bool
unfolding all_digits decimal_value negate
signed_digits negative [] = (pos 0, true)
signed_digits negative (c ∷ s) =
    let n = decimal_value 0 (c ∷ s) in
    let most = if negative then 2 ^ 63 else 2 ^ 63 - 1 in
    let value = if ltb most n then most else n in
    if all_digits (c ∷ s)
    then (if negative then negate (pos value) else pos value, ltb most n)
    else (pos 0, true)

unfoldable pub parse_int64 : List ℕ → ℤ × Bool
unfolding signed_digits
parse_int64 [] = (pos 0, true)
parse_int64 (c ∷ s) =
    if c == 45
    then signed_digits true s
    else if c == 43
    then signed_digits false s
    else signed_digits false (c ∷ s)

-- The first loop of parseSignature: the offset of the newline, and of the last `<` and `>` before it.
unfoldable pub scan_line :
    List ℕ → (i : ℕ) (start end : Option ℕ) → Option (ℕ × Option ℕ × Option ℕ)
scan_line [] i start end = none
scan_line (c ∷ s) i start end =
    let rest =
      scan_line s (i + 1) (if c == 60 then some i else start) (if c == 62 then some i else end) in
    if c == 10 then some (i, start, end) else rest

-- An offset within the line, from the end of the prefix; -1 where there is none.
unfoldable pub within_line : (prefix_length : ℕ) → Option ℕ → ℤ
within_line prefix_length none = negsuc 0
within_line prefix_length (some i) = difference i prefix_length

abbrev pub malformed : GitError
malformed = message "malformed e-mail"

-- The name and the e-mail of a line; a name before whose end no byte stands is a bound of -1.
unfoldable pub name_and_email :
    (line : List ℕ) (email_start email_end : ℤ) → Outcome GitError (List ℕ × List ℕ)
unfolding trim_space
name_and_email line (negsuc zero) email_end = err malformed
name_and_email line (pos start) (negsuc n) = err malformed
name_and_email line (negsuc (suc m)) (negsuc n) =
    if n == 0 || ltb (suc m) n then err malformed else panic
name_and_email line (negsuc (suc m)) (pos end) = panic
name_and_email line (pos start) (pos end) =
    if ltb end start
    then err malformed
    else if start == 0
    then panic
    else ok (
      trim_space (take (start - 1) line),
      trim_space (take (end - (start + 1)) (drop (start + 1) line)),
    )

unfoldable pub drop_spaces : List ℕ → List ℕ
drop_spaces [] = []
drop_spaces (c ∷ s) = let rest = drop_spaces s in if c == 32 then rest else c ∷ s

-- The bytes before the next space, and those from it on.
unfoldable pub split_space : List ℕ → List ℕ × List ℕ
split_space [] = ([], [])
split_space (c ∷ s) =
    let (word, rest) = split_space s in if c == 32 then ([], c ∷ s) else (c ∷ word, rest)

unfoldable pub below : (bound : ℕ) → ℤ → Bool
below bound (pos n) = ltb n bound
below bound (negsuc n) = true

-- Is hour < 14 and min < 59?
unfoldable pub is_zone : ℤ → Bool
unfolding quotient remainder below
is_zone timezone = below 14 (quotient timezone 100) && below 59 (remainder timezone 100)

-- The time of an epoch and a zone: the seconds are moved by the difference of the machine's zone and
-- the one that is read.
unfoldable pub when_at : (local_zone : ℤ → ℤ) (epoch timezone : ℤ) → Time
unfolding is_zone quotient remainder times ◌+ℤ◌ negate
when_at local_zone epoch timezone =
    let second = times (quotient timezone 100) 3600 +ℤ times (remainder timezone 100) 60 in
    if is_zone timezone
    then record { seconds = epoch +ℤ (local_zone epoch +ℤ negate second); zone = some second }
    else record { seconds = epoch; zone = none }

-- What stands behind the e-mail. A line that ends there gives ParseInt the newline.
unfoldable pub time_of : (local_zone : ℤ → ℤ) → List ℕ → Outcome GitError Time
unfolding split_space parse_int64 trim_space when_at
time_of local_zone [] = err from_strconv
time_of local_zone (c ∷ s) =
    let (word, rest) = split_space s in
    let (epoch, failed) = parse_int64 (c ∷ word) in
    let (timezone, ignored) = parse_int64 (trim_space rest) in
    if failed then err from_strconv else ok (when_at local_zone epoch timezone)

-- The fields of a line, behind its prefix.
unfoldable pub read_line :
    (local_zone : ℤ → ℤ) (line : List ℕ) (email_start email_end : ℤ) → Outcome GitError Signature
unfolding name_and_email drop_spaces time_of
read_line local_zone line email_start email_end = do
  (name, email) ← name_and_email line email_start email_end
  when ← time_of local_zone (drop_spaces (behind email_end))
  ok (record { name = name; email = email; when = when })
  where
    behind : ℤ → List ℕ
    behind (pos end) = drop (end + 1) line
    behind (negsuc n) = []

-- parseSignature: the signature on the line at an offset, and the offset behind the line.
unfoldable pub parse_signature :
    (local_zone : ℤ → ℤ) (bytes : Slice) (start : ℕ) (prefix : List ℕ)
    → Outcome GitError (Signature × ℕ)
unfolding scan_line within_line slice_range bytes_equal read_line
parse_signature local_zone bytes start prefix = do
  (line_end, email_start, email_end) ←
      or_error (scan_line (drop start bytes.elems) 0 none none) (message "no newline given")
  opening ← slice_range bytes start (length prefix)
  if not (bytes_equal opening prefix)
      then err (message "expected prefix doesn't match actual")
      else (do
        line ←
            if ltb line_end (length prefix)
            then panic
            else ok (take (line_end - length prefix) (drop (start + length prefix) bytes.elems))
        sig ←
            read_line local_zone line (within_line (length prefix) email_start)
              (within_line (length prefix) email_end)
        ok (sig, start + line_end + 1))

-- ===== src/Util.antt =====
-- util.go: numbers of 16 and 32 bits with the highest byte first, and texts that a 0 ends. calcHash is
-- SHA-1 of the standard library; strtol32 is in Tree/Number.antt.
pub mod Words
use git4go.Common.{
  ℕ, zero, suc, ◌+◌, ◌-◌, ◌*◌, ◌/◌, ◌%◌, ◌^◌, bit_and, bit_or, Option, none, some, List, ◌==◌,
  if◌then◌else◌, take, drop, Outcome, ◌>>=◌, ok, GitError, byte_at,
}

-- The bytes of a word in the other order.
unfoldable pub ntohl : ℕ → ℕ
ntohl input =
    bit_or
      (bit_or
        (bit_or (bit_and input 0xff * 2 ^ 24 % 2 ^ 32) (bit_and input 0xff00 * 2 ^ 8 % 2 ^ 32))
        (bit_and input 0xff0000 / 2 ^ 8))
      (bit_and input 0xff000000 / 2 ^ 24)

unfoldable pub ntohl_from_bytes : (buffer : List ℕ) (offset : ℕ) → Outcome GitError ℕ
ntohl_from_bytes buffer offset = do
  a ← byte_at buffer offset
  b ← byte_at buffer (offset + 1)
  c ← byte_at buffer (offset + 2)
  d ← byte_at buffer (offset + 3)
  ok (
      bit_or (bit_or (bit_or (a * 2 ^ 24 % 2 ^ 32) (b * 2 ^ 16 % 2 ^ 32)) (c * 2 ^ 8 % 2 ^ 32))
        (d % 2 ^ 32))

unfoldable pub ntohs : ℕ → ℕ
ntohs input = bit_or (bit_and input 0xff * 2 ^ 8 % 2 ^ 16) (bit_and input 0xff00 / 2 ^ 8)

unfoldable pub ntohs_from_bytes : (buffer : List ℕ) (offset : ℕ) → Outcome GitError ℕ
ntohs_from_bytes buffer offset = do
  a ← byte_at buffer offset
  b ← byte_at buffer (offset + 1)
  ok (bit_or (a * 2 ^ 8 % 2 ^ 16) (b % 2 ^ 16))

-- The loop of findChar, with the rounds that are left before the bound. none is -1.
unfoldable pub find_char_loop :
    (rounds : ℕ) (input : List ℕ) (char offset : ℕ) → Outcome GitError (Option ℕ)
find_char_loop zero input char offset = ok none
find_char_loop (suc rounds) input char offset =
    let rest = find_char_loop rounds input char (offset + 1) in
    do c ← byte_at input offset; if c == char then ok (some offset) else rest

unfoldable pub find_char : (input : List ℕ) (char offset bound : ℕ) → Outcome GitError (Option ℕ)
unfolding find_char_loop
find_char input char offset bound = find_char_loop (bound - offset) input char offset

-- The text up to the first 0 and the offset behind that, or none for the offset -1.
unfoldable pub read_string :
    (input : List ℕ) (offset bound : ℕ) → Outcome GitError (Option (List ℕ × ℕ))
unfolding find_char
read_string input offset bound = do found ← find_char input 0 offset bound; ok (string_before found)
  where
    string_before : Option ℕ → Option (List ℕ × ℕ)
    string_before none = none
    string_before (some end) = some (take (end - offset) (drop offset input), end + 1)

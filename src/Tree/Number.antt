-- ===== src/Tree/Number.antt =====
-- strtol32 of util.go, with strconv.ParseInt on the digits that it finds.
pub mod Octal
use git4go.Common.{
  [], ◌||◌, ℕ, ◌+◌, ◌-◌, ◌*◌, ◌^◌, Option, none, some, List, ◌∷◌, ◌++◌, ltb, leb, if◌then◌else◌,
}

-- The loop of strconv.ParseUint on decimal digits, 64 bits wide: 0 on a digit that the base does not
-- have, and the greatest number where the digits so far do not fit. `n` is what was read.
unfoldable pub parse_uint : (base n : ℕ) → List ℕ → ℕ
parse_uint base n [] = n
parse_uint base n (c ∷ digits) =
    let rest = parse_uint base (n * base + (c - 48)) digits in
    if leb base (c - 48) then 0 else if leb (2 ^ 64) (n * base + (c - 48)) then 2 ^ 64 - 1 else rest

-- The value of strconv.ParseInt on decimal digits, its error ignored: 0 on no digits, and at most
-- 2 ^ 63 - 1.
unfoldable pub parse_int : (base : ℕ) → List ℕ → ℕ
unfolding parse_uint
parse_int base [] = 0
parse_int base (c ∷ digits) =
    if leb (2 ^ 63) (parse_uint base 0 (c ∷ digits))
    then 2 ^ 63 - 1
    else parse_uint base 0 (c ∷ digits)

-- The loop of strtol32: `digits` are those read since startOffset. Behind the number one more byte is
-- passed over. none is the attribute -1: the bytes end first.
unfoldable pub strtol32_loop : (base : ℕ) (digits buffer : List ℕ) → Option (ℕ × List ℕ)
unfolding parse_int
strtol32_loop base digits [] = none
strtol32_loop base digits (c ∷ buffer) =
    let rest = strtol32_loop base (digits ++ (c ∷ [])) buffer in
    if ltb c 48 || ltb 57 c then some (parse_int base digits, buffer) else rest

-- `buffer` is the part from startOffset to the bound.
unfoldable pub strtol32 : (buffer : List ℕ) (base : ℕ) → Option (ℕ × List ℕ)
unfolding strtol32_loop
strtol32 buffer base = strtol32_loop base [] buffer

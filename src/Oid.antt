-- ===== src/Oid.antt =====
-- oid.go: object ids of 20 bytes, their hexadecimal texts of 40 digits, and the prefixes of both.
pub mod RoundTrip
pub mod Prefix
pub mod Line
mod Examples
use git4go.Common.{
  [], ℕ, ◌+◌, ◌-◌, ◌*◌, ◌/◌, ◌%◌, ◌<◌, ◌≡◌, bit_and, bit_xor, Ordering, Bool, true, false, ◌&&◌,
  List, ◌∷◌, All, length, take, drop, set, replicate, copy_at, Option, none, some, ltb, leb, ◌==◌,
  if◌then◌else◌, Outcome, ok, err, panic, stuck, ◌>>=◌, slice_range, GitError, message, from_hex,
  or_error, byte_at, bytes_compare, bytes_equal,
}

abbrev pub oid_raw_size : ℕ
oid_raw_size = 20

abbrev pub oid_hex_size : ℕ
oid_hex_size = 40

-- The array's bytes. A value of the Go type has 20 of them, which IsOid says.
abbrev pub Oid : Type 0
Oid = List ℕ

abbrev pub IsOid : Oid → Type 0
IsOid oid = (length oid ≡ oid_raw_size) × All (λ b. b < 256) oid

-- The zero value of the array.
abbrev pub zero_oid : Oid
zero_oid = replicate oid_raw_size 0

-- `spare` is what the array of `b` holds behind it: b[0:20] may reach into it.
unfoldable pub new_oid_from_bytes {ℓ} : {E : Type ℓ} → (b spare : List ℕ) → Outcome E Oid
unfolding slice_range
new_oid_from_bytes b spare = do
  bytes ← slice_range (record { elems = b; spare = spare }) 0 oid_raw_size
  ok (copy_at zero_oid 0 bytes)

-- hex.EncodeToString and hex.DecodeString, of which the second takes capitals too.
unfoldable pub hex_digit : ℕ → ℕ
hex_digit d = if ltb d 10 then 48 + d else 87 + d

unfoldable pub hex_value : ℕ → Option ℕ
hex_value c =
    if leb 48 c && leb c 57
    then some (c - 48)
    else if leb 97 c && leb c 102
    then some (c - 87)
    else if leb 65 c && leb c 70
    then some (c - 55)
    else none

unfoldable pub encode_to_string : List ℕ → List ℕ
unfolding hex_digit
encode_to_string [] = []
encode_to_string (b ∷ bytes) = hex_digit (b / 16) ∷ hex_digit (b % 16) ∷ encode_to_string bytes

unfoldable pub decode_string : List ℕ → Outcome GitError (List ℕ)
unfolding hex_value
decode_string [] = ok []
decode_string (c ∷ []) = err from_hex
decode_string (c ∷ c' ∷ s) = do
  high ← or_error (hex_value c) from_hex
  low ← or_error (hex_value c') from_hex
  bytes ← decode_string s
  ok ((high * 16 + low) ∷ bytes)

unfoldable pub new_oid : List ℕ → Outcome GitError Oid
unfolding decode_string
new_oid s = if ltb oid_hex_size (length s) then err (message "string is too long for oid") else (do
  bytes ← decode_string s
  if length bytes == oid_raw_size
      then ok (copy_at zero_oid 0 (take oid_raw_size bytes))
      else err (message "Invalid Oid"))

-- `oid[i] &= 0xF0`.
unfoldable pub mask_low_digit {ℓ} : {E : Type ℓ} → Oid → ℕ → Outcome E Oid
mask_low_digit oid i = do b ← byte_at oid i; ok (set oid i (bit_and b 0xf0))

unfoldable pub new_oid_from_prefix : List ℕ → Outcome GitError Oid
unfolding decode_string slice_range mask_low_digit
new_oid_from_prefix s =
    if ltb oid_hex_size (length s) then err (message "string is too long for oid") else (do
      decoded ← decode_string s
      bytes ← slice_range (record { elems = decoded; spare = [] }) 0 ((length s + 1) / 2)
      let short_oid = copy_at zero_oid 0 bytes
      if length s % 2 == 1 then mask_low_digit short_oid (length s / 2) else ok short_oid)

-- `if err != nil { return nil, index }`.
or_none : Outcome GitError Oid → Outcome GitError (Option Oid)
or_none (ok oid) = ok (some oid)
or_none (err e) = ok none
or_none panic = panic
or_none stuck = stuck

-- The text of an id, or none where NewOid returns an error.
unfoldable pub hex_oid : List ℕ → Outcome GitError (Option Oid)
unfolding new_oid or_none
hex_oid s = or_none (new_oid s)

-- The id on the line at `index` that `prefix` opens, and where the next line begins.
unfoldable pub parse_oid_with_prefix :
    (buffer : List ℕ) (index : ℕ) (prefix : List ℕ) → Outcome GitError (Option Oid × ℕ)
unfolding hex_oid bytes_equal
parse_oid_with_prefix buffer index prefix =
    if ltb (length buffer) (index + (length prefix + oid_hex_size + 1))
    then ok (none, index)
    else if bytes_equal (take (length prefix) (drop index buffer)) prefix
    then (do
      c ← byte_at buffer (index + length prefix + oid_hex_size)
      if c == 10
          then (do
            oid ← hex_oid (take oid_hex_size (drop (index + length prefix) buffer))
            ok (found oid))
          else ok (none, index))
    else ok (none, index)
  where
    found : Option Oid → Option Oid × ℕ
    found none = (none, index)
    found (some oid) = (some oid, index + length prefix + oid_hex_size + 1)

unfoldable pub string : Oid → List ℕ
unfolding encode_to_string
string oid = encode_to_string oid

unfoldable pub path_format : Oid → List ℕ × List ℕ
unfolding string
path_format oid = (take 2 (string oid), drop 2 (string oid))

unfoldable pub cmp : Oid → Oid → Ordering
unfolding bytes_compare
cmp oid oid2 = bytes_compare oid oid2

unfoldable pub equal : Oid → Oid → Bool
unfolding bytes_equal
equal oid oid2 = bytes_equal oid oid2

unfoldable pub is_zero : Oid → Bool
is_zero [] = true
is_zero (a ∷ oid) = let rest = is_zero oid in if a == 0 then rest else false

-- What follows the comparison of the whole bytes: a difference in the digit after an odd number
-- counts as 1.
unfoldable pub n_cmp_odd {ℓ} : {E : Type ℓ} → Oid → Oid → ℕ → Ordering → Outcome E Ordering
n_cmp_odd oid oid2 n Ordering.eq =
    if n % 2 == 1
    then (do
      a ← byte_at oid (n / 2 + 1)
      b ← byte_at oid2 (n / 2 + 1)
      if bit_and (bit_xor a b) 0xf0 == 0 then ok Ordering.eq else ok Ordering.gt)
    else ok Ordering.eq
n_cmp_odd oid oid2 n result = ok result

unfoldable pub n_cmp {ℓ} : {E : Type ℓ} → Oid → Oid → ℕ → Outcome E Ordering
unfolding bytes_compare slice_range n_cmp_odd
n_cmp oid oid2 n = do
  prefix ← slice_range (record { elems = oid; spare = [] }) 0 (n / 2)
  prefix2 ← slice_range (record { elems = oid2; spare = [] }) 0 (n / 2)
  n_cmp_odd oid oid2 n (bytes_compare prefix prefix2)

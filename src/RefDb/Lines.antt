-- ===== src/RefDb/Lines.antt =====
-- The lines of a file of packed references, as RefDb.go looks at them.
use git4go.Common.{
  ℕ, zero, suc, ◌+◌, ◌-◌, Bool, false, not, ◌&&◌, ◌||◌, Option, none, some, List, [], ◌∷◌, ltb,
  ◌==◌, if◌then◌else◌, length, take, drop, get_elem?, Outcome, ◌>>=◌, ok, err, stuck, GitError,
  message, codes, bytes_equal, byte_at, Slice, slice_range,
}
use git4go.Oid.{oid_hex_size}

abbrev pub pack_peeling_none : ℕ
pack_peeling_none = 0

abbrev pub pack_peeling_standard : ℕ
pack_peeling_standard = 1

abbrev pub pack_peeling_full : ℕ
pack_peeling_full = 2

-- The offset of the next newline, or 0.
unfoldable pub line_length : List ℕ → Option ℕ
line_length [] = none
line_length (c ∷ s) =
    let rest = line_length s in
    if c == 10 then some 0 else elim rest [ none ↦ none | some n ↦ some (suc n) ]

unfoldable pub search_end_line : (buffer : List ℕ) (start : ℕ) → ℕ
unfolding line_length
search_end_line buffer start = elim (line_length (drop start buffer)) [
  | none ↦ 0
  | some n ↦ start + n
]

abbrev pub corrupted : GitError
corrupted = message "Corrupted packed references file"

-- bytes.Index is not -1.
unfoldable pub has_infix : (s sep : List ℕ) → Bool
unfolding bytes_equal
has_infix [] sep = length sep == 0
has_infix (c ∷ s) sep = bytes_equal (take (length sep) (c ∷ s)) sep || has_infix s sep

unfoldable pub traits_mode : (line : List ℕ) → ℕ
unfolding has_infix
traits_mode line =
    if has_infix line (codes " fully-peeled ")
    then pack_peeling_full
    else (if has_infix line (codes " peeled ") then pack_peeling_standard else pack_peeling_none)

abbrev pub traits_header : List ℕ
traits_header = codes "# pack-refs with: "

-- The offset behind the first line and the mode that it names, where it is the header.
unfoldable pub read_traits : Slice → Outcome GitError (ℕ × ℕ)
unfolding search_end_line traits_mode slice_range bytes_equal
read_traits buffer = do
  first ← byte_at buffer.elems 0
  if not (first == 35) then ok (0, pack_peeling_none) else (do
    start ← slice_range buffer 0 (length traits_header)
    let eol = search_end_line buffer.elems (length traits_header)
    if not (bytes_equal start traits_header)
        then ok (0, pack_peeling_none)
        else (if eol == 0
            then err corrupted
            else ok (
              eol + 1,
              traits_mode
                  (take (eol - length traits_header) (drop (length traits_header) buffer.elems)),
            )))

-- Is there a byte at the offset, and is it this one?
unfoldable pub byte_is : (buffer : List ℕ) (scan c : ℕ) → Bool
byte_is buffer scan c = elim (get_elem? buffer scan) [ none ↦ false | some b ↦ b == c ]

-- The loop over further comments, each of which has a byte at least.
unfoldable pub skip_comments : (rounds : ℕ) (buffer : List ℕ) (scan : ℕ) → Outcome GitError ℕ
unfolding byte_is search_end_line
skip_comments zero buffer scan = stuck
skip_comments (suc rounds) buffer scan =
    let eol = search_end_line buffer scan in
    let rest = skip_comments rounds buffer (eol + 1) in
    if byte_is buffer scan 35 then (if eol == 0 then err corrupted else rest) else ok scan

-- The offset behind the id of the object that a tag is peeled to, as the code counts it.
unfoldable pub behind_peel : (buffer : List ℕ) (scan : ℕ) → Outcome GitError ℕ
unfolding search_end_line
behind_peel buffer scan =
    if not (ltb scan (length buffer))
    then ok scan
    else (if search_end_line buffer scan == 0
        then err corrupted
        else ok (scan + (oid_hex_size + 1)))

unfoldable pub cannot_peel : (peeling_mode : ℕ) (name : List ℕ) → Bool
unfolding bytes_equal
cannot_peel peeling_mode name =
    peeling_mode == pack_peeling_full
    || peeling_mode == pack_peeling_standard
      && bytes_equal (take (length (codes "refs/tags/")) name) (codes "refs/tags/")

-- The name in a line that ends before `eol`, with a carriage return or without.
unfoldable pub ref_name : (buffer : List ℕ) (start eol : ℕ) → List ℕ
unfolding byte_is
ref_name buffer start eol =
    take ((if byte_is buffer (eol - 1) 13 then eol - 1 else eol) - start) (drop start buffer)

-- ===== src/Pack/Header/RoundTrip.antt =====
-- unpackHeader of pack.go reads the format of git's packs.
use git4go.Common.{
  ℕ, suc, ◌+◌, ◌*◌, ◌/◌, ◌%◌, ◌^◌, ◌≤◌, ◌<◌, bit_and, ◌≡◌, refl, ap, ap₂, ◌∙◌, dite, true, false,
  List, [], ◌∷◌, ◌++◌, arith, dec_lt, ltb, leb, ◌==◌, if◌then◌else◌, length, length-append, Outcome,
  ok, GitError,
}
use git4go.Common.Bits.{lt_wf}
use git4go.Common.Masks.{low_seven, low_three, low_four, bit_field}
use git4go.Pack.Header.{header_loop, unpack_header}
use native.Mathlib.Nat.{mod-eq_of_lt, mod-add-div, pow-le-pow_right}
use native.Mathlib.Numerals.{towards_suc}
use native.Mathlib.Bridge.{le_prop}
use mathlib.Core.Logic.{dif_pos, dif_neg}
use mathlib.Core.WellFounded.{Acc}

-- The bit of a byte that another one follows.
abbrev flag : ℕ → ℕ
flag m = if m == 0 then 0 else 128

-- A number in groups of seven bits, lowest first, none of them for 0.
groups : (m : ℕ) → Acc ◌<◌ m → List ℕ
groups m (Acc.intro _ smaller) =
    dite (dec_lt 0 m) (λ h. (m % 128 + flag (m / 128)) ∷ groups (m / 128) (smaller _ (omega arith)))
      (λ _. [])

-- The head of an entry as git writes it: the type and four bits of the size, then the groups.
pub encode_pack_header : (obj_type size : ℕ) → List ℕ
unfolding groups lt_wf
encode_pack_header obj_type size =
    (size % 16 + 16 * obj_type + flag (size / 16)) ∷ groups (size / 16) (lt_wf.apply (size / 16))

shift_seven : (s : ℕ) → 2 ^ (s + 7) ≡ 2 ^ s * 128
shift_seven s = simp towards_suc (omega (arith))

group_split : (m s : ℕ) → m % 128 * 2 ^ s + m / 128 * 2 ^ (s + 7) ≡ m * 2 ^ s
group_split m s = omega (
  arith,
  ap (λ (t : ℕ). m / 128 * t) (shift_seven s),
  ap (λ (t : ℕ). t * 2 ^ s) (mod-add-div m 128),
)

mul_mono : (a b t : ℕ) → a ≤ b → a * t ≤ b * t
mul_mono a b t h = grind arith

-- A number that is not 0 lies below bit 64.
shift-lt : (m s : ℕ) → 0 < m → m * 2 ^ s < 2 ^ 64 → s < 64
shift-lt m s h fits = elim (dec_lt s 64) [
  | yes k ↦ k
  | no k ↦ absurd (
      omega (
        arith,
        pow-le-pow_right {n = 2} (omega arith) {i = 64} {j = s} (omega arith),
        mul_mono 1 m (2 ^ s) (omega arith),
      ))
]

flag_bit : (r m : ℕ) → r < 128 → (bit_and (r + flag m) 0x80 == 0) ≡ (m == 0)
flag_bit r m h = elim (dec_lt 0 m) [
  | yes k ↦ rw (bit_field 7 (r + flag m), set_flag k, no_zero k) (ground arith)
  | no k ↦ let gone : m ≡ 0 = omega arith in rw (bit_field 7 (r + flag m), gone) (ground arith)
]
  where
    set_flag : 0 < m → flag m ≡ 128
    set_flag k = ground arith

    no_zero : 0 < m → (m == 0) ≡ false
    no_zero k = ground arith

header_loop_stop :
    (n used c size shift : ℕ) (rest : List ℕ)
    → (bit_and c 0x80 == 0) ≡ true
    → header_loop n used c size shift rest ≡ ok (used, size)
unfolding header_loop
header_loop_stop n used c size shift [] h = rw h refl
header_loop_stop n used c size shift (b ∷ rest) h = rw h refl

group_value :
    (m size shift : ℕ)
    → size + m * 2 ^ shift < 2 ^ 64
    → (size + bit_and (m % 128 + flag (m / 128)) 0x7f * 2 ^ shift % 2 ^ 64) % 2 ^ 64
      ≡ size + m % 128 * 2 ^ shift
group_value m size shift fits =
    rw (low_seven (m % 128 + flag (m / 128)), seven)
      (ap (λ (t : ℕ). (size + t) % 2 ^ 64) (mod-eq_of_lt small) ∙ mod-eq_of_lt whole)
  where
    seven : (m % 128 + flag (m / 128)) % 128 ≡ m % 128
    seven = ground arith

    small : m % 128 * 2 ^ shift < 2 ^ 64
    small = omega (arith, group_split m shift, fits)

    whole : size + m % 128 * 2 ^ shift < 2 ^ 64
    whole = omega (arith, group_split m shift, fits)

header_loop_more :
    (m n used c size shift : ℕ) (rest : List ℕ)
    → (bit_and c 0x80 == 0) ≡ (m == 0)
    → 0 < m
    → used ≤ n
    → size + m * 2 ^ shift < 2 ^ 64
    → header_loop n used c size shift ((m % 128 + flag (m / 128)) ∷ rest)
      ≡ header_loop n
          (used + 1)
          (m % 128 + flag (m / 128))
          (size + m % 128 * 2 ^ shift)
          (shift + 7)
          rest
unfolding header_loop
header_loop_more m n used c size shift rest hc positive inside fits =
    rw (hc, group_value m size shift fits, more, within, low) refl
  where
    more : (m == 0) ≡ false
    more = ground arith

    within : ltb n used ≡ false
    within = ground arith

    low : leb 64 shift ≡ false
    low = ground (arith, shift-lt m shift positive (omega (arith, fits)))

header_loop-groups :
    (m : ℕ) (a : Acc ◌<◌ m) (n used c size shift : ℕ) (rest : List ℕ)
    → (bit_and c 0x80 == 0) ≡ (m == 0)
    → used + length (groups m a) ≤ n
    → size + m * 2 ^ shift < 2 ^ 64
    → header_loop n used c size shift (groups m a ++ rest)
      ≡ ok (used + length (groups m a), size + m * 2 ^ shift)
unfolding groups
header_loop-groups m (Acc.intro _ smaller) n used c size shift rest hc hn fits = elim (dec_lt 0 m) [
  | no k ↦ rw (dif_neg _ k) (last (omega arith))
  | yes k ↦
      let room = rw (dif_pos _ le_prop k) at hn in
      rw (dif_pos _ le_prop k) (
        header_loop_more m n used c size shift _ hc k (omega (arith, room)) fits
        ∙ header_loop-groups (m / 128) (smaller _ (omega arith)) n (used + 1) _
            (size + m % 128 * 2 ^ shift) (shift + 7) rest
            (flag_bit (m % 128) (m / 128) (omega arith)) (omega (arith, room))
            (omega (arith, group_split m shift, fits))
        ∙ ap₂ (λ (u v : ℕ). ok (u, v)) (omega arith) (omega (arith, group_split m shift)))
]
  where
    last : m ≡ 0 → header_loop n used c size shift rest ≡ ok (used + 0, size + m * 2 ^ shift)
    last gone =
        header_loop_stop n used c size shift rest (hc ∙ ap (λ t. t == 0) gone)
        ∙ ap₂ (λ (u v : ℕ). ok (u, v)) (omega arith)
            (omega (arith, ap (λ (t : ℕ). t * 2 ^ shift) gone))

first_byte :
    (obj_type size : ℕ)
    → obj_type < 8
    → let c = size % 16 + 16 * obj_type + flag (size / 16) in
      (bit_and c 15 ≡ size % 16) × (bit_and (c / 2 ^ 4) 7 ≡ obj_type)
first_byte obj_type size h = (
  low_four (size % 16 + 16 * obj_type + flag (size / 16)) ∙ ground arith,
  low_three ((size % 16 + 16 * obj_type + flag (size / 16)) / 16) ∙ ground arith,
)

-- unpackHeader reads the type, the whole size of 64 bits and the offset of the data from the head
-- that git writes, whatever follows it in the window.
pub unpack_header-encode_pack_header :
    (mwf_open : ℕ → ℕ → Outcome GitError (List ℕ)) (cur_pos obj_type size : ℕ) (rest : List ℕ)
    → obj_type < 8
    → size < 2 ^ 64
    → mwf_open cur_pos 20 ≡ ok (encode_pack_header obj_type size ++ rest)
    → unpack_header mwf_open cur_pos
      ≡ ok (record {
        base_key = 0;
        obj_type = obj_type;
        offset = (cur_pos + length (encode_pack_header obj_type size)) % 2 ^ 64;
        size = size;
      })
unfolding unpack_header encode_pack_header
unpack_header-encode_pack_header mwf_open cur_pos obj_type size rest h k window =
    rw
      (
        window,
        (first_byte obj_type size h).0,
        (first_byte obj_type size h).1,
        header_loop-groups (size / 16) (lt_wf.apply (size / 16)) _ 1 _ (size % 16) 4 rest
            (flag_bit (size % 16 + 16 * obj_type) (size / 16) (omega arith)) room (omega arith),
      )
      (ap₂
        (λ (u v : ℕ).
          ok (record {
            base_key = 0;
            obj_type = obj_type;
            offset = (cur_pos + u) % 2 ^ 64;
            size = v;
          }))
        (omega arith) (omega arith))
  where
    room :
        1 + length (groups (size / 16) (lt_wf.apply (size / 16)))
        ≤ suc (length (groups (size / 16) (lt_wf.apply (size / 16)) ++ rest))
    room = omega (arith, length-append (groups (size / 16) (lt_wf.apply (size / 16))) rest)

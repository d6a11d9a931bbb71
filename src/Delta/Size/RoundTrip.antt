-- ===== src/Delta/Size/RoundTrip.antt =====
-- nextSize reads back what encodeSize wrote.
use git4go.Common.{
  ℕ, ◌+◌, ◌*◌, ◌/◌, ◌%◌, ◌^◌, ◌≤◌, ◌<◌, ◌≡◌, refl, ap, ◌∙◌, bit_and, bit_or, arith, List, [], ◌∷◌,
  ◌++◌, length, append_assoc, dec_lt, Outcome, ok, panic,
}
use git4go.Common.Bits.{lt_wf, bit_or_fields, zero-bit_or}
use git4go.Common.Masks.{low_seven, bit_field}
use git4go.Delta.Size.{
  encode_size_loop, encode_size, encode_header, next_size_loop, next_size, decode_header,
  size_shrinks,
}
use native.Mathlib.Nat.{mod-eq_of_lt, mod-add-div}
use native.Mathlib.Numerals.{towards_suc}
use native.Mathlib.Bridge.{le_prop}
use mathlib.Core.Logic.{dif_pos, dif_neg}
use mathlib.Core.WellFounded.{Acc}

-- One byte of nextSize, the first one included.
read_byte {ℓ} : {E : Type ℓ} → List ℕ → (rv shift : ℕ) → Outcome E (ℕ × List ℕ)
read_byte [] rv shift = panic
read_byte (b ∷ buffer) rv shift =
    next_size_loop buffer b (bit_or rv (bit_and b 0x7f * 2 ^ shift % 2 ^ 64)) (shift + 7)

next_size-read_byte {ℓ} : {E : Type ℓ} (l : List ℕ) → next_size {E = E} l ≡ read_byte l 0 0
unfolding next_size read_byte
next_size-read_byte [] = refl
next_size-read_byte (b ∷ l) =
    ap (λ v. next_size_loop l b v 7)
      (omega (arith, zero-bit_or (bit_and b 0x7f * 2 ^ 0 % 2 ^ 64), low_seven b))

shift_seven : (s : ℕ) → 2 ^ (s + 7) ≡ 128 * 2 ^ s
shift_seven s = simp towards_suc (omega arith)

more_bit : (b : ℕ) → bit_and b 0x80 ≡ b / 128 % 2 * 128
more_bit b = bit_field 7 b

read_value :
    (b rv shift : ℕ)
    → rv < 2 ^ shift
    → b % 128 * 2 ^ shift < 2 ^ 64
    → bit_or rv (bit_and b 0x7f * 2 ^ shift % 2 ^ 64) ≡ rv + b % 128 * 2 ^ shift
read_value b rv shift hr fits =
    rw (low_seven b) (ap (bit_or rv) (mod-eq_of_lt fits) ∙ bit_or_fields shift rv (b % 128) hr)

-- The last byte has no continuation bit, and an inner byte has one.
loop_last {ℓ} :
    {E : Type ℓ} (buffer : List ℕ) (b rv shift : ℕ)
    → b < 128
    → next_size_loop {E = E} buffer b rv shift ≡ ok (rv, buffer)
unfolding next_size_loop
loop_last [] b rv shift h = ground (arith, more_bit b)
loop_last (c ∷ buffer) b rv shift h = ground (arith, more_bit b)

loop_more {ℓ} :
    {E : Type ℓ} (buffer : List ℕ) (b rv shift : ℕ)
    → 128 ≤ b
    → b < 256
    → next_size_loop {E = E} buffer b rv shift ≡ read_byte buffer rv shift
unfolding next_size_loop read_byte
loop_more [] b rv shift h k = ground (arith, more_bit b)
loop_more (c ∷ buffer) b rv shift h k = ground (arith, more_bit b)

read_byte_last {ℓ} :
    {E : Type ℓ} (last rv shift : ℕ) (rest : List ℕ)
    → last < 128
    → rv < 2 ^ shift
    → rv + last * 2 ^ shift < 2 ^ 64
    → read_byte {E = E} (last ∷ rest) rv shift ≡ ok (rv + last * 2 ^ shift, rest)
unfolding read_byte
read_byte_last last rv shift rest hl hr fits =
    loop_last rest last _ (shift + 7) hl
    ∙ ap (λ v. ok (v, rest))
        (read_value last rv shift hr small ∙ ap (λ (t : ℕ). rv + t * 2 ^ shift) low)
  where
    low : last % 128 ≡ last
    low = omega arith

    small : last % 128 * 2 ^ shift < 2 ^ 64
    small = rw low (omega arith)

inner : (last : ℕ) → last < 128 → bit_or last 0x80 ≡ last + 128
inner last h = bit_or_fields 7 last 1 h

read_byte_inner {ℓ} :
    {E : Type ℓ} (last rv shift : ℕ) (buffer : List ℕ)
    → last < 128
    → rv < 2 ^ shift
    → rv + last * 2 ^ shift < 2 ^ 64
    → read_byte {E = E} (bit_or last 0x80 ∷ buffer) rv shift
      ≡ read_byte buffer (rv + last * 2 ^ shift) (shift + 7)
unfolding read_byte
read_byte_inner last rv shift buffer hl hr fits = rw (inner last hl) (
    loop_more buffer (last + 128) _ (shift + 7) (omega arith) (omega arith)
    ∙ ap (λ v. read_byte buffer v (shift + 7))
        (read_value (last + 128) rv shift hr small ∙ ap (λ (t : ℕ). rv + t * 2 ^ shift) low))
  where
    low : (last + 128) % 128 ≡ last
    low = omega arith

    small : (last + 128) % 128 * 2 ^ shift < 2 ^ 64
    small = rw low (omega arith)

-- What is still to be written stands at bit `shift`.
pending_split :
    (last size shift : ℕ)
    → last * 2 ^ shift + (size % 128 + 128 * (size / 2 ^ 7)) * 2 ^ (shift + 7)
      ≡ (last + 128 * size) * 2 ^ shift
pending_split last size shift = omega (
  arith,
  ap (λ (t : ℕ). (size % 128 + 128 * (size / 128)) * t) (shift_seven shift),
  ap (λ (t : ℕ). 128 * (t * 2 ^ shift)) (mod-add-div size 128),
)

mul_mono : (a b t : ℕ) → a ≤ b → a * t ≤ b * t
mul_mono a b t h = grind arith

next_bound :
    (last rv shift : ℕ) → last < 128 → rv < 2 ^ shift → rv + last * 2 ^ shift < 2 ^ (shift + 7)
next_bound last rv shift hl hr =
    omega (arith, shift_seven shift, mul_mono last 127 (2 ^ shift) (omega arith))

read_byte-loop {ℓ} :
    {E : Type ℓ} (last size rv shift : ℕ) (w : Acc ◌<◌ size) (rest : List ℕ)
    → last < 128
    → rv < 2 ^ shift
    → rv + (last + 128 * size) * 2 ^ shift < 2 ^ 64
    → read_byte {E = E} (encode_size_loop last size w ++ rest) rv shift
      ≡ ok (rv + (last + 128 * size) * 2 ^ shift, rest)
unfolding encode_size_loop
read_byte-loop {E} last size rv shift (Acc.intro _ smaller) rest hl hr fits = elim (dec_lt 0 size) [
  | no h ↦ rw (dif_neg _ h) (stop (omega arith))
  | yes h ↦ rw (dif_pos _ le_prop h) (
      read_byte_inner last rv shift _ hl hr
        (omega (arith, mul_mono last (last + 128 * size) (2 ^ shift)))
      ∙ read_byte-loop (bit_and size 0x7f) (size / 2 ^ 7) (rv + last * 2 ^ shift) (shift + 7)
          (smaller _ (size_shrinks size h)) rest (omega (arith, low_seven size))
          (next_bound last rv shift hl hr)
          (rw (low_seven size) (omega (arith, pending_split last size shift)))
      ∙ ap (λ v. ok (v, rest)) (rw (low_seven size) (omega (arith, pending_split last size shift))))
]
  where
    stop :
        size ≡ 0
        → read_byte {E = E} (last ∷ rest) rv shift ≡ ok (rv + (last + 128 * size) * 2 ^ shift, rest)
    stop h =
        let same : last + 128 * size ≡ last = omega arith in
        rw same (read_byte_last last rv shift rest hl hr (rw same at fits))

-- nextSize returns the size that encodeSize wrote and leaves what follows it, for every size of at
-- most 57 bits.
pub next_size-encode_size {ℓ} :
    {E : Type ℓ} (size : ℕ) (rest : List ℕ)
    → size < 2 ^ 57
    → next_size {E = E} (encode_size size ++ rest) ≡ ok (size, rest)
unfolding encode_size
next_size-encode_size size rest h =
    next_size-read_byte _
    ∙ read_byte-loop (bit_and size 0x7f) (size / 2 ^ 7) 0 0 (lt_wf.apply (size / 2 ^ 7)) rest
        (omega (arith, low_seven size)) (omega arith) (omega (arith, low_seven size))
    ∙ ap (λ v. ok (v, rest)) (omega (arith, low_seven size))

-- decodeHeader reads back the two lengths that encodeHeader wrote, cut to 32 bits, and stops where
-- the opcodes begin.
pub decode_header-encode_header {ℓ} :
    {E : Type ℓ} (source target opcodes : List ℕ)
    → decode_header {E = E} (encode_header source target ++ opcodes)
      ≡ ok (length source % 2 ^ 32, length target % 2 ^ 32, opcodes)
unfolding decode_header encode_header
decode_header-encode_header source target opcodes =
    rw (append_assoc, next_size-encode_size (length source % 2 ^ 32) _ (omega arith))
      (rw (next_size-encode_size (length target % 2 ^ 32) opcodes (omega arith)))

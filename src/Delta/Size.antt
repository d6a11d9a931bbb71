-- ===== src/Delta/Size.antt =====
-- encodeSize, encodeHeader, nextSize and decodeHeader of delta.go: the two sizes at the head of a
-- delta, in groups of seven bits, lowest first. A buffer that is read is what lies behind the
-- offset.
pub mod RoundTrip
use git4go.Common.{
  ℕ, ◌+◌, ◌*◌, ◌/◌, ◌%◌, ◌^◌, ◌<◌, bit_and, bit_or, arith, List, [], ◌∷◌, ◌++◌, length, dite,
  dec_lt, ◌==◌, if◌then◌else◌, Outcome, ok, panic, ◌>>=◌,
}
use git4go.Common.Bits.{lt_wf}
use mathlib.Core.WellFounded.{Acc}

pub size_shrinks : (size : ℕ) → 0 < size → size / 2 ^ 7 < size
size_shrinks size h = omega arith

-- The loop of encodeSize: `last` is lastCode, and `size` what is still to be written.
unfoldable pub encode_size_loop : (last size : ℕ) → Acc ◌<◌ size → List ℕ
encode_size_loop last size (Acc.intro _ smaller) =
    dite (dec_lt 0 size)
      (λ h.
        bit_or last 0x80
        ∷ encode_size_loop (bit_and size 0x7f) (size / 2 ^ 7) (smaller _ (size_shrinks size h)))
      (λ _. last ∷ [])

unfoldable pub encode_size : ℕ → List ℕ
unfolding encode_size_loop lt_wf dec_lt
encode_size size = encode_size_loop (bit_and size 0x7f) (size / 2 ^ 7) (lt_wf.apply (size / 2 ^ 7))

-- The lengths are cut to 32 bits.
unfoldable pub encode_header : List ℕ → List ℕ → List ℕ
unfolding encode_size
encode_header source target =
    encode_size (length source % 2 ^ 32) ++ encode_size (length target % 2 ^ 32)

-- The loop of nextSize: `b` is the byte read last, and `buffer` what lies behind it. An offset at
-- the end is an index out of range.
unfoldable pub next_size_loop {ℓ} :
    {E : Type ℓ} → List ℕ → (b rv shift : ℕ) → Outcome E (ℕ × List ℕ)
next_size_loop [] b rv shift = if bit_and b 0x80 == 0 then ok (rv, []) else panic
next_size_loop (c ∷ buffer) b rv shift =
    let more =
      next_size_loop buffer c (bit_or rv (bit_and c 0x7f * 2 ^ shift % 2 ^ 64)) (shift + 7) in
    if bit_and b 0x80 == 0 then ok (rv, c ∷ buffer) else more

unfoldable pub next_size {ℓ} : {E : Type ℓ} → List ℕ → Outcome E (ℕ × List ℕ)
unfolding next_size_loop
next_size [] = panic
next_size (b ∷ buffer) = next_size_loop buffer b (bit_and b 0x7f) 7

unfoldable pub decode_header {ℓ} : {E : Type ℓ} → List ℕ → Outcome E (ℕ × ℕ × List ℕ)
unfolding next_size
decode_header buffer = do
  (source_length, buffer') ← next_size buffer
  (target_length, rest) ← next_size buffer'
  ok (source_length, target_length, rest)

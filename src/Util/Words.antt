-- ===== src/Util/Words.antt =====
-- The readers of util.go on numbers that are written with the highest byte first.
use git4go.Common.{
  ℕ, ◌+◌, ◌*◌, ◌/◌, ◌%◌, ◌^◌, ◌<◌, bit_or, ◌≡◌, refl, ap, ap₂, ◌∙◌, List, [], ◌∷◌, ◌++◌, arith,
  length, get_elem?-append, ok, GitError, or_panic, byte_at,
}
use git4go.Common.Masks.{bit_or_high}
use native.Mathlib.Nat.{add_assoc}
use git4go.Util.{ntohl_from_bytes, ntohs_from_bytes}

-- A number of 32 bits and one of 16, highest byte first.
abbrev pub be32 : ℕ → List ℕ
be32 v = (v / 2 ^ 24) ∷ (v / 2 ^ 16 % 256) ∷ (v / 2 ^ 8 % 256) ∷ (v % 256) ∷ []

abbrev pub be16 : ℕ → List ℕ
be16 v = (v / 2 ^ 8) ∷ (v % 256) ∷ []

joined :
    (k high low : ℕ) {x y : ℕ}
    → x ≡ high * 2 ^ k
    → y ≡ low
    → low < 2 ^ k
    → bit_or x y ≡ high * 2 ^ k + low
joined k high low e e' h = ap₂ bit_or e e' ∙ bit_or_high k low high h

pub be32_value :
    (v : ℕ)
    → v < 2 ^ 32
    → bit_or
        (bit_or
          (bit_or (v / 2 ^ 24 * 2 ^ 24 % 2 ^ 32) (v / 2 ^ 16 % 256 * 2 ^ 16 % 2 ^ 32))
          (v / 2 ^ 8 % 256 * 2 ^ 8 % 2 ^ 32))
        (v % 256 % 2 ^ 32)
      ≡ v
be32_value v h =
    joined 8 (v / 256) (v % 256)
      (joined 16 (v / 65536) (v / 256 % 256 * 256)
          (joined 24 (v / 16777216) (v / 65536 % 256 * 65536) (omega arith) (omega arith)
              (omega arith)
            ∙ omega arith)
          (omega arith) (omega arith)
        ∙ omega arith)
      (omega arith) (omega arith)
    ∙ omega arith

be16_value : (v : ℕ) → v < 2 ^ 16 → bit_or (v / 2 ^ 8 * 2 ^ 8 % 2 ^ 16) (v % 256 % 2 ^ 16) ≡ v
be16_value v h =
    joined 8 (v / 256) (v % 256) (omega arith) (omega arith) (omega arith) ∙ omega arith

-- Reading behind a front is reading what follows it.
byte_at-append :
    (front ys : List ℕ) (k : ℕ)
    → byte_at {E = GitError} (front ++ ys) (length front + k) ≡ byte_at ys k
byte_at-append front ys k = ap or_panic (get_elem?-append front ys k)

pub ntohl_from_bytes-append :
    (front ys : List ℕ) (k : ℕ)
    → ntohl_from_bytes (front ++ ys) (length front + k) ≡ ntohl_from_bytes ys k
unfolding ntohl_from_bytes
ntohl_from_bytes-append front ys k =
    simp
      (
        add_assoc,
        byte_at-append front ys k,
        byte_at-append front ys (k + 1),
        byte_at-append front ys (k + 2),
        byte_at-append front ys (k + 3),
      )
      refl

pub ntohs_from_bytes-append :
    (front ys : List ℕ) (k : ℕ)
    → ntohs_from_bytes (front ++ ys) (length front + k) ≡ ntohs_from_bytes ys k
unfolding ntohs_from_bytes
ntohs_from_bytes-append front ys k =
    simp (add_assoc, byte_at-append front ys k, byte_at-append front ys (k + 1)) refl

-- ntohlFromBytes reads back a number of 32 bits, wherever it stands.
pub ntohl_from_bytes-be32 :
    (front rest : List ℕ) (v : ℕ)
    → v < 2 ^ 32
    → ntohl_from_bytes (front ++ (be32 v ++ rest)) (length front) ≡ ok v
ntohl_from_bytes-be32 front rest v h =
    ap (ntohl_from_bytes (front ++ (be32 v ++ rest))) (omega arith)
    ∙ ntohl_from_bytes-append front (be32 v ++ rest) 0
    ∙ unfold ntohl_from_bytes in ap ok (be32_value v h)

pub ntohs_from_bytes-be16 :
    (front rest : List ℕ) (v : ℕ)
    → v < 2 ^ 16
    → ntohs_from_bytes (front ++ (be16 v ++ rest)) (length front) ≡ ok v
ntohs_from_bytes-be16 front rest v h =
    ap (ntohs_from_bytes (front ++ (be16 v ++ rest))) (omega arith)
    ∙ ntohs_from_bytes-append front (be16 v ++ rest) 0
    ∙ unfold ntohs_from_bytes in ap ok (be16_value v h)

-- ===== src/Oid/RoundTrip.antt =====
-- Hexadecimal texts of ids in oid.go, there and back.
use git4go.Common.{
  overwrite-eq, slice_range-ok, append-nil, ℕ, ◌+◌, ◌*◌, ◌/◌, ◌%◌, ◌<◌, ◌≡◌, refl, sym, ap, ◌∙◌,
  ◌≢◌, inl, inr, false, ◌&&◌, some, List, [], ◌∷◌, ◌++◌, arith, ltb, leb, ◌==◌, if◌then◌else◌,
  Bool-cases, ==_iff, length, take, All, copy_at, length-append, take-append_self, Outcome, ◌>>=◌,
  >>=-eq-ok, ok-injective, ok, err, GitError, or_error-eq-ok, message,
}
use git4go.Oid.{
  oid_raw_size, oid_hex_size, Oid, IsOid, zero_oid, new_oid_from_bytes, hex_digit, hex_value,
  encode_to_string, decode_string, new_oid, string,
}

hex_value-hex_digit : (d : ℕ) → d < 16 → hex_value (hex_digit d) ≡ some d
unfolding hex_value hex_digit
hex_value-hex_digit d h = ground arith

byte_digits : (b : ℕ) → b / 16 * 16 + b % 16 ≡ b
byte_digits b = omega arith

pub length-encode_to_string : (bytes : List ℕ) → length (encode_to_string bytes) ≡ 2 * length bytes
unfolding encode_to_string
length-encode_to_string [] = refl
length-encode_to_string (b ∷ bytes) = omega (arith, length-encode_to_string bytes)

pub decode_string-encode_to_string :
    (bytes : List ℕ) → All (λ b. b < 256) bytes → decode_string (encode_to_string bytes) ≡ ok bytes
unfolding decode_string encode_to_string
decode_string-encode_to_string [] h = refl
decode_string-encode_to_string (b ∷ bytes) h =
    rw
      (
        hex_value-hex_digit (b / 16) (omega arith),
        hex_value-hex_digit (b % 16) (omega arith),
        decode_string-encode_to_string bytes h.1,
      )
      (ap (λ t. ok (t ∷ bytes)) (byte_digits b))

pub copy_at_whole :
    (dst src : List ℕ) → length src ≡ length dst → copy_at dst 0 (take (length dst) src) ≡ src
copy_at_whole [] [] h = refl
copy_at_whole [] (s ∷ src) h = absurd (omega arith)
copy_at_whole (d ∷ dst) [] h = absurd (omega arith)
copy_at_whole (d ∷ dst) (s ∷ src) h = ap (◌∷◌ s) (copy_at_whole dst src (omega arith))

-- NewOid reads back the text that String writes, for every id.
pub new_oid-string : (oid : Oid) → IsOid oid → new_oid (string oid) ≡ ok oid
unfolding new_oid string
new_oid-string oid h =
    rw (decode_string-encode_to_string oid h.1, digits, h.0)
      (ap ok (copy_at_whole zero_oid oid h.0))
  where
    digits : length (encode_to_string oid) ≡ 40
    digits = omega (arith, length-encode_to_string oid, h.0)

-- The digit as hex.EncodeToString writes it.
lower : ℕ → ℕ
lower c = if leb 65 c && leb c 70 then c + 32 else c

pub lower_all : List ℕ → List ℕ
unfolding lower
lower_all [] = []
lower_all (c ∷ s) = lower c ∷ lower_all s

hex_value_lem : (c v : ℕ) → hex_value c ≡ some v → (v < 16) × (hex_digit v ≡ lower c)
unfolding hex_value hex_digit lower
hex_value_lem c v h = (ground arith, ground arith)

byte_of :
    (high low : ℕ) → low < 16 → ((high * 16 + low) / 16 ≡ high) × ((high * 16 + low) % 16 ≡ low)
byte_of high low h = (omega arith, omega arith)

decode_string-eq-ok :
    (s bytes : List ℕ)
    → decode_string s ≡ ok bytes
    → (encode_to_string bytes ≡ lower_all s) × All (λ b. b < 256) bytes
unfolding decode_string encode_to_string lower_all
decode_string-eq-ok [] [] h = (refl, tt)
decode_string-eq-ok [] (b ∷ bytes) h = cc
decode_string-eq-ok (c ∷ []) bytes h = cc
decode_string-eq-ok (c ∷ c' ∷ s) bytes h =
    let (high, h1, h) = >>=-eq-ok _ _ h in
    let (low, h2, h) = >>=-eq-ok _ _ h in
    let (rest, h3, h) = >>=-eq-ok _ _ h in
    let first = hex_value_lem c high (or_error-eq-ok _ _ h1) in
    let second = hex_value_lem c' low (or_error-eq-ok _ _ h2) in
    let (texts, small) = decode_string-eq-ok s rest h3 in
    let split = byte_of high low second.0 in
    let whole : bytes ≡ (high * 16 + low) ∷ rest = cc in
    rw whole (
      rw (split.0, split.1, first.1, second.1, texts) refl,
      (omega (arith, first.0, second.0), small),
    )

-- What NewOid accepts is an id, whose String is the text with its capitals made small.
pub string-new_oid :
    (s : List ℕ) (oid : Oid) → new_oid s ≡ ok oid → IsOid oid × (string oid ≡ lower_all s)
unfolding new_oid string
string-new_oid s oid h = elim (Bool-cases (ltb oid_hex_size (length s))) [
  | inl e ↦ absurd (too_long {e = message "string is too long for oid"} (sym h ∙ rw e refl))
  | inr e ↦ within (sym (open_branch e) ∙ h)
]
  where
    checked : List ℕ → Outcome GitError Oid
    checked bytes =
        if length bytes == oid_raw_size
        then ok (copy_at zero_oid 0 (take oid_raw_size bytes))
        else err (message "Invalid Oid")

    too_long : {e : GitError} → ◌≢◌ {A = Outcome GitError Oid} (ok oid) (err e)
    too_long = λ p. cc

    open_branch :
        ltb oid_hex_size (length s) ≡ false
        → new_oid s ≡ (decode_string s >>= λ bytes. checked bytes)
    open_branch e = rw e refl

    accepted :
        (bytes : List ℕ)
        → decode_string s ≡ ok bytes
        → checked bytes ≡ ok oid
        → IsOid oid × (string oid ≡ lower_all s)
    accepted bytes decoded h' = elim (Bool-cases (length bytes == oid_raw_size)) [
      | inl e ↦
          let size : length bytes ≡ 20 = (==_iff _ _).0 e in
          let same : bytes ≡ oid =
            sym (copy_at_whole zero_oid bytes size) ∙ ok-injective (sym (rw e refl) ∙ h') in
          let (texts, small) = decode_string-eq-ok s bytes decoded in
          rw (← same) ((size, small), texts)
      | inr e ↦ absurd (too_long {e = message "Invalid Oid"} (sym h' ∙ rw e refl))
    ]

    within :
        (decode_string s >>= λ bytes. checked bytes) ≡ ok oid
        → IsOid oid × (string oid ≡ lower_all s)
    within p = let (bytes, decoded, h') = >>=-eq-ok _ _ p in accepted bytes decoded h'

-- NewOidFromBytes takes the id in front of anything.
pub new_oid_from_bytes-append {ℓ} :
    {E : Type ℓ} (oid : Oid) (rest spare : List ℕ)
    → length oid ≡ 20
    → new_oid_from_bytes {E = E} (oid ++ rest) spare ≡ ok oid
unfolding new_oid_from_bytes
new_oid_from_bytes-append {E} oid rest spare h =
    rw
      (
        slice_range-ok {E = E} (record { elems = oid ++ rest; spare = spare }) 0 20
            (omega (arith, length-append oid rest, h)),
        front,
        overwrite-eq zero_oid oid (omega (arith, h)),
        h,
        append-nil oid,
      )
      refl
  where
    front : take 20 (oid ++ rest) ≡ oid
    front = ap (λ n. take n (oid ++ rest)) (sym h) ∙ take-append_self oid rest

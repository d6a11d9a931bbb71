-- ===== src/Delta/CopyField.antt =====
-- One field of a copy opcode, as emitCopy writes it and ApplyDelta reads it.
use git4go.Common.{
  ℕ, zero, suc, ◌+◌, ◌*◌, ◌/◌, ◌%◌, ◌^◌, ◌≤◌, ◌<◌, ◌≡◌, refl, sym, ap, ap₂, ◌∙◌, bit_and, bit_or,
  arith, List, [], ◌∷◌, ◌++◌, append-nil, true, false, not, ◌||◌, ◌==◌, ==_iff, if◌then◌else◌, ok,
  Bool-cases, inl, inr, holds_below, holds_below_at,
}
use git4go.Common.Bits.{bit_or_fields}
use git4go.Common.Masks.{byte_field, bit_field}
use git4go.Delta.Emit.{add_field}
use git4go.Delta.Apply.{read_field}
use native.Mathlib.Nat.{one-le-pow, mul-div_cancel}

-- The byte of `x` at bit `k`, whether it is there, and how it is written.
abbrev pub byte_at : ℕ → ℕ → ℕ
byte_at x k = x / 2 ^ k % 256

abbrev pub present : ℕ → ℕ
present b = if b == 0 then 0 else 1

abbrev pub field_bytes : ℕ → List ℕ
field_bytes b = if b == 0 then [] else b ∷ []

pub present-le : (b : ℕ) → present b ≤ 1
present-le b = ground arith

or_flag_table :
    holds_below
      (λ j. holds_below (λ c. not (c / 2 ^ j % 2 == 0) || (bit_or c (2 ^ j) == c + 2 ^ j)) 256)
      7
    ≡ true
unfolding holds_below
or_flag_table = refl

or_flag : (j c : ℕ) → j < 7 → c < 256 → c / 2 ^ j % 2 ≡ 0 → bit_or c (2 ^ j) ≡ c + 2 ^ j
or_flag j c hj hc free =
    let row = holds_below_at _ (holds_below_at _ or_flag_table j hj) c hc in
    (==_iff _ _).0 (rw ((==_iff (c / 2 ^ j % 2) 0).1 free) at row)

mul_mono : (a b t : ℕ) → a ≤ b → a * t ≤ b * t
mul_mono a b t h = grind arith

pow_pos : (k : ℕ) → 0 < 2 ^ k
pow_pos k = one-le-pow k 2 (omega arith)

field-zero : (b k : ℕ) → (b * 2 ^ k == 0) ≡ (b == 0)
field-zero zero k = ap (λ n. n == 0) (zero_mul (2 ^ k))
  where
    zero_mul : (t : ℕ) → 0 * t ≡ 0
    zero_mul t = omega arith
field-zero (suc b) k = ground (arith, mul_mono 1 (suc b) (2 ^ k) (omega arith), pow_pos k)

pub add_field_step :
    (j k value code : ℕ) (ops : List ℕ)
    → j < 7
    → code < 256
    → code / 2 ^ j % 2 ≡ 0
    → add_field value (0xff * 2 ^ k) k (2 ^ j) (code, ops)
      ≡ (code + 2 ^ j * present (byte_at value k), ops ++ field_bytes (byte_at value k))
unfolding add_field
add_field_step j k value code ops hj hc free =
    rw
      (
        byte_field k value,
        field-zero (byte_at value k) k,
        mul-div_cancel (byte_at value k) (pow_pos k),
      )
      (elim (Bool-cases (byte_at value k == 0)) [
        | inl e ↦ rw e (ap₂ pair (omega arith) (sym (append-nil ops)))
        | inr e ↦ rw (e, or_flag j code hj hc free) (ap₂ pair (omega arith) refl)
      ])
  where
    pair : ℕ → List ℕ → ℕ × List ℕ
    pair a b = (a, b)

suc_nonzero : (b : ℕ) → (suc b == 0) ≡ false
suc_nonzero b = ground arith

bit-present :
    (j opcode b : ℕ) → opcode / 2 ^ j % 2 ≡ present b → (bit_and opcode (2 ^ j) == 0) ≡ (b == 0)
bit-present j opcode b h =
    ap (λ m. bit_and opcode m == 0) (one_mul (2 ^ j))
    ∙ rw (bit_field j opcode, h) (field-zero (present b) j ∙ ground arith)
  where
    one_mul : (t : ℕ) → t ≡ 1 * t
    one_mul t = omega arith

read_field_absent :
    (opcode flag k acc : ℕ) (l : List ℕ)
    → (bit_and opcode flag == 0) ≡ true
    → read_field opcode flag k (acc, l) ≡ ok (acc, l)
unfolding read_field
read_field_absent opcode flag k acc [] h = rw h
read_field_absent opcode flag k acc (c ∷ l) h = rw h

read_field_present :
    (opcode flag k acc c : ℕ) (l : List ℕ)
    → (bit_and opcode flag == 0) ≡ false
    → read_field opcode flag k (acc, c ∷ l) ≡ ok (bit_or acc (c * 2 ^ k), l)
unfolding read_field
read_field_present opcode flag k acc c l h = rw h

-- A field that the opcode announces is read, and one that it does not is 0.
pub read_field_step :
    (j k b opcode acc : ℕ) (rest : List ℕ)
    → acc < 2 ^ k
    → opcode / 2 ^ j % 2 ≡ present b
    → read_field opcode (2 ^ j) k (acc, field_bytes b ++ rest) ≡ ok (acc + b * 2 ^ k, rest)
read_field_step j k zero opcode acc rest ha hb =
    read_field_absent opcode (2 ^ j) k acc rest (bit-present j opcode zero hb)
    ∙ ap (λ n. ok (n, rest)) (omega arith)
read_field_step j k (suc b) opcode acc rest ha hb = rw (suc_nonzero b) (
    read_field_present opcode (2 ^ j) k acc (suc b) rest
      (bit-present j opcode (suc b) hb ∙ suc_nonzero b)
    ∙ ap (λ n. ok (n, rest)) (bit_or_fields k acc (suc b) ha))

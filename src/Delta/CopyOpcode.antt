-- ===== src/Delta/CopyOpcode.antt =====
-- The opcode that emitCopy of delta.go writes for a copy: the seven bytes of an offset and
-- a length, of which those that are 0 are left out and a bit of the opcode tells which.
use git4go.Common.{ℕ, ◌+◌, ◌*◌, ◌≡◌, ap, ◌∙◌, bit_and, arith, List, [], ◌∷◌, ◌++◌}
use git4go.Common.Masks.{bit_field}
use git4go.Delta.Emit.{add_field, emit_copy}
use git4go.Delta.CopyField.{byte_at, present, present-le, field_bytes, add_field_step}

-- The opcode of a copy, by the fields that are there.
abbrev pub code_of : (p q r s t u v : ℕ) → ℕ
code_of p q r s t u v = 128 + p + 2 * q + 4 * r + 8 * s + 16 * t + 32 * u + 64 * v

ruleset bounds = (arith, present-le)

module _ (offset length : ℕ) where
  abbrev pub f0 : ℕ
  f0 = byte_at offset 0

  abbrev pub f1 : ℕ
  f1 = byte_at offset 8

  abbrev pub f2 : ℕ
  f2 = byte_at offset 16

  abbrev pub f3 : ℕ
  f3 = byte_at offset 24

  abbrev pub f4 : ℕ
  f4 = byte_at length 0

  abbrev pub f5 : ℕ
  f5 = byte_at length 8

  abbrev pub f6 : ℕ
  f6 = byte_at length 16

  step_0 :
      (ops : List ℕ)
      → add_field offset 0xff 0 0x1 (code_of 0 0 0 0 0 0 0, ops)
        ≡ (code_of (present f0) 0 0 0 0 0 0, ops ++ field_bytes f0)
  step_0 ops =
      add_field_step 0 0 offset (code_of 0 0 0 0 0 0 0) ops (omega arith) (omega bounds)
        (omega bounds)
      ∙ ap (λ c. (c, ops ++ field_bytes f0)) (omega arith)

  step_1 :
      (ops : List ℕ)
      → add_field offset 0xff00 8 0x2 (code_of (present f0) 0 0 0 0 0 0, ops)
        ≡ (code_of (present f0) (present f1) 0 0 0 0 0, ops ++ field_bytes f1)
  step_1 ops =
      add_field_step 1 8 offset (code_of (present f0) 0 0 0 0 0 0) ops (omega arith) (omega bounds)
        (omega bounds)
      ∙ ap (λ c. (c, ops ++ field_bytes f1)) (omega arith)

  step_2 :
      (ops : List ℕ)
      → add_field offset 0xff0000 16 0x4 (code_of (present f0) (present f1) 0 0 0 0 0, ops)
        ≡ (code_of (present f0) (present f1) (present f2) 0 0 0 0, ops ++ field_bytes f2)
  step_2 ops =
      add_field_step 2 16 offset (code_of (present f0) (present f1) 0 0 0 0 0) ops (omega arith)
        (omega bounds) (omega bounds)
      ∙ ap (λ c. (c, ops ++ field_bytes f2)) (omega arith)

  step_3 :
      (ops : List ℕ)
      → add_field offset 0xff000000 24 0x8
          (code_of (present f0) (present f1) (present f2) 0 0 0 0, ops)
        ≡ (code_of (present f0) (present f1) (present f2) (present f3) 0 0 0, ops ++ field_bytes f3)
  step_3 ops =
      add_field_step 3 24 offset (code_of (present f0) (present f1) (present f2) 0 0 0 0) ops
        (omega arith) (omega bounds) (omega bounds)
      ∙ ap (λ c. (c, ops ++ field_bytes f3)) (omega arith)

  step_4 :
      (ops : List ℕ)
      → add_field length 0xff 0 0x10
          (code_of (present f0) (present f1) (present f2) (present f3) 0 0 0, ops)
        ≡ (
          code_of (present f0) (present f1) (present f2) (present f3) (present f4) 0 0,
          ops ++ field_bytes f4,
        )
  step_4 ops =
      add_field_step 4 0 length (code_of (present f0) (present f1) (present f2) (present f3) 0 0 0)
        ops (omega arith) (omega bounds) (omega bounds)
      ∙ ap (λ c. (c, ops ++ field_bytes f4)) (omega arith)

  step_5 :
      (ops : List ℕ)
      → add_field length 0xff00 8 0x20
          (code_of (present f0) (present f1) (present f2) (present f3) (present f4) 0 0, ops)
        ≡ (
          code_of (present f0) (present f1) (present f2) (present f3) (present f4) (present f5) 0,
          ops ++ field_bytes f5,
        )
  step_5 ops =
      add_field_step 5 8 length
        (code_of (present f0) (present f1) (present f2) (present f3) (present f4) 0 0) ops
        (omega arith) (omega bounds) (omega bounds)
      ∙ ap (λ c. (c, ops ++ field_bytes f5)) (omega arith)

  step_6 :
      (ops : List ℕ)
      → add_field length 0xff0000 16 0x40 (
        code_of (present f0) (present f1) (present f2) (present f3) (present f4) (present f5) 0,
        ops,
      )
        ≡ (
          code_of
              (present f0)
              (present f1)
              (present f2)
              (present f3)
              (present f4)
              (present f5)
              (present f6),
          ops ++ field_bytes f6,
        )
  step_6 ops =
      add_field_step 6 16 length
        (code_of (present f0) (present f1) (present f2) (present f3) (present f4) (present f5) 0)
        ops (omega arith) (omega bounds) (omega bounds)
      ∙ ap (λ c. (c, ops ++ field_bytes f6)) (omega arith)

  abbrev s0 : ℕ × List ℕ
  s0 = (0x80, [])

  abbrev s1 : ℕ × List ℕ
  s1 = add_field offset 0xff 0 0x1 s0

  abbrev s2 : ℕ × List ℕ
  s2 = add_field offset 0xff00 8 0x2 s1

  abbrev s3 : ℕ × List ℕ
  s3 = add_field offset 0xff0000 16 0x4 s2

  abbrev s4 : ℕ × List ℕ
  s4 = add_field offset 0xff000000 24 0x8 s3

  abbrev s5 : ℕ × List ℕ
  s5 = add_field length 0xff 0 0x10 s4

  abbrev s6 : ℕ × List ℕ
  s6 = add_field length 0xff00 8 0x20 s5

  abbrev s7 : ℕ × List ℕ
  s7 = add_field length 0xff0000 16 0x40 s6

  state_1 : s1 ≡ (code_of (present f0) 0 0 0 0 0 0, ([] ++ field_bytes f0))
  state_1 = step_0 []

  state_2 :
      s2 ≡ (code_of (present f0) (present f1) 0 0 0 0 0, (([] ++ field_bytes f0) ++ field_bytes f1))
  state_2 = ap (add_field offset 0xff00 8 0x2) state_1 ∙ step_1 ([] ++ field_bytes f0)

  state_3 : s3 ≡ (
    code_of (present f0) (present f1) (present f2) 0 0 0 0,
    ((([] ++ field_bytes f0) ++ field_bytes f1) ++ field_bytes f2),
  )
  state_3 =
      ap (add_field offset 0xff0000 16 0x4) state_2
      ∙ step_2 (([] ++ field_bytes f0) ++ field_bytes f1)

  state_4 : s4 ≡ (
    code_of (present f0) (present f1) (present f2) (present f3) 0 0 0,
    (((([] ++ field_bytes f0) ++ field_bytes f1) ++ field_bytes f2) ++ field_bytes f3),
  )
  state_4 =
      ap (add_field offset 0xff000000 24 0x8) state_3
      ∙ step_3 ((([] ++ field_bytes f0) ++ field_bytes f1) ++ field_bytes f2)

  state_5 : s5 ≡ (
    code_of (present f0) (present f1) (present f2) (present f3) (present f4) 0 0,
    ((((([] ++ field_bytes f0) ++ field_bytes f1) ++ field_bytes f2) ++ field_bytes f3)
        ++ field_bytes f4),
  )
  state_5 =
      ap (add_field length 0xff 0 0x10) state_4
      ∙ step_4 (((([] ++ field_bytes f0) ++ field_bytes f1) ++ field_bytes f2) ++ field_bytes f3)

  state_6 : s6 ≡ (
    code_of (present f0) (present f1) (present f2) (present f3) (present f4) (present f5) 0,
    (((((([] ++ field_bytes f0) ++ field_bytes f1) ++ field_bytes f2) ++ field_bytes f3)
          ++ field_bytes f4)
        ++ field_bytes f5),
  )
  state_6 =
      ap (add_field length 0xff00 8 0x20) state_5
      ∙ step_5 (
          (((([] ++ field_bytes f0) ++ field_bytes f1) ++ field_bytes f2) ++ field_bytes f3)
          ++ field_bytes f4)

  state_7 : s7 ≡ (
    code_of
        (present f0)
        (present f1)
        (present f2)
        (present f3)
        (present f4)
        (present f5)
        (present f6),
    ((((((([] ++ field_bytes f0) ++ field_bytes f1) ++ field_bytes f2) ++ field_bytes f3)
            ++ field_bytes f4)
          ++ field_bytes f5)
        ++ field_bytes f6),
  )
  state_7 =
      ap (add_field length 0xff0000 16 0x40) state_6
      ∙ step_6 (
          ((((([] ++ field_bytes f0) ++ field_bytes f1) ++ field_bytes f2) ++ field_bytes f3)
            ++ field_bytes f4)
          ++ field_bytes f5)

  -- The opcode that emitCopy writes, and the bytes behind it.
  abbrev pub copy_code : ℕ
  copy_code =
      code_of (present f0) (present f1) (present f2) (present f3) (present f4) (present f5)
        (present f6)

  pub copy_code_high : bit_and copy_code 0x80 ≡ 128
  copy_code_high = bit_field 7 copy_code ∙ omega bounds

  abbrev pub copy_fields : List ℕ
  copy_fields =
      ((((((([] ++ field_bytes f0) ++ field_bytes f1) ++ field_bytes f2) ++ field_bytes f3)
            ++ field_bytes f4)
          ++ field_bytes f5)
        ++ field_bytes f6)

  pub emit_copy-fields : emit_copy offset length ≡ copy_code ∷ copy_fields
  unfolding emit_copy
  emit_copy-fields = ap (λ (p : ℕ × List ℕ). p.0 ∷ p.1) state_7

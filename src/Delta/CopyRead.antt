-- ===== src/Delta/CopyRead.antt =====
-- The copy branch of ApplyDelta of delta.go on the opcode of a copy that emitCopy wrote.
use git4go.Common.{
  ℕ, ◌+◌, ◌*◌, ◌^◌, ◌<◌, ◌≡◌, arith, List, ◌++◌, append_assoc, false, ◌==◌, ok, ◌>>=◌, Slice,
  slice_range,
}
use git4go.Delta.Apply.{Output, write, read_field, copy_op}
use git4go.Delta.CopyField.{present-le, field_bytes, read_field_step}
use git4go.Delta.CopyOpcode.{f0, f1, f2, f3, f4, f5, f6, copy_code, copy_fields}

ruleset bounds = (arith, present-le)

module _ (offset length : ℕ) where
  -- The seven bytes and the opcode.
  abbrev g0 : ℕ
  g0 = f0 offset length

  abbrev g1 : ℕ
  g1 = f1 offset length

  abbrev g2 : ℕ
  g2 = f2 offset length

  abbrev g3 : ℕ
  g3 = f3 offset length

  abbrev g4 : ℕ
  g4 = f4 offset length

  abbrev g5 : ℕ
  g5 = f5 offset length

  abbrev g6 : ℕ
  g6 = f6 offset length

  abbrev opcode : ℕ
  opcode = copy_code offset length

  read_0 :
      (rest : List ℕ)
      → read_field opcode 0x1 0 (0, field_bytes g0 ++ rest) ≡ ok (0 + g0 * 2 ^ 0, rest)
  read_0 rest = read_field_step 0 0 g0 opcode (0) rest (omega arith) (omega bounds)

  read_1 :
      (rest : List ℕ)
      → read_field opcode 0x2 8 (0 + g0 * 2 ^ 0, field_bytes g1 ++ rest)
        ≡ ok (0 + g0 * 2 ^ 0 + g1 * 2 ^ 8, rest)
  read_1 rest = read_field_step 1 8 g1 opcode (0 + g0 * 2 ^ 0) rest (omega arith) (omega bounds)

  read_2 :
      (rest : List ℕ)
      → read_field opcode 0x4 16 (0 + g0 * 2 ^ 0 + g1 * 2 ^ 8, field_bytes g2 ++ rest)
        ≡ ok (0 + g0 * 2 ^ 0 + g1 * 2 ^ 8 + g2 * 2 ^ 16, rest)
  read_2 rest =
      read_field_step 2 16 g2 opcode (0 + g0 * 2 ^ 0 + g1 * 2 ^ 8) rest (omega arith) (omega bounds)

  read_3 :
      (rest : List ℕ)
      → read_field opcode 0x8 24 (0 + g0 * 2 ^ 0 + g1 * 2 ^ 8 + g2 * 2 ^ 16, field_bytes g3 ++ rest)
        ≡ ok (0 + g0 * 2 ^ 0 + g1 * 2 ^ 8 + g2 * 2 ^ 16 + g3 * 2 ^ 24, rest)
  read_3 rest =
      read_field_step 3 24 g3 opcode (0 + g0 * 2 ^ 0 + g1 * 2 ^ 8 + g2 * 2 ^ 16) rest (omega arith)
        (omega bounds)

  read_4 :
      (rest : List ℕ)
      → read_field opcode 0x10 0 (0, field_bytes g4 ++ rest) ≡ ok (0 + g4 * 2 ^ 0, rest)
  read_4 rest = read_field_step 4 0 g4 opcode (0) rest (omega arith) (omega bounds)

  read_5 :
      (rest : List ℕ)
      → read_field opcode 0x20 8 (0 + g4 * 2 ^ 0, field_bytes g5 ++ rest)
        ≡ ok (0 + g4 * 2 ^ 0 + g5 * 2 ^ 8, rest)
  read_5 rest = read_field_step 5 8 g5 opcode (0 + g4 * 2 ^ 0) rest (omega arith) (omega bounds)

  read_6 :
      (rest : List ℕ)
      → read_field opcode 0x40 16 (0 + g4 * 2 ^ 0 + g5 * 2 ^ 8, field_bytes g6 ++ rest)
        ≡ ok (0 + g4 * 2 ^ 0 + g5 * 2 ^ 8 + g6 * 2 ^ 16, rest)
  read_6 rest =
      read_field_step 6 16 g6 opcode (0 + g4 * 2 ^ 0 + g5 * 2 ^ 8) rest (omega arith) (omega bounds)

  offset_sum : offset < 2 ^ 32 → 0 + g0 * 2 ^ 0 + g1 * 2 ^ 8 + g2 * 2 ^ 16 + g3 * 2 ^ 24 ≡ offset
  offset_sum h = omega arith

  length_sum : length < 2 ^ 24 → 0 + g4 * 2 ^ 0 + g5 * 2 ^ 8 + g6 * 2 ^ 16 ≡ length
  length_sum h = omega arith

  fields_regroup :
      (rest : List ℕ)
      → (copy_fields offset length) ++ rest ≡ (
          field_bytes g0
          ++ (field_bytes g1
              ++ (field_bytes g2
                  ++ (field_bytes g3
                      ++ (field_bytes g4 ++ (field_bytes g5 ++ (field_bytes g6 ++ rest)))))))
  fields_regroup rest = simp append_assoc

  -- The copy branch of ApplyDelta, on what emitCopy wrote, reads the offset and the length and
  -- leaves what follows.
  pub copy_op-emit_copy :
      (base : Slice) (rest : List ℕ) (out : Output)
      → offset < 2 ^ 32
      → 0 < length
      → length < 2 ^ 24
      → copy_op base opcode ((copy_fields offset length) ++ rest) out ≡ (
          slice_range base offset length >>= λ bytes.
          write out bytes length >>= λ out'. ok (rest, out'))
  unfolding copy_op
  copy_op-emit_copy base rest out ho pos hl = rw (fields_regroup rest) (
      rw
        (
          read_0 (
              field_bytes g1
              ++ (field_bytes g2
                  ++ (field_bytes g3
                      ++ (field_bytes g4 ++ (field_bytes g5 ++ (field_bytes g6 ++ rest)))))),
          read_1 (
              field_bytes g2
              ++ (field_bytes g3
                  ++ (field_bytes g4 ++ (field_bytes g5 ++ (field_bytes g6 ++ rest))))),
          read_2
              (field_bytes g3 ++ (field_bytes g4 ++ (field_bytes g5 ++ (field_bytes g6 ++ rest)))),
          read_3 (field_bytes g4 ++ (field_bytes g5 ++ (field_bytes g6 ++ rest))),
          read_4 (field_bytes g5 ++ (field_bytes g6 ++ rest)),
          read_5 (field_bytes g6 ++ rest),
          read_6 rest,
        )
        (rw (offset_sum ho, length_sum hl) (rw nonzero)))
    where
      nonzero : (length == 0) ≡ false
      nonzero = ground arith

-- ===== src/Delta/Emit.antt =====
-- emitInsert and emitCopy of delta.go, and the errors of that file.
use git4go.Common.{
  ℕ, ◌/◌, ◌^◌, bit_and, bit_or, List, [], ◌∷◌, ◌++◌, take, ltb, ◌==◌, if◌then◌else◌, Outcome, ok,
  err,
}

-- The messages of delta.go, with the numbers that they carry.
pub data DeltaError : Type 0 where
  invalid_insert_opcode : DeltaError
  computing_delta_buffer : DeltaError
  invalid_base_buffer_length : (base_size size : ℕ) → DeltaError
  invalid_delta_opcode : (offset : ℕ) → DeltaError
  patching_base_buffer : DeltaError

-- The bytes that the call appends to the opcodes.
unfoldable pub emit_insert : List ℕ → ℕ → Outcome DeltaError (List ℕ)
emit_insert buffer length =
    if ltb 127 length then err invalid_insert_opcode else ok (length ∷ take length buffer)

-- One `if` of emitCopy: a byte of `value` that is not 0 is appended to ops, and its bit set in
-- code.
unfoldable pub add_field : (value mask shift flag : ℕ) → ℕ × List ℕ → ℕ × List ℕ
add_field value mask shift flag (code, ops) =
    if bit_and value mask == 0
    then (code, ops)
    else (bit_or code flag, ops ++ (bit_and value mask / 2 ^ shift ∷ []))

unfoldable pub emit_copy : (offset length : ℕ) → List ℕ
unfolding add_field
emit_copy offset length =
    let s = add_field offset 0xff 0 0x01 (0x80, []) in
    let s = add_field offset 0xff00 8 0x02 s in
    let s = add_field offset 0xff0000 16 0x04 s in
    let s = add_field offset 0xff000000 24 0x08 s in
    let s = add_field length 0xff 0 0x10 s in
    let s = add_field length 0xff00 8 0x20 s in
    let (code, ops) = add_field length 0xff0000 16 0x40 s in code ∷ ops

-- ===== src/Delta/Apply.antt =====
-- ApplyDelta of delta.go.
use git4go.Common.{
  ℕ, zero, suc, ◌+◌, ◌-◌, ◌*◌, ◌^◌, bit_and, bit_or, List, [], ◌∷◌, length, drop, replicate,
  copy_at, leb, ◌==◌, if◌then◌else◌, Outcome, ok, err, panic, stuck, ◌>>=◌, Slice, slice_range,
}
use git4go.Delta.Size.{decode_header}
use git4go.Delta.Emit.{
  DeltaError, invalid_base_buffer_length, invalid_delta_opcode, patching_base_buffer,
}

-- The buffer that is filled, and how far.
pub record Output : Type 0 where
  pub rv : List ℕ
  pub rv_offset : ℕ

-- `copy(rv[rvOffset:], bytes)`, where the caller then moves rvOffset by `size`.
unfoldable pub write : Output → List ℕ → ℕ → Outcome DeltaError Output
write out bytes size =
    if leb out.rv_offset (length out.rv)
    then ok (record { rv = copy_at out.rv out.rv_offset bytes; rv_offset = out.rv_offset + size })
    else panic

-- One `if` of a copy opcode: a byte that the opcode announces is read into `acc`.
unfoldable pub read_field : (opcode flag shift : ℕ) → ℕ × List ℕ → Outcome DeltaError (ℕ × List ℕ)
read_field opcode flag shift (acc, []) = if bit_and opcode flag == 0 then ok (acc, []) else panic
read_field opcode flag shift (acc, b ∷ rest) =
    if bit_and opcode flag == 0 then ok (acc, b ∷ rest) else ok (bit_or acc (b * 2 ^ shift), rest)

unfoldable pub copy_op : Slice → ℕ → List ℕ → Output → Outcome DeltaError (List ℕ × Output)
unfolding read_field write slice_range
copy_op base opcode rest out = do
  s ← read_field opcode 0x01 0 (0, rest)
  s ← read_field opcode 0x02 8 s
  s ← read_field opcode 0x04 16 s
  (base_offset, rest') ← read_field opcode 0x08 24 s
  s ← read_field opcode 0x10 0 (0, rest')
  s ← read_field opcode 0x20 8 s
  (n, rest'') ← read_field opcode 0x40 16 s
  let copy_length = if n == 0 then 0x10000 else n
  bytes ← slice_range base base_offset copy_length
  out' ← write out bytes copy_length
  ok (rest'', out')

-- `rest` is what lies behind the opcode, and `spare` what the delta's array holds behind its end.
unfoldable pub insert_op : List ℕ → ℕ → List ℕ → Output → Outcome DeltaError (List ℕ × Output)
unfolding write slice_range
insert_op spare opcode rest out = do
  bytes ← slice_range (record { elems = rest; spare = spare }) 0 opcode
  out' ← write out bytes opcode
  ok (drop opcode rest, out')

unfoldable pub apply_op : Slice → Slice → ℕ → List ℕ → Output → Outcome DeltaError (List ℕ × Output)
unfolding copy_op insert_op
apply_op base delta opcode rest out =
    if bit_and opcode 0x80 == 0
    then if opcode == 0
      then err (invalid_delta_opcode (length delta.elems - length rest))
      else insert_op delta.spare opcode rest out
    else copy_op base opcode rest out

-- Every opcode takes a byte at least, so the length of the delta is fuel enough.
unfoldable pub apply_loop : ℕ → Slice → Slice → List ℕ → Output → Outcome DeltaError Output
unfolding apply_op
apply_loop fuel base delta [] out = ok out
apply_loop zero base delta (opcode ∷ rest) out = stuck
apply_loop (suc fuel) base delta (opcode ∷ rest) out = do
  (rest', out') ← apply_op base delta opcode rest out
  apply_loop fuel base delta rest' out'

-- `max_alloc` is the longest slice that the runtime makes; `make` panics beyond it.
unfoldable pub apply_delta : (max_alloc : ℕ) → Slice → Slice → Outcome DeltaError (List ℕ)
unfolding decode_header apply_loop
apply_delta max_alloc base delta = do
  (base_size, target_size, rest) ← decode_header delta.elems
  out ←
      if base_size == length base.elems
      then if leb target_size max_alloc
        then apply_loop (length rest) base delta rest
            (record { rv = replicate target_size 0; rv_offset = 0 })
        else panic
      else err (invalid_base_buffer_length base_size (length base.elems))
  if out.rv_offset == target_size then ok out.rv else err patching_base_buffer

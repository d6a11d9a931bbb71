-- ===== src/Delta/ApplyEnds.antt =====
-- ApplyDelta ends on every base and delta.
use git4go.Common.{
  ℕ, zero, suc, ◌+◌, ◌≤◌, ◌≢◌, arith, List, [], ◌∷◌, length, leb, ◌==◌, if◌then◌else◌, if_both,
  Outcome, err, panic, stuck, >>=-ne-stuck, Slice, slice_range, replicate, bit_and,
}
use git4go.Delta.Size.{decode_header, next_size, next_size_loop}
use git4go.Delta.Emit.{DeltaError, invalid_base_buffer_length}
use git4go.Delta.Apply.{
  Output, write, read_field, copy_op, insert_op, apply_op, apply_loop, apply_delta,
}
use git4go.Delta.Applied.{apply_op-length}

write-ne-stuck : (out : Output) (bytes : List ℕ) (n : ℕ) → write out bytes n ≢ stuck
unfolding write
write-ne-stuck out bytes n = ground arith

slice_range-ne-stuck : (s : Slice) (low size : ℕ) → slice_range {E = DeltaError} s low size ≢ stuck
unfolding slice_range
slice_range-ne-stuck s low size = ground arith

read_field-ne-stuck :
    (opcode flag shift : ℕ) (s : ℕ × List ℕ) → read_field opcode flag shift s ≢ stuck
unfolding read_field
read_field-ne-stuck opcode flag shift (acc, []) = ground arith
read_field-ne-stuck opcode flag shift (acc, b ∷ rest) = ground arith

insert_op-ne-stuck :
    (spare : List ℕ) (opcode : ℕ) (rest : List ℕ) (out : Output)
    → insert_op spare opcode rest out ≢ stuck
unfolding insert_op
insert_op-ne-stuck spare opcode rest out =
    >>=-ne-stuck _ _ (slice_range-ne-stuck (record { elems = rest; spare = spare }) 0 opcode)
      (λ bytes _. >>=-ne-stuck _ _ (write-ne-stuck out bytes opcode) (λ out' _ p. cc))

copy_op-ne-stuck :
    (base : Slice) (opcode : ℕ) (rest : List ℕ) (out : Output)
    → copy_op base opcode rest out ≢ stuck
unfolding copy_op
copy_op-ne-stuck base opcode rest out =
    >>=-ne-stuck _ _ (read_field-ne-stuck opcode 0x01 0 (0, rest)) (λ s1 _.
      >>=-ne-stuck _ _ (read_field-ne-stuck opcode 0x02 8 s1) (λ s2 _.
        >>=-ne-stuck _ _ (read_field-ne-stuck opcode 0x04 16 s2) (λ s3 _.
          >>=-ne-stuck _ _ (read_field-ne-stuck opcode 0x08 24 s3) (λ s4 _.
            >>=-ne-stuck _ _ (read_field-ne-stuck opcode 0x10 0 (0, s4.1)) (λ s5 _.
              >>=-ne-stuck _ _ (read_field-ne-stuck opcode 0x20 8 s5) (λ s6 _.
                >>=-ne-stuck _ _ (read_field-ne-stuck opcode 0x40 16 s6) (λ s7 _.
                  >>=-ne-stuck _ _ (slice_range-ne-stuck base s4.0 _) (λ bytes _.
                    >>=-ne-stuck _ _ (write-ne-stuck out bytes _) (λ out' _ p. cc)))))))))

apply_op-ne-stuck :
    (base delta : Slice) (opcode : ℕ) (rest : List ℕ) (out : Output)
    → apply_op base delta opcode rest out ≢ stuck
unfolding apply_op
apply_op-ne-stuck base delta opcode rest out =
    if_both (λ (r : Outcome DeltaError (List ℕ × Output)). r ≢ stuck) (bit_and opcode 0x80 == 0)
      (if_both (λ (r : Outcome DeltaError (List ℕ × Output)). r ≢ stuck) (opcode == 0) (λ p. cc)
        (insert_op-ne-stuck delta.spare opcode rest out))
      (copy_op-ne-stuck base opcode rest out)

apply_loop-ne-stuck :
    (fuel : ℕ) (base delta : Slice) (rest : List ℕ) (out : Output)
    → length rest ≤ fuel
    → apply_loop fuel base delta rest out ≢ stuck
unfolding apply_loop
apply_loop-ne-stuck fuel base delta [] out h = λ p. cc
apply_loop-ne-stuck zero base delta (opcode ∷ rest) out h = absurd (omega arith)
apply_loop-ne-stuck (suc fuel) base delta (opcode ∷ rest) out h =
    >>=-ne-stuck _ _ (apply_op-ne-stuck base delta opcode rest out) (λ p step.
      apply_loop-ne-stuck fuel base delta p.0 p.1
        (omega (arith, apply_op-length base delta opcode rest p.0 out p.1 step)))

next_size-ne-stuck : (buffer : List ℕ) → next_size {E = DeltaError} buffer ≢ stuck
unfolding next_size
next_size-ne-stuck [] = λ p. cc
next_size-ne-stuck (b ∷ buffer) = loop buffer b (bit_and b 0x7f) 7
  where
    loop :
        (buffer : List ℕ) (b rv shift : ℕ)
        → next_size_loop {E = DeltaError} buffer b rv shift ≢ stuck
    loop [] b rv shift = ground arith
    loop (c ∷ buffer) b rv shift =
        if_both (λ (r : Outcome DeltaError (ℕ × List ℕ)). r ≢ stuck) (bit_and b 0x80 == 0) (λ p. cc)
          (loop buffer c _ (shift + 7))

-- The loop of ApplyDelta ends on every input: the length of the delta is fuel enough.
pub apply_delta-ne-stuck :
    (max_alloc : ℕ) (base delta : Slice) → apply_delta max_alloc base delta ≢ stuck
unfolding apply_delta
apply_delta-ne-stuck max_alloc base delta =
    >>=-ne-stuck (decode_header delta.elems) _ header
      (λ s _. >>=-ne-stuck _ _ (body s.0 s.1 s.2) (λ out _. ground arith))
  where
    header : decode_header {E = DeltaError} delta.elems ≢ stuck
    header =
        >>=-ne-stuck _ _ (next_size-ne-stuck delta.elems)
          (λ s _. >>=-ne-stuck _ _ (next_size-ne-stuck s.1) (λ s' _ p. cc))

    NotStuck : Outcome DeltaError Output → Type 0
    NotStuck r = r ≢ stuck

    body :
        (base_size target_size : ℕ) (rest : List ℕ)
        → (if base_size == length base.elems
            then if leb target_size max_alloc
              then apply_loop
                  (length rest)
                  base
                  delta
                  rest
                  (record { rv = replicate target_size 0; rv_offset = 0 })
              else panic
            else err (invalid_base_buffer_length base_size (length base.elems)))
          ≢ stuck
    body base_size target_size rest =
        if_both NotStuck (base_size == length base.elems)
          (if_both NotStuck (leb target_size max_alloc)
            (apply_loop-ne-stuck (length rest) base delta rest
              (record { rv = replicate target_size 0; rv_offset = 0 }) (omega arith))
            (λ p. cc))
          (λ p. cc)

-- ===== src/Delta/Ends.antt =====
-- Both loops of CreateDelta and that of ApplyDelta end on every input, and what an empty source does.
use git4go.Common.{
  ℕ, zero, suc, ◌+◌, ◌≤◌, ◌<◌, ◌≡◌, ◌≢◌, arith, List, [], length, Option, none, some, ltb,
  Bool-cases, inl, inr, ltb→lt, lt→ltb, not_ltb→le, ok, panic, stuck, >>=-ne-stuck, >>=-eq-ok,
  Slice, slice_range,
}
use git4go.Delta.Blocks.{new_blocks, slice_block, Blocks, blocks_set, blocks_get}
use git4go.Delta.Match.{Match}
use git4go.Delta.Emit.{DeltaError}
use git4go.Delta.Create.{
  Writer, index_source, flush, insert_step, copy_step, find_match, emit_step, create_step,
  create_loop, start, finish, create_delta,
}
use git4go.Delta.Matching.{slice_block_bounds}
use git4go.Delta.CreateLoop.{insert_step-size}

blocks_set-ne-stuck :
    (b : Blocks) (key : List ℕ) (p : ℕ) → blocks_set {E = DeltaError} b key p ≢ stuck
unfolding blocks_set
blocks_set-ne-stuck b key p = ground arith

blocks_get-ne-stuck : (b : Blocks) (key : List ℕ) → blocks_get {E = DeltaError} b key ≢ stuck
unfolding blocks_get
blocks_get-ne-stuck b key = ground arith

index_source-ne-stuck :
    (fuel : ℕ) (source : List ℕ) (blocks : Blocks) (i : ℕ)
    → length source ≤ i + fuel
    → index_source fuel source blocks i ≢ stuck
unfolding index_source
index_source-ne-stuck zero source blocks i h = ground arith
index_source-ne-stuck (suc fuel) source blocks i h = elim (Bool-cases (ltb i (length source))) [
  | inl e ↦ rw e (
      >>=-ne-stuck (blocks_set blocks (slice_block source i) i) _
        (blocks_set-ne-stuck blocks (slice_block source i) i)
        (λ b _.
          index_source-ne-stuck fuel source b (i + length (slice_block source i))
            (omega (arith, slice_block_bounds source i (ltb→lt _ _ e)))))
  | inr e ↦ rw e (λ p. cc)
]

slice_range-ne-stuck : (s : Slice) (low size : ℕ) → slice_range {E = DeltaError} s low size ≢ stuck
unfolding slice_range
slice_range-ne-stuck s low size = ground arith

insert_step-ne-stuck : (target : Slice) (w : Writer) (i n : ℕ) → insert_step target w i n ≢ stuck
unfolding insert_step
insert_step-ne-stuck target w i n = ground arith

flush-ne-stuck : (w : Writer) → flush w ≢ stuck
unfolding flush
flush-ne-stuck w = ground arith

copy_step-ne-stuck : (w : Writer) (m : Match) → copy_step w m ≢ stuck
unfolding copy_step
copy_step-ne-stuck w m = ground arith

emit_step-ne-stuck :
    (target : Slice) (w : Writer) (i n : ℕ) (m : Option Match) → emit_step target w i n m ≢ stuck
unfolding emit_step
emit_step-ne-stuck target w i n none = insert_step-ne-stuck target w i n
emit_step-ne-stuck target w i n (some m) =
    ground (arith, insert_step-ne-stuck target w i (n + m.length), copy_step-ne-stuck w m)

copy_step-size : (w w' : Writer) (m : Match) (n : ℕ) → copy_step w m ≡ ok (w', n) → n ≡ m.length
unfolding copy_step
copy_step-size w w' m n h = ground arith

-- A step that succeeds moves on.
emit_step-pos :
    (target : Slice) (w w' : Writer) (i n k : ℕ) (m : Option Match)
    → 0 < n
    → emit_step target w i n m ≡ ok (w', k)
    → 0 < k
unfolding emit_step
emit_step-pos target w w' i n k none pos h = omega (arith, insert_step-size target w w' i n k h)
emit_step-pos target w w' i n k (some m) pos h = elim (Bool-cases (ltb m.length 4)) [
  | inl e ↦ omega (arith, insert_step-size target w w' i (n + m.length) k (rw e at h))
  | inr e ↦ omega (arith, not_ltb→le _ _ e, copy_step-size w w' m k (rw e at h))
]

create_step-ne-stuck :
    (source : List ℕ) (target : Slice) (blocks : Blocks) (w : Writer) (i : ℕ)
    → create_step source target blocks w i ≢ stuck
unfolding create_step
create_step-ne-stuck source target blocks w i =
    >>=-ne-stuck (blocks_get blocks (slice_block target.elems i)) _
      (blocks_get-ne-stuck blocks (slice_block target.elems i))
      (λ offsets _. emit_step-ne-stuck target w i _ (find_match source target i offsets))

create_step-pos :
    (source : List ℕ) (target : Slice) (blocks : Blocks) (w w' : Writer) (i n : ℕ)
    → i < length target.elems
    → create_step source target blocks w i ≡ ok (w', n)
    → 0 < n
unfolding create_step
create_step-pos source target blocks w w' i n hi h =
    let (offsets, e, h') = >>=-eq-ok (blocks_get blocks (slice_block target.elems i)) _ h in
    emit_step-pos target w w' i _ n (find_match source target i offsets)
      (slice_block_bounds target.elems i hi).0 h'

create_loop-ne-stuck :
    (fuel : ℕ) (source : List ℕ) (target : Slice) (blocks : Blocks) (w : Writer) (i : ℕ)
    → length target.elems ≤ i + fuel
    → create_loop fuel source target blocks w i ≢ stuck
unfolding create_loop
create_loop-ne-stuck zero source target blocks w i h = ground arith
create_loop-ne-stuck (suc fuel) source target blocks w i h =
    elim (Bool-cases (ltb i (length target.elems))) [
      | inl e ↦ rw e (
          >>=-ne-stuck (create_step source target blocks w i) _
            (create_step-ne-stuck source target blocks w i)
            (λ p step. create_loop-ne-stuck fuel source target blocks p.0 (i + p.1) (
              omega (arith, create_step-pos source target blocks w p.0 i p.1 (ltb→lt _ _ e) step))))
      | inr e ↦ rw e (λ p. cc)
    ]

finish-ne-stuck : (target : Slice) (w : Writer) (i : ℕ) → finish target w i ≢ stuck
unfolding finish
finish-ne-stuck target w i = ground (arith, flush-ne-stuck w)

-- Both loops of CreateDelta end on every input: the lengths are fuel enough.
pub create_delta-ne-stuck :
    (source : List ℕ) (target : Slice) (max_delta_size : ℕ)
    → create_delta source target max_delta_size ≢ stuck
unfolding create_delta
create_delta-ne-stuck source target max_delta_size =
    >>=-ne-stuck _ _ (index_source-ne-stuck (length source) source _ 0 (omega arith)) (λ blocks _.
      >>=-ne-stuck _ _
        (create_loop-ne-stuck (length target.elems) source target blocks (start source target) 0
          (omega arith))
        (λ p _. finish-ne-stuck target p.0 p.1))

loop_empty_source :
    (fuel : ℕ) (target : Slice) (w : Writer)
    → 0 < fuel
    → 0 < length target.elems
    → create_loop fuel [] target (new_blocks 0) w 0 ≡ panic
unfolding create_loop blocks_get new_blocks
loop_empty_source zero target w hf h = absurd (omega arith)
loop_empty_source (suc fuel) target w hf h = rw (lt→ltb 0 (length target.elems) h)

-- An empty source has no bucket: looking up the first block of a target that is not empty divides
-- by zero.
create_delta_empty_source :
    (target : Slice) (max_delta_size : ℕ)
    → 0 < length target.elems
    → create_delta [] target max_delta_size ≡ panic
unfolding create_delta
create_delta_empty_source target max_delta_size h =
    rw (loop_empty_source (length target.elems) target (start [] target) h h)

-- ===== src/Delta/ShortLine.antt =====
-- What CreateDelta does with a line of fewer than four bytes that ends the target: the match is too
-- short for a copy, its length is added to that of the block, and the slice of the target that is to
-- be inserted reaches past the end.
use git4go.Common.{
  ℕ, zero, suc, ◌+◌, ◌/◌, ◌<◌, ◌≡◌, refl, ap, arith, List, [], ◌∷◌, length, Option, some, true, ltb,
  leb, ==_iff, lt→ltb, if_both, ok, panic, Slice, slice_range,
}
use git4go.Delta.Blocks.{slice_block, bytes_eq, Blocks, new_blocks, bucket_set, bucket_get}
use git4go.Delta.Match.{Match, common_prefix, choose_match}
use git4go.Delta.Emit.{DeltaError}
use git4go.Delta.Create.{
  Writer, index_source, insert_step, create_step, create_loop, start, create_delta,
}
use git4go.Delta.Table.{HasFirst, blocks_set-first, blocks_get-first}

bytes_eq_self : (a : List ℕ) → bytes_eq a a ≡ true
unfolding bytes_eq
bytes_eq_self [] = refl
bytes_eq_self (x ∷ a) = rw ((==_iff x x).1 refl) (bytes_eq_self a)

common_prefix_self : (a : List ℕ) → common_prefix a a ≡ length a
unfolding common_prefix
common_prefix_self [] = refl
common_prefix_self (x ∷ a) = rw ((==_iff x x).1 refl) (ap suc (common_prefix_self a))

module _ (bytes spare : List ℕ) (pos : 0 < length bytes) (short : length bytes < 4)
    (line : slice_block bytes 0 ≡ bytes) (tight : length spare < length bytes) where
  abbrev target : Slice
  target = record { elems = bytes; spare = spare }

  abbrev empty_table : Blocks
  empty_table = record { n = 1; buckets = [] ∷ [] }

  abbrev table : Blocks
  table = record { n = 1; buckets = ((bytes, 0 ∷ []) ∷ []) ∷ [] }

  empty-HasFirst : HasFirst empty_table
  empty-HasFirst = record { first = []; others = []; buckets = refl; size = omega arith }

  table-HasFirst : HasFirst table
  table-HasFirst = record {
    first = (bytes, 0 ∷ []) ∷ [];
    others = [];
    buckets = refl;
    size = omega arith;
  }

  index_past : (fuel : ℕ) (b : Blocks) → index_source fuel bytes b (0 + length bytes) ≡ ok b
  unfolding index_source
  index_past zero b = ground arith
  index_past (suc fuel) b = ground arith

  indexed : (fuel : ℕ) → 0 < fuel → index_source fuel bytes empty_table 0 ≡ ok table
  unfolding index_source empty-HasFirst
  indexed zero h = absurd (omega arith)
  indexed (suc fuel) h = rw (lt→ltb 0 (length bytes) pos) (
      rw (blocks_set-first empty_table (slice_block bytes 0) 0 empty-HasFirst)
        (rw line (unfold bucket_set in index_past fuel table)))

  the_match :
      choose_match bytes (0 ∷ []) bytes ≡ some (record { length = length bytes; offset = 0 })
  unfolding choose_match
  the_match = rw (common_prefix_self bytes) (
      if_both (λ (r : Option Match). r ≡ some (record { length = length bytes; offset = 0 }))
        (ltb (length bytes / 5) (length bytes)) refl refl)

  got : bucket_get ((bytes, 0 ∷ []) ∷ []) bytes ≡ some (0 ∷ [])
  unfolding bucket_get
  got = rw (bytes_eq_self bytes)

  past_end : slice_range {E = DeltaError} target 0 (length bytes + length bytes) ≡ panic
  unfolding slice_range
  past_end = ground arith

  insert_panics :
      (w : Writer)
      → w.buffered_length ≡ 0
      → length w.insert_buffer ≡ 127
      → insert_step target w 0 (length bytes + length bytes) ≡ panic
  unfolding insert_step
  insert_panics w h k = rw fits (rw past_end)
    where
      fits : leb (w.buffered_length + (length bytes + length bytes)) (length w.insert_buffer) ≡ true
      fits = ground arith

  step_panics :
      (w : Writer)
      → w.buffered_length ≡ 0
      → length w.insert_buffer ≡ 127
      → create_step bytes target table w 0 ≡ panic
  unfolding create_step table-HasFirst
  step_panics w h k = rw (line) (
      rw (blocks_get-first table bytes table-HasFirst)
        (rw (got) (rw (the_match) (rw (lt→ltb (length bytes) 4 short) (insert_panics w h k)))))

  loop_panics :
      (fuel : ℕ) (w : Writer)
      → 0 < fuel
      → w.buffered_length ≡ 0
      → length w.insert_buffer ≡ 127
      → create_loop fuel bytes target table w 0 ≡ panic
  unfolding create_loop
  loop_panics zero w hf h k = absurd (omega arith)
  loop_panics (suc fuel) w hf h k = rw (lt→ltb 0 (length bytes) pos) (rw (step_panics w h k))

  created : (max_delta_size : ℕ) → create_delta bytes target max_delta_size ≡ panic
  unfolding create_delta new_blocks
  created max_delta_size = rw count (
      rw (indexed (length bytes) pos)
        (rw (loop_panics (length bytes) (start bytes target) pos start_empty start_size)))
    where
      count : (length bytes + 16) / 17 ≡ 1
      count = omega arith

      start_empty : (start bytes target).buffered_length ≡ 0
      start_empty = unfold start in refl

      start_size : length (start bytes target).insert_buffer ≡ 127
      start_size = unfold start in refl

-- Where the source and the target are one line of one to three bytes, CreateDelta panics, unless the
-- target's array has as many bytes again behind the line.
pub create_delta_short_line :
    (bytes spare : List ℕ) (max_delta_size : ℕ)
    → 0 < length bytes
    → length bytes < 4
    → slice_block bytes 0 ≡ bytes
    → length spare < length bytes
    → create_delta bytes (record { elems = bytes; spare = spare }) max_delta_size ≡ panic
create_delta_short_line bytes spare max_delta_size pos short line tight =
    created bytes spare pos short line tight max_delta_size

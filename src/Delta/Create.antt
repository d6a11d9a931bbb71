-- ===== src/Delta/Create.antt =====
-- CreateDelta of delta.go.
use git4go.Common.{
  ℕ, zero, suc, ◌+◌, ◌/◌, List, ◌++◌, Option, none, some, length, drop, replicate, copy_at, ltb,
  leb, ◌==◌, if◌then◌else◌, Outcome, ok, err, stuck, ◌>>=◌, Slice, slice_range,
}
use git4go.Delta.Size.{encode_header}
use git4go.Delta.Blocks.{slice_block, Blocks, new_blocks, blocks_set, blocks_get}
use git4go.Delta.Match.{Match, choose_match}
use git4go.Delta.Emit.{DeltaError, computing_delta_buffer, emit_insert, emit_copy}

abbrev pub delta_size_min : ℕ
delta_size_min = 4

-- The first loop: every block of the source is entered with its offset.
unfoldable pub index_source : ℕ → List ℕ → Blocks → ℕ → Outcome DeltaError Blocks
unfolding slice_block blocks_set
index_source zero source blocks i = if ltb i (length source) then stuck else ok blocks
index_source (suc fuel) source blocks i =
    let more = (do
      blocks' ← blocks_set blocks (slice_block source i) i
      index_source fuel source blocks' (i + length (slice_block source i))) in
    if ltb i (length source) then more else ok blocks

-- What the second loop changes, but for `i`. Of insert_buffer, 127 bytes, the first buffered_length
-- are yet to be written.
pub record Writer : Type 0 where
  pub opcodes : List ℕ
  pub insert_buffer : List ℕ
  pub buffered_length : ℕ

unfoldable pub flush : Writer → Outcome DeltaError Writer
unfolding emit_insert
flush w =
    if ltb 0 w.buffered_length
    then (do
      ops ← emit_insert w.insert_buffer w.buffered_length
      ok (record w { opcodes = w.opcodes ++ ops; buffered_length = 0 }))
    else ok w

-- A step returns the writer and how far `i` moves.
unfoldable pub insert_step :
    Slice → Writer → (i insert_length : ℕ) → Outcome DeltaError (Writer × ℕ)
unfolding emit_insert slice_range
insert_step target w i insert_length =
    if leb (w.buffered_length + insert_length) (length w.insert_buffer)
    then (do
      bytes ← slice_range target i insert_length
      ok (
        record w {
          insert_buffer = copy_at w.insert_buffer w.buffered_length bytes;
          buffered_length = w.buffered_length + insert_length;
        },
        insert_length,
      ))
    else (do
      ops ← emit_insert w.insert_buffer w.buffered_length
      bytes ← slice_range target i insert_length
      ok (
        record w {
          opcodes = w.opcodes ++ ops;
          insert_buffer = copy_at w.insert_buffer 0 bytes;
          buffered_length = insert_length;
        },
        insert_length,
      ))

unfoldable pub copy_step : Writer → Match → Outcome DeltaError (Writer × ℕ)
unfolding flush emit_copy
copy_step w m = do
  w' ← flush w
  ok (record w' { opcodes = w'.opcodes ++ emit_copy m.offset m.length }, m.length)

unfoldable pub find_match : List ℕ → Slice → ℕ → Option (List ℕ) → Option Match
unfolding choose_match
find_match source target i none = none
find_match source target i (some offsets) = choose_match source offsets (drop i target.elems)

-- `n` is the length of the block at `i`.
unfoldable pub emit_step :
    Slice → Writer → (i n : ℕ) → Option Match → Outcome DeltaError (Writer × ℕ)
unfolding insert_step copy_step
emit_step target w i n none = insert_step target w i n
emit_step target w i n (some m) =
    if ltb m.length delta_size_min then insert_step target w i (n + m.length) else copy_step w m

unfoldable pub create_step : List ℕ → Slice → Blocks → Writer → ℕ → Outcome DeltaError (Writer × ℕ)
unfolding slice_block blocks_get find_match emit_step
create_step source target blocks w i = do
  offsets ← blocks_get blocks (slice_block target.elems i)
  emit_step target w i (length (slice_block target.elems i)) (find_match source target i offsets)

unfoldable pub create_loop :
    ℕ → List ℕ → Slice → Blocks → Writer → ℕ → Outcome DeltaError (Writer × ℕ)
unfolding create_step
create_loop zero source target blocks w i = if ltb i (length target.elems) then stuck else ok (w, i)
create_loop (suc fuel) source target blocks w i =
    let more = (do
      (w', n) ← create_step source target blocks w i
      create_loop fuel source target blocks w' (i + n)) in
    if ltb i (length target.elems) then more else ok (w, i)

unfoldable pub start : List ℕ → Slice → Writer
unfolding encode_header
start source target = record {
  opcodes = encode_header source target.elems;
  insert_buffer = replicate 127 0;
  buffered_length = 0;
}

unfoldable pub finish : Slice → Writer → ℕ → Outcome DeltaError (List ℕ)
unfolding flush
finish target w i = do
  w' ← flush w
  if i == length target.elems then ok w'.opcodes else err computing_delta_buffer

-- maxDeltaSize is not read. Both loops pass at least one byte in a round, so the lengths are fuel
-- enough.
unfoldable pub create_delta : List ℕ → Slice → (max_delta_size : ℕ) → Outcome DeltaError (List ℕ)
unfolding new_blocks index_source create_loop start finish
create_delta source target max_delta_size = do
  blocks ← index_source (length source) source (new_blocks ((length source + 16) / 17)) 0
  (w, i) ← create_loop (length target.elems) source target blocks (start source target) 0
  finish target w i

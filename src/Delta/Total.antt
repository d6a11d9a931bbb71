-- ===== src/Delta/Total.antt =====
-- CreateDelta succeeds on every target where the source's blocks have four bytes at least: every
-- match is then a copy, and no insert reaches past the end of the target.
use git4go.Common.{
  ℕ, zero, suc, ◌+◌, ◌-◌, ◌/◌, ◌≤◌, ◌<◌, ◌≡◌, refl, ap, ◌∙◌, subst, arith, List, [], ◌∷◌, length,
  length-drop, drop, All, replicate, Option, none, some, ltb, ==_iff, dec_lt, false, Outcome, ok,
  Slice,
}
use git4go.Delta.Blocks.{slice_block, Blocks, new_blocks, bucket_get}
use git4go.Delta.Match.{Match}
use git4go.Delta.Emit.{DeltaError}
use git4go.Delta.Create.{
  Writer, flush, find_match, emit_step, create_step, create_loop, start, finish, create_delta,
}
use git4go.Delta.Apply.{apply_delta}
use git4go.Delta.Matching.{slice_block_bounds, choose_match-run}
use git4go.Delta.Writer.{insert_step-Wrote, copy_step-Wrote}
use git4go.Delta.Wrote.{Wrote, flush-Wrote}
use git4go.Delta.CreateLoop.{Fits32, create_loop_past, create_loop_more}
use git4go.Delta.Size.{encode_header}
use git4go.Delta.RoundTrip.{start-Wrote, apply_delta-create_delta}
use git4go.Delta.LongBlocks.{block_starts, IsLong, LongMatch, index_source-IsTable, find_match-long}
use git4go.Delta.Table.{IsTable, blocks_get-first}

module _ (source : List ℕ) (target : Slice) (blocks : Blocks) (t : IsTable source blocks) where
  module _ (header : List ℕ) (sizes : Fits32 source target.elems) where
    -- A step that succeeds, moves on and stays within the target.
    abbrev Steps : Outcome DeltaError (Writer × ℕ) → ℕ → Type 0
    Steps r i =
        (w' : Writer) × (n : ℕ) × (r ≡ ok (w', n))
        × Wrote source target.elems header w' (i + n)
        × (0 < n)
        × (i + n ≤ length target.elems)

    emit_step-ok :
        (w : Writer) (i : ℕ) (offsets : Option (List ℕ)) (m : Option Match)
        → find_match source target i offsets ≡ m
        → LongMatch m
        → Wrote source target.elems header w i
        → i < length target.elems
        → Steps (emit_step target w i (length (slice_block target.elems i)) m) i
    unfolding emit_step
    emit_step-ok w i offsets none hm long v hi =
        let block = slice_block_bounds target.elems i hi in
        let (w', e, v') =
          insert_step-Wrote target w i (length (slice_block target.elems i)) v (omega arith)
            block.2 in
        (w', length (slice_block target.elems i), e, v', block.0, block.2)
    emit_step-ok w i none (some m) hm long v hi = unfold find_match in cc
    emit_step-ok w i (some offsets) (some m) hm long v hi =
        let (hs, ht, run) =
          choose_match-run source offsets (drop i target.elems) m (unfold find_match in hm) in
        let (w', e, v') =
          copy_step-Wrote target w i m v
            (omega (arith, long, length-drop m.offset source, length-drop i target.elems, sizes.2))
            hs run in
        (w', m.length, rw not_short e, v', omega arith, omega (arith, length-drop i target.elems))
      where
        not_short : ltb m.length 4 ≡ false
        not_short = ground arith

    create_step-ok :
        (w : Writer) (i : ℕ)
        → Wrote source target.elems header w i
        → i < length target.elems
        → Steps (create_step source target blocks w i) i
    unfolding create_step
    create_step-ok w i v hi = rw (blocks_get-first blocks (slice_block target.elems i) t.table) (
        emit_step-ok w i (bucket_get t.first (slice_block target.elems i)) _ refl
          (find_match-long source target blocks t i _ refl) v hi)

    create_loop-ok :
        (fuel : ℕ) (w : Writer) (i : ℕ)
        → length target.elems ≤ i + fuel
        → i ≤ length target.elems
        → Wrote source target.elems header w i
        → (w' : Writer) × (create_loop fuel source target blocks w i ≡ ok (w', length target.elems))
          × Wrote source target.elems header w' (length target.elems)
    create_loop-ok zero w i hf hi v = (
      w,
      create_loop_past source target header sizes zero blocks w i (omega arith)
          ∙ ap (λ k. ok (w, k)) end,
      subst (Wrote source target.elems header w) end v,
    )
      where
        end : i ≡ length target.elems
        end = omega arith
    create_loop-ok (suc fuel) w i hf hi v = elim (dec_lt i (length target.elems)) [
      | no done ↦ (
        w,
        create_loop_past source target header sizes (suc fuel) blocks w i (omega arith)
            ∙ ap (λ k. ok (w, k)) (omega arith),
        subst (Wrote source target.elems header w) (omega arith) v,
      )
      | yes more ↦
          let (w', n, e, v', pos, within) = create_step-ok w i v more in
          let (w'', e', v'') = create_loop-ok fuel w' (i + n) (omega arith) within v' in
          (w'', create_loop_more source target header sizes fuel blocks w i more ∙ rw e e', v'')
    ]

replicate_pos : {A : Type 0} (n : ℕ) (x : A) → 0 < n → replicate n x ≡ x ∷ replicate (n - 1) x
replicate_pos zero x h = absurd (omega arith)
replicate_pos (suc n) x h = ap (λ k. x ∷ replicate k x) (omega arith)

finish-ok :
    (target : Slice) (w w' : Writer)
    → flush w ≡ ok w'
    → finish target w (length target.elems) ≡ ok w'.opcodes
unfolding finish
finish-ok target w w' e = rw e (rw ((==_iff (length target.elems) (length target.elems)).1 refl))

first-IsTable :
    (source : List ℕ) → 0 < length source → IsTable source (new_blocks ((length source + 16) / 17))
unfolding new_blocks
first-IsTable source h = record {
  table = record {
    first = [];
    others = replicate ((length source + 16) / 17 - 1) [];
    buckets = replicate_pos ((length source + 16) / 17) [] (omega arith);
    size = omega arith;
  };
  holds = tt;
}

-- CreateDelta succeeds, and ApplyDelta rebuilds the target, on every source that is not empty and
-- whose blocks all have four bytes at least, and on every target that can be allocated, with the sizes
-- at which CreateDelta's numbers are wide enough.
pub create_delta-total :
    (max_alloc max_delta_size : ℕ) (source target : Slice) (spare : List ℕ)
    → Fits32 source.elems target.elems
    → length target.elems ≤ max_alloc
    → 0 < length source.elems
    → All (IsLong source.elems) (block_starts (length source.elems) source.elems 0)
    → (delta : List ℕ) × (create_delta source.elems target max_delta_size ≡ ok delta)
      × (apply_delta max_alloc source (record { elems = delta; spare = spare }) ≡ ok target.elems)
unfolding create_delta
create_delta-total max_alloc max_delta_size source target spare sizes room pos long =
    let (blocks, e, t) =
      index_source-IsTable (length source.elems) source.elems _ 0 (omega arith) long
        (first-IsTable source.elems pos) in
    let (w, e', v) =
      create_loop-ok source.elems target blocks t (encode_header source.elems target.elems) sizes
        (length target.elems) (start source.elems target) 0 (omega arith) (omega arith)
        (start-Wrote source.elems target) in
    let (w', e'', v', empty) = flush-Wrote w (length target.elems) v in
    let created : create_delta source.elems target max_delta_size ≡ ok w'.opcodes =
      rw e (rw e' (finish-ok target w w' e'')) in
    (
      w'.opcodes,
      created,
      apply_delta-create_delta max_alloc max_delta_size source target spare w'.opcodes sizes room
          created,
    )

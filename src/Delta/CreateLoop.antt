-- ===== src/Delta/CreateLoop.antt =====
-- The main loop of CreateDelta: where it ends at the end of the target, it has written all of it.
use git4go.Common.{
  ℕ, zero, suc, ◌+◌, ◌^◌, ◌≤◌, ◌<◌, ◌≡◌, refl, sym, ap, ◌∙◌, subst, arith, List, length,
  length-drop, drop, Option, none, some, ltb, Bool-cases, inl, inr, ltb→lt, lt→ltb, not_ltb→le,
  dec_lt, ◌⊎◌, ok, stuck, ◌>>=◌, >>=-eq-ok, ok-injective, Slice,
}
use git4go.Delta.Blocks.{slice_block, Blocks, blocks_get}
use git4go.Delta.Match.{Match}
use git4go.Delta.Create.{Writer, insert_step, find_match, emit_step, create_step, create_loop}
use git4go.Delta.Matching.{slice_block_bounds, choose_match-run}
use git4go.Delta.Writer.{insert_step-Wrote, copy_step-Wrote}
use git4go.Delta.Wrote.{Wrote}
use native.Mathlib.Decide.{dec_le}

pub insert_step-size :
    (target : Slice) (w w' : Writer) (i n n' : ℕ) → insert_step target w i n ≡ ok (w', n') → n' ≡ n
unfolding insert_step
insert_step-size target w w' i n n' h = ground arith

-- The sizes at which CreateDelta's 32-bit offsets and 24-bit lengths are enough.
abbrev pub Fits32 : (source target : List ℕ) → Type 0
Fits32 source target =
    (length source < 2 ^ 32)
    × (length target < 2 ^ 32)
    × ((length source < 2 ^ 24) ⊎ (length target < 2 ^ 24))

module _ (source : List ℕ) (target : Slice) (header : List ℕ)
    (sizes : Fits32 source target.elems) where
  insert_step_within :
      (w w' : Writer) (i k n : ℕ)
      → Wrote source target.elems header w i
      → insert_step target w i k ≡ ok (w', n)
      → k ≤ 127
      → i + n ≤ length target.elems
      → Wrote source target.elems header w' (i + n)
  insert_step_within w w' i k n v h hk hi =
      let same : n ≡ k = insert_step-size target w w' i k n h in
      let (w'', e, v') = insert_step-Wrote target w i k v hk (omega arith) in
      subst (λ (p : Writer × ℕ). Wrote source target.elems header p.0 (i + p.1))
        (ok-injective (sym e ∙ h)) v'

  emit_step_within :
      (w w' : Writer) (i n : ℕ) (offsets : Option (List ℕ)) (m : Option Match)
      → find_match source target i offsets ≡ m
      → Wrote source target.elems header w i
      → i < length target.elems
      → emit_step target w i (length (slice_block target.elems i)) m ≡ ok (w', n)
      → i + n ≤ length target.elems
      → Wrote source target.elems header w' (i + n)
  unfolding emit_step
  emit_step_within w w' i n offsets none hm v hi h hn =
      insert_step_within w w' i _ n v h (omega (arith, slice_block_bounds target.elems i)) hn
  emit_step_within w w' i n none (some m) hm v hi h hn = unfold find_match in cc
  emit_step_within w w' i n (some offsets) (some m) hm v hi h hn =
      elim (Bool-cases (ltb m.length 4)) [
        | inl e ↦
            insert_step_within w w' i (length (slice_block target.elems i) + m.length) n v
              (rw e at h) (omega (arith, slice_block_bounds target.elems i, ltb→lt _ _ e)) hn
        | inr e ↦
            let (hs, ht, run) =
              choose_match-run source offsets (drop i target.elems) m (unfold find_match in hm) in
            let (w'', e', v') =
              copy_step-Wrote target w i m v
                (omega (
                  arith,
                  not_ltb→le _ _ e,
                  length-drop m.offset source,
                  length-drop i target.elems,
                  sizes.2,
                ))
                hs run in
            subst (λ (p : Writer × ℕ). Wrote source target.elems header p.0 (i + p.1))
              (ok-injective (sym e' ∙ (rw e at h))) v'
      ]

  create_step_within :
      (blocks : Blocks) (w w' : Writer) (i n : ℕ)
      → Wrote source target.elems header w i
      → i < length target.elems
      → create_step source target blocks w i ≡ ok (w', n)
      → i + n ≤ length target.elems
      → Wrote source target.elems header w' (i + n)
  unfolding create_step
  create_step_within blocks w w' i n v hi h hn =
      let (offsets, e, h') = >>=-eq-ok (blocks_get blocks (slice_block target.elems i)) _ h in
      emit_step_within w w' i n offsets (find_match source target i offsets) refl v hi h' hn

  -- The loop ends at once where nothing is left.
  pub create_loop_past :
      (fuel : ℕ) (blocks : Blocks) (w : Writer) (i : ℕ)
      → length target.elems ≤ i
      → create_loop fuel source target blocks w i ≡ ok (w, i)
  unfolding create_loop
  create_loop_past zero blocks w i h = ground arith
  create_loop_past (suc fuel) blocks w i h = ground arith

  create_loop_empty :
      (blocks : Blocks) (w : Writer) (i : ℕ)
      → i < length target.elems
      → create_loop zero source target blocks w i ≡ stuck
  unfolding create_loop
  create_loop_empty blocks w i h = ground arith

  pub create_loop_more :
      (fuel : ℕ) (blocks : Blocks) (w : Writer) (i : ℕ)
      → i < length target.elems
      → create_loop (suc fuel) source target blocks w i ≡ (
          create_step source target blocks w i >>= λ p.
          create_loop fuel source target blocks p.0 (i + p.1))
  unfolding create_loop
  create_loop_more fuel blocks w i h = rw (lt→ltb i (length target.elems) h)

  overrun :
      (fuel : ℕ) (blocks : Blocks) (w w' : Writer) (i : ℕ)
      → create_loop fuel source target blocks w i ≡ ok (w', length target.elems)
      → i ≤ length target.elems
  overrun fuel blocks w w' i h = elim (dec_le i (length target.elems)) [
    | yes within ↦ within
    | no beyond ↦
        let ended = ok-injective (sym (create_loop_past fuel blocks w i (omega arith)) ∙ h) in
        omega (arith, ap (λ (p : Writer × ℕ). p.1) ended)
  ]

  finished :
      (fuel : ℕ) (blocks : Blocks) (w w' : Writer) (i : ℕ)
      → Wrote source target.elems header w i
      → length target.elems ≤ i
      → create_loop fuel source target blocks w i ≡ ok (w', length target.elems)
      → Wrote source target.elems header w' (length target.elems)
  finished fuel blocks w w' i v hi h =
      subst (λ (p : Writer × ℕ). Wrote source target.elems header p.0 p.1)
        (ok-injective (sym (create_loop_past fuel blocks w i hi) ∙ h)) v

  -- A loop that ends exactly at the end of the target has written all of it.
  pub create_loop-Wrote :
      (fuel : ℕ) (blocks : Blocks) (w w' : Writer) (i : ℕ)
      → Wrote source target.elems header w i
      → create_loop fuel source target blocks w i ≡ ok (w', length target.elems)
      → Wrote source target.elems header w' (length target.elems)
  create_loop-Wrote zero blocks w w' i v h = elim (dec_lt i (length target.elems)) [
    | no done ↦ finished zero blocks w w' i v (omega arith) h
    | yes more ↦ cc (create_loop_empty blocks w i more)
  ]
  create_loop-Wrote (suc fuel) blocks w w' i v h = elim (dec_lt i (length target.elems)) [
    | no done ↦ finished (suc fuel) blocks w w' i v (omega arith) h
    | yes more ↦
        let ((w'', n), e, h') =
          >>=-eq-ok (create_step source target blocks w i) _
            (sym (create_loop_more fuel blocks w i more) ∙ h) in
        elim (dec_le (i + n) (length target.elems)) [
          | yes within ↦
              create_loop-Wrote fuel blocks w'' w' (i + n)
                (create_step_within blocks w w'' i n v more e within) h'
          | no beyond ↦ absurd (omega (arith, overrun fuel blocks w'' w' (i + n) h'))
        ]
  ]

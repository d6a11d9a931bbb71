-- ===== src/Delta/RoundTrip.antt =====
-- ApplyDelta rebuilds the target from what CreateDelta wrote.
use git4go.Common.{
  ℕ, ◌+◌, ◌/◌, ◌^◌, ◌≤◌, ◌<◌, ◌≡◌, refl, sym, ap, ◌∙◌, subst, arith, List, [], ◌++◌, append-nil,
  length, take_all, drop_all, replicate, length-replicate, true, leb, ==_iff, All, ok, >>=-eq-ok,
  ok-injective, Slice,
}
use native.Mathlib.Nat.{mod-eq_of_lt}
use git4go.Delta.Size.{encode_header}
use git4go.Delta.Size.RoundTrip.{decode_header-encode_header}
use git4go.Delta.Blocks.{new_blocks}
use git4go.Delta.Create.{Writer, flush, create_loop, start, finish, index_source, create_delta}
use git4go.Delta.Apply.{apply_loop, apply_delta}
use git4go.Delta.Script.{
  Op, expand_all, encode_all, Fits, output, apply_loop-encode_all, length-encode_all,
}
use git4go.Delta.Wrote.{Wrote, flush-Wrote}
use git4go.Delta.CreateLoop.{Fits32, create_loop-Wrote}

pub start-Wrote :
    (source : List ℕ) (target : Slice)
    → Wrote source target.elems (encode_header source target.elems) (start source target) 0
unfolding start
start-Wrote source target = record {
  ops = [];
  written = sym (append-nil _);
  fits = tt;
  text = refl;
  size = length-replicate {A = ℕ} 127 0;
  room = omega arith;
}

finish-eq-ok :
    (target : Slice) (w : Writer) (i : ℕ) (delta : List ℕ)
    → finish target w i ≡ ok delta
    → (w' : Writer) × (flush w ≡ ok w') × (i ≡ length target.elems) × (delta ≡ w'.opcodes)
unfolding finish
finish-eq-ok target w i delta h =
    let (w', e, h') = >>=-eq-ok (flush w) _ h in (w', e, ground arith, ground arith)

-- A delta that CreateDelta returns is its header and the encoding of edits that stand for the
-- target.
create_delta-edits :
    (source : List ℕ) (target : Slice) (max_delta_size : ℕ) (delta : List ℕ)
    → Fits32 source target.elems
    → create_delta source target max_delta_size ≡ ok delta
    → (ops : List Op) × (delta ≡ encode_header source target.elems ++ encode_all ops)
      × All (Fits source) ops
      × (expand_all source ops ≡ target.elems)
unfolding create_delta
create_delta-edits source target max_delta_size delta sizes h =
    let (blocks, e, h') =
      >>=-eq-ok (index_source (length source) source (new_blocks ((length source + 16) / 17)) 0) _
        h in
    let ((w, i), e', h'') =
      >>=-eq-ok (create_loop (length target.elems) source target blocks (start source target) 0) _
        h' in
    let (w', flushed, at_end, same) = finish-eq-ok target w i delta h'' in
    let v =
      create_loop-Wrote source target (encode_header source target.elems) sizes
        (length target.elems) blocks (start source target) w 0 (start-Wrote source target)
        (subst
          (λ k.
            create_loop (length target.elems) source target blocks (start source target) 0
            ≡ ok (w, k))
          at_end e') in
    let (w'', flushed', v', empty) = flush-Wrote w (length target.elems) v in
    let same_writer : w'' ≡ w' = ok-injective (sym flushed' ∙ flushed) in
    (
      v'.ops,
      same ∙ ap (λ (x : Writer). x.opcodes) (sym same_writer) ∙ v'.written,
      v'.fits,
      rw (empty, append-nil, take_all) at v'.text,
    )

-- ApplyDelta on a header and the encoding of edits that fit rebuilds what they stand for.
apply_delta-edits :
    (max_alloc : ℕ) (base : Slice) (spare target : List ℕ) (ops : List Op)
    → length base.elems < 2 ^ 32
    → length target < 2 ^ 32
    → length target ≤ max_alloc
    → All (Fits base.elems) ops
    → expand_all base.elems ops ≡ target
    → apply_delta max_alloc base
        (record { elems = encode_header base.elems target ++ encode_all ops; spare = spare })
      ≡ ok target
unfolding apply_delta
apply_delta-edits max_alloc base spare target ops hb ht room fits text =
    rw (decode_header-encode_header base.elems target (encode_all ops)) (
      rw (mod-eq_of_lt hb, mod-eq_of_lt ht)
        (rw ((==_iff (length base.elems) (length base.elems)).1 refl, within)
          (rw filled
            (rw ((==_iff (length target) (length target)).1 refl) (ap ok (append-nil target))))))
  where
    delta : Slice
    delta = record { elems = encode_header base.elems target ++ encode_all ops; spare = spare }

    zeros : List ℕ
    zeros = replicate (length target) 0

    within : leb (length target) max_alloc ≡ true
    within = ground arith

    filled :
        apply_loop (length (encode_all ops)) base delta (encode_all ops) (output [] zeros)
        ≡ ok (output target [])
    filled =
        apply_loop-encode_all (length (encode_all ops)) base delta ops [] zeros fits
          (length-encode_all ops)
          (rw text (omega (arith, length-replicate {A = ℕ} (length target) 0)))
        ∙ rw (text) (
            ap (λ l. ok (output target l))
              (drop_all (length target) zeros
                (omega (arith, length-replicate {A = ℕ} (length target) 0))))

-- Whatever CreateDelta returns, ApplyDelta turns back into the target, for a source and a target
-- below 4 GiB of which one is below 16 MiB, where the target can be allocated, and whatever stands
-- behind the delta and the base in their arrays.
pub apply_delta-create_delta :
    (max_alloc max_delta_size : ℕ) (source target : Slice) (spare delta : List ℕ)
    → Fits32 source.elems target.elems
    → length target.elems ≤ max_alloc
    → create_delta source.elems target max_delta_size ≡ ok delta
    → apply_delta max_alloc source (record { elems = delta; spare = spare }) ≡ ok target.elems
apply_delta-create_delta max_alloc max_delta_size source target spare delta sizes room h =
    let (ops, written, fits, text) =
      create_delta-edits source.elems target max_delta_size delta sizes h in
    rw written
      (apply_delta-edits max_alloc source spare target.elems ops sizes.0 sizes.1 room fits text)

-- ===== src/Delta/Writer.antt =====
-- What the writer of CreateDelta has put down: edits that stand for the target up to `i`, the last
-- bytes of it still in the insert buffer.
use git4go.Common.{
  ℕ, ◌+◌, ◌^◌, ◌≤◌, ◌<◌, ◌≡◌, ap, subst, arith, List, [], ◌∷◌, ◌++◌, append-nil, length,
  length-drop, take, drop, take-add, All-append, copy_at, leb, Bool-cases, inl, inr, ok, Slice,
  slice_range-ok,
}
use git4go.Delta.Emit.{emit_copy}
use git4go.Delta.Match.{Match}
use git4go.Delta.Create.{Writer, insert_step, copy_step}
use git4go.Delta.Script.{Op, copy, Fits}
use git4go.Delta.Wrote.{
  Wrote, written_snoc, text_snoc, emit_insert-ok, flushed, flush-Wrote, buffered,
}

-- A step that inserts succeeds where the target has the bytes, and moves `i` behind them.
pub insert_step-Wrote :
    {source header : List ℕ} (target : Slice) (w : Writer) (i n : ℕ)
    → Wrote source target.elems header w i
    → n ≤ 127
    → i + n ≤ length target.elems
    → (w' : Writer) × (insert_step target w i n ≡ ok (w', n))
      × Wrote source target.elems header w' (i + n)
unfolding insert_step
insert_step-Wrote {source} {header} target w i n v hn hi =
    elim (Bool-cases (leb (w.buffered_length + n) (length w.insert_buffer))) [
      | inl e ↦ (
        record w {
          insert_buffer = copy_at w.insert_buffer w.buffered_length bytes;
          buffered_length = w.buffered_length + n;
        },
        rw e (rw (slice_range-ok target i n hi)),
        buffered w i n v (ground (arith, v.size)) hi,
      )
      | inr e ↦ (
        from_start n,
        rw e (
            rw (emit_insert-ok w.insert_buffer w.buffered_length v.room)
              (rw (slice_range-ok target i n hi))),
        subst (λ k. Wrote source target.elems header (from_start k) (i + n)) (zero_add n)
            (buffered clean i n (flushed w i v (ground (arith, v.size))) (omega arith) hi),
      )
    ]
  where
    bytes : List ℕ
    bytes = take n (drop i target.elems)

    clean : Writer
    clean = record w {
      opcodes = w.opcodes ++ (w.buffered_length ∷ take w.buffered_length w.insert_buffer);
      buffered_length = 0;
    }

    from_start : ℕ → Writer
    from_start k = record clean {
      insert_buffer = copy_at w.insert_buffer 0 bytes;
      buffered_length = k;
    }

    zero_add : (k : ℕ) → 0 + k ≡ k
    zero_add k = omega arith

-- A step that copies a run of the source flushes the buffer first.
pub copy_step-Wrote :
    {source header : List ℕ} (target : Slice) (w : Writer) (i : ℕ) (m : Match)
    → Wrote source target.elems header w i
    → (0 < m.length) × (m.length < 2 ^ 24) × (m.offset < 2 ^ 32)
    → m.length ≤ length (drop m.offset source)
    → take m.length (drop m.offset source) ≡ take m.length (drop i target.elems)
    → (w' : Writer) × (copy_step w m ≡ ok (w', m.length))
      × Wrote source target.elems header w' (i + m.length)
unfolding copy_step
copy_step-Wrote {source} {header} target w i m v h hl same =
    let (w', e, v', empty) = flush-Wrote w i v in
    (
      record w' { opcodes = w'.opcodes ++ emit_copy m.offset m.length },
      rw e,
      record {
        ops = v'.ops ++ (op ∷ []);
        written = written_snoc header w'.opcodes v'.ops op v'.written;
        fits = All-append (Fits source) v'.ops (op ∷ []) v'.fits ((h.0, h.1, h.2, within), tt);
        text =
            rw (empty, append-nil, text_snoc source v'.ops op)
              (rw (take-add i m.length target.elems, ← same)
                (ap (λ t. t ++ take m.length (drop m.offset source))
                  (rw (empty, append-nil) at v'.text)));
        size = v'.size;
        room = v'.room;
      },
    )
  where
    op : Op
    op = copy m.offset m.length

    within : m.offset + m.length ≤ length source
    within = omega (arith, length-drop m.offset source)

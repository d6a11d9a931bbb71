-- ===== src/Delta/Wrote.antt =====
-- What CreateDelta of delta.go has written stands for the part of the target before `i`.
use git4go.Common.{
  ℕ, ◌+◌, ◌≤◌, ◌<◌, ◌≡◌, refl, sym, ap, ◌∙◌, subst, arith, List, [], ◌∷◌, ◌++◌, append_assoc,
  append-nil, length, length-take, length-drop, length-copy_at, take, drop, take-add, take-copy_at,
  All, All-append, copy_at, ltb, Bool-cases, inl, inr, ltb→lt, not_ltb→le, ok,
}
use git4go.Delta.Emit.{emit_insert}
use git4go.Delta.Create.{Writer, flush}
use git4go.Delta.Script.{Op, insert, expand, expand_all, encode_op, encode_all, Fits}

module _ (source target header : List ℕ) where
  pub record Wrote (w : Writer) (i : ℕ) : Type 0 where
    pub ops : List Op
    pub written : w.opcodes ≡ header ++ encode_all ops
    pub fits : All (Fits source) ops
    pub text : expand_all source ops ++ take w.buffered_length w.insert_buffer ≡ take i target
    pub size : length w.insert_buffer ≡ 127
    pub room : w.buffered_length ≤ 127

encode_all-append :
    (ops ops' : List Op) → encode_all (ops ++ ops') ≡ encode_all ops ++ encode_all ops'
encode_all-append [] ops' = refl
encode_all-append (op ∷ ops) ops' =
    ap (◌++◌ (encode_op op)) (encode_all-append ops ops') ∙ sym (append_assoc (encode_op op) _ _)

expand_all-append :
    (source : List ℕ) (ops ops' : List Op)
    → expand_all source (ops ++ ops') ≡ expand_all source ops ++ expand_all source ops'
expand_all-append source [] ops' = refl
expand_all-append source (op ∷ ops) ops' =
    ap (◌++◌ (expand source op)) (expand_all-append source ops ops')
    ∙ sym (append_assoc (expand source op) _ _)

-- One more edit, whose text follows what the edits so far stand for.
pub written_snoc :
    (header opcodes : List ℕ) (ops : List Op) (op : Op)
    → opcodes ≡ header ++ encode_all ops
    → opcodes ++ encode_op op ≡ header ++ encode_all (ops ++ (op ∷ []))
written_snoc header opcodes ops op h =
    rw (h, encode_all-append ops (op ∷ []), append-nil)
      (append_assoc header (encode_all ops) (encode_op op))

pub text_snoc :
    (source : List ℕ) (ops : List Op) (op : Op)
    → expand_all source (ops ++ (op ∷ [])) ≡ expand_all source ops ++ expand source op
text_snoc source ops op = rw (expand_all-append source ops (op ∷ []), append-nil)

pub emit_insert-ok :
    (buffer : List ℕ) (n : ℕ) → n ≤ 127 → emit_insert buffer n ≡ ok (n ∷ take n buffer)
unfolding emit_insert
emit_insert-ok buffer n h = ground arith

module _ {source target header : List ℕ} where
  -- The bytes in the buffer, written as an insert.
  pub flushed :
      (w : Writer) (i : ℕ)
      → Wrote source target header w i
      → 0 < w.buffered_length
      → Wrote source target header
          (record w {
            opcodes = w.opcodes ++ (w.buffered_length ∷ take w.buffered_length w.insert_buffer);
            buffered_length = 0;
          })
          i
  flushed w i v pos = record {
    ops = v.ops ++ (op ∷ []);
    written =
        subst (λ n. w.opcodes ++ (n ∷ bytes) ≡ header ++ encode_all (v.ops ++ (op ∷ []))) size
          (written_snoc header w.opcodes v.ops op v.written);
    fits = All-append (Fits source) v.ops (op ∷ []) v.fits (omega (arith, size, v.room), tt);
    text = rw (append-nil, text_snoc source v.ops op) v.text;
    size = v.size;
    room = omega arith;
  }
    where
      bytes : List ℕ
      bytes = take w.buffered_length w.insert_buffer

      op : Op
      op = insert bytes

      size : length bytes ≡ w.buffered_length
      size = length-take w.buffered_length w.insert_buffer (omega (arith, v.size, v.room))

  pub flush-Wrote :
      (w : Writer) (i : ℕ)
      → Wrote source target header w i
      → (w' : Writer) × (flush w ≡ ok w')
        × Wrote source target header w' i
        × (w'.buffered_length ≡ 0)
  unfolding flush
  flush-Wrote w i v = elim (Bool-cases (ltb 0 w.buffered_length)) [
    | inl e ↦ (
      _,
      rw e (rw (emit_insert-ok w.insert_buffer w.buffered_length v.room)),
      flushed w i v (ltb→lt _ _ e),
      refl,
    )
    | inr e ↦ (w, rw e, v, omega (arith, not_ltb→le _ _ e))
  ]

  -- `n` bytes of the target put behind those in the buffer.
  pub buffered :
      (w : Writer) (i n : ℕ)
      → Wrote source target header w i
      → w.buffered_length + n ≤ 127
      → i + n ≤ length target
      → Wrote source target header
          (record w {
            insert_buffer = copy_at w.insert_buffer w.buffered_length (take n (drop i target));
            buffered_length = w.buffered_length + n;
          })
          (i + n)
  buffered w i n v h hi = record {
    ops = v.ops;
    written = v.written;
    fits = v.fits;
    text =
        ap (◌++◌ (expand_all source v.ops)) taken
        ∙ sym
            (append_assoc (expand_all source v.ops) (take w.buffered_length w.insert_buffer) bytes)
        ∙ rw v.text (sym (take-add i n target));
    size = length-copy_at w.insert_buffer w.buffered_length bytes ∙ v.size;
    room = h;
  }
    where
      bytes : List ℕ
      bytes = take n (drop i target)

      bytes_size : length bytes ≡ n
      bytes_size = length-take n (drop i target) (omega (arith, length-drop i target))

      taken :
          take (w.buffered_length + n) (copy_at w.insert_buffer w.buffered_length bytes)
          ≡ take w.buffered_length w.insert_buffer ++ bytes
      taken =
          ap (λ k. take (w.buffered_length + k) (copy_at w.insert_buffer w.buffered_length bytes))
            (sym bytes_size)
          ∙ take-copy_at w.insert_buffer w.buffered_length bytes (omega (arith, bytes_size, v.size))

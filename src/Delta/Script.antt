-- ===== src/Delta/Script.antt =====
-- What a delta stands for: a list of edits over the base. ApplyDelta's loop, on the encoding of such
-- a list, writes what the edits stand for.
use git4go.Common.{
  ℕ, zero, suc, ◌+◌, ◌^◌, ◌≤◌, ◌<◌, ◌≡◌, refl, sym, ap, ap₂, ◌∙◌, bit_and, arith, List, [], ◌∷◌,
  ◌++◌, append_assoc, append-nil, length, length-append, take, drop, length-take, length-drop, All,
  copy_at-append, take-append_self, drop-append_self, drop-drop, ◌==◌, false, ok, Slice,
  slice_range-ok,
}
use git4go.Common.Masks.{bit_field}
use git4go.Delta.Emit.{emit_copy}
use git4go.Delta.Apply.{Output, write, insert_op, apply_op, apply_loop}
use git4go.Delta.CopyOpcode.{copy_code_high, emit_copy-fields}
use git4go.Delta.CopyRead.{copy_op-emit_copy}

pub data Op : Type 0 where
  copy : (offset length : ℕ) → Op
  insert : (bytes : List ℕ) → Op

abbrev pub expand : List ℕ → Op → List ℕ
expand base (copy offset n) = take n (drop offset base)
expand base (insert bytes) = bytes

abbrev pub expand_all : List ℕ → List Op → List ℕ
expand_all base [] = []
expand_all base (op ∷ ops) = expand base op ++ expand_all base ops

abbrev pub encode_op : Op → List ℕ
encode_op (copy offset n) = emit_copy offset n
encode_op (insert bytes) = length bytes ∷ bytes

abbrev pub encode_all : List Op → List ℕ
encode_all [] = []
encode_all (op ∷ ops) = encode_op op ++ encode_all ops

-- An edit that the format can hold and that stays within the base.
abbrev pub Fits : List ℕ → Op → Type 0
Fits base (copy offset n) = (0 < n) × (n < 2 ^ 24) × (offset < 2 ^ 32) × (offset + n ≤ length base)
Fits base (insert bytes) = (0 < length bytes) × (length bytes ≤ 127)

-- A buffer of which `done` is written and `room` is left.
abbrev pub output : (done room : List ℕ) → Output
output done room = record { rv = done ++ room; rv_offset = length done }

write-output :
    (done room bytes : List ℕ) (n : ℕ)
    → length bytes ≡ n
    → n ≤ length room
    → write (output done room) bytes n ≡ ok (output (done ++ bytes) (drop n room))
unfolding write
write-output done room bytes n e h = ground (
  arith,
  length-append done room,
  length-append done bytes,
  copy_at-append done room bytes,
  append_assoc done bytes (drop n room),
)

-- The loop on one encoded edit.
apply_loop-copy :
    (fuel offset n : ℕ) (base delta : Slice) (done room rest : List ℕ)
    → Fits base.elems (copy offset n)
    → n ≤ length room
    → apply_loop (suc fuel) base delta (encode_op (copy offset n) ++ rest) (output done room)
      ≡ apply_loop fuel base delta rest
          (output (done ++ expand base.elems (copy offset n)) (drop n room))
unfolding apply_loop
apply_loop-copy fuel offset n base delta done room rest h hr = rw (emit_copy-fields offset n) (
    rw (copy_code_high offset n) (
      rw (copy_op-emit_copy offset n base rest (output done room) h.2 h.0 h.1) (
        rw (slice_range-ok base offset n h.3)
          (rw (write-output done room (take n (drop offset base.elems)) n size hr)))))
  where
    size : length (take n (drop offset base.elems)) ≡ n
    size = length-take n (drop offset base.elems) (omega (arith, length-drop offset base.elems))

apply_loop-insert :
    (fuel : ℕ) (base delta : Slice) (bytes done room rest : List ℕ)
    → Fits base.elems (insert bytes)
    → length bytes ≤ length room
    → apply_loop (suc fuel) base delta (encode_op (insert bytes) ++ rest) (output done room)
      ≡ apply_loop fuel base delta rest (output (done ++ bytes) (drop (length bytes) room))
unfolding apply_loop
apply_loop-insert fuel base delta bytes done room rest h hr =
    rw (high, apply_op)
      (rw (nonzero, apply_op)
        (rw
          (
            slice_range-ok (record { elems = bytes ++ rest; spare = delta.spare }) 0 (length bytes)
                (omega (arith, length-append bytes rest)),
            insert_op,
          )
          (rw (take-append_self bytes rest, drop-append_self bytes rest)
            (rw (write-output done room bytes (length bytes) refl hr)))))
  where
    high : bit_and (length bytes) 0x80 ≡ 0
    high = bit_field 7 (length bytes) ∙ omega arith

    nonzero : (length bytes == 0) ≡ false
    nonzero = ground arith

apply_loop-op :
    (fuel : ℕ) (base delta : Slice) (op : Op) (done room rest : List ℕ)
    → Fits base.elems op
    → length (expand base.elems op) ≤ length room
    → apply_loop (suc fuel) base delta (encode_op op ++ rest) (output done room)
      ≡ apply_loop fuel base delta rest
          (output (done ++ expand base.elems op) (drop (length (expand base.elems op)) room))
apply_loop-op fuel base delta (copy offset n) done room rest h hr =
    rw size (apply_loop-copy fuel offset n base delta done room rest h (rw size at hr))
  where
    size : length (take n (drop offset base.elems)) ≡ n
    size = length-take n (drop offset base.elems) (omega (arith, length-drop offset base.elems))
apply_loop-op fuel base delta (insert bytes) done room rest h hr =
    apply_loop-insert fuel base delta bytes done room rest h hr

-- The loop of ApplyDelta on the bytes of a list of edits, with a round for each: where the copies lie
-- within the base and have 1 to 2 ^ 24 - 1 bytes, the inserts have 1 to 127, and there is room for what
-- the edits stand for, that is written behind what was written before, and the rest of the room stays.
pub apply_loop-encode_all :
    (fuel : ℕ) (base delta : Slice) (ops : List Op) (done room : List ℕ)
    → All (Fits base.elems) ops
    → length ops ≤ fuel
    → length (expand_all base.elems ops) ≤ length room
    → apply_loop fuel base delta (encode_all ops) (output done room)
      ≡ ok (
          output
            (done ++ expand_all base.elems ops)
            (drop (length (expand_all base.elems ops)) room))
apply_loop-encode_all fuel base delta [] done room h hf hr =
    rw append-nil (unfold apply_loop in refl)
apply_loop-encode_all zero base delta (op ∷ ops) done room h hf hr = absurd (omega arith)
apply_loop-encode_all (suc fuel) base delta (op ∷ ops) done room h hf hr =
    apply_loop-op fuel base delta op done room (encode_all ops) h.0 (omega (arith, total))
    ∙ apply_loop-encode_all fuel base delta ops _ _ h.1 (omega arith)
        (omega (arith, total, length-drop n room))
    ∙ ap ok (
        ap₂ output (append_assoc done e es)
          (drop-drop (length es) n room ∙ ap (λ k. drop k room) (sym total)))
  where
    e : List ℕ
    e = expand base.elems op

    es : List ℕ
    es = expand_all base.elems ops

    n : ℕ
    n = length e

    total : length (e ++ es) ≡ length e + length es
    total = length-append e es

encode_op-pos : (op : Op) → 0 < length (encode_op op)
encode_op-pos (copy offset n) = rw (emit_copy-fields offset n) (omega arith)
encode_op-pos (insert bytes) = omega arith

-- Every edit takes a byte at least.
pub length-encode_all : (ops : List Op) → length ops ≤ length (encode_all ops)
length-encode_all [] = omega arith
length-encode_all (op ∷ ops) =
    omega (
      arith,
      length-append (encode_op op) (encode_all ops),
      encode_op-pos op,
      length-encode_all ops,
    )

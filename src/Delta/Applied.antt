-- ===== src/Delta/Applied.antt =====
-- ApplyDelta on any delta, well formed or not.
use git4go.Common.{
  ℕ, zero, suc, ◌≤◌, ◌≡◌, sym, ap, ◌∙◌, arith, List, [], ◌∷◌, length, length-drop, leb, ◌==◌,
  ==_iff, if◌then◌else◌, Bool-cases, inl, inr, ok, err, >>=-eq-ok, ok-injective, Slice, slice_range,
  length-copy_at, length-replicate, replicate, bit_and,
}
use git4go.Delta.Size.{decode_header}
use git4go.Delta.Emit.{DeltaError, patching_base_buffer}
use git4go.Delta.Apply.{
  Output, write, read_field, copy_op, insert_op, apply_op, apply_loop, apply_delta,
}

-- A write never changes the length of the buffer, and no opcode does.
write-length :
    (out out' : Output) (bytes : List ℕ) (n : ℕ)
    → write out bytes n ≡ ok out'
    → length out'.rv ≡ length out.rv
unfolding write
write-length out out' bytes n h = ground (arith, length-copy_at out.rv out.rv_offset bytes)

insert_op-length :
    (spare rest rest' : List ℕ) (opcode : ℕ) (out out' : Output)
    → insert_op spare opcode rest out ≡ ok (rest', out')
    → (length out'.rv ≡ length out.rv) × (length rest' ≤ length rest)
unfolding insert_op
insert_op-length spare rest rest' opcode out out' h =
    let (bytes, _, h') =
      >>=-eq-ok (slice_range (record { elems = rest; spare = spare }) 0 opcode) _ h in
    let (out'', e, h'') = >>=-eq-ok (write out bytes opcode) _ h' in
    let same = ok-injective h'' in
    omega (
      arith,
      write-length out out'' bytes opcode e,
      length-drop opcode rest,
      ap (λ (p : List ℕ × Output). length p.0) same,
      ap (λ (p : List ℕ × Output). length p.1.rv) same,
    )

read_field-length :
    (opcode flag shift : ℕ) (s s' : ℕ × List ℕ)
    → read_field opcode flag shift s ≡ ok s'
    → length s'.1 ≤ length s.1
unfolding read_field
read_field-length opcode flag shift (acc, []) (acc', rest') h = ground arith
read_field-length opcode flag shift (acc, b ∷ rest) (acc', rest') h = ground arith

copy_op-length :
    (base : Slice) (opcode : ℕ) (rest rest' : List ℕ) (out out' : Output)
    → copy_op base opcode rest out ≡ ok (rest', out')
    → (length out'.rv ≡ length out.rv) × (length rest' ≤ length rest)
unfolding copy_op
copy_op-length base opcode rest rest' out out' h0 =
    let (s1, e1, h1) = >>=-eq-ok (read_field opcode 0x01 0 (0, rest)) _ h0 in
    let (s2, e2, h2) = >>=-eq-ok (read_field opcode 0x02 8 s1) _ h1 in
    let (s3, e3, h3) = >>=-eq-ok (read_field opcode 0x04 16 s2) _ h2 in
    let (s4, e4, h4) = >>=-eq-ok (read_field opcode 0x08 24 s3) _ h3 in
    let (s5, e5, h5) = >>=-eq-ok (read_field opcode 0x10 0 (0, s4.1)) _ h4 in
    let (s6, e6, h6) = >>=-eq-ok (read_field opcode 0x20 8 s5) _ h5 in
    let (s7, e7, h7) = >>=-eq-ok (read_field opcode 0x40 16 s6) _ h6 in
    let n = if s7.0 == 0 then 0x10000 else s7.0 in
    let (bytes, _, h8) = >>=-eq-ok (slice_range base s4.0 n) _ h7 in
    let (out'', e, h9) = >>=-eq-ok (write out bytes n) _ h8 in
    let same = ok-injective h9 in
    omega (
      arith,
      read_field-length opcode 0x01 0 (0, rest) s1 e1,
      read_field-length opcode 0x02 8 s1 s2 e2,
      read_field-length opcode 0x04 16 s2 s3 e3,
      read_field-length opcode 0x08 24 s3 s4 e4,
      read_field-length opcode 0x10 0 (0, s4.1) s5 e5,
      read_field-length opcode 0x20 8 s5 s6 e6,
      read_field-length opcode 0x40 16 s6 s7 e7,
      write-length out out'' bytes n e,
      ap (λ (p : List ℕ × Output). length p.0) same,
      ap (λ (p : List ℕ × Output). length p.1.rv) same,
    )

pub apply_op-length :
    (base delta : Slice) (opcode : ℕ) (rest rest' : List ℕ) (out out' : Output)
    → apply_op base delta opcode rest out ≡ ok (rest', out')
    → (length out'.rv ≡ length out.rv) × (length rest' ≤ length rest)
unfolding apply_op
apply_op-length base delta opcode rest rest' out out' h =
    elim (Bool-cases (bit_and opcode 0x80 == 0)) [
      | inr e ↦ copy_op-length base opcode rest rest' out out' (rw e at h)
      | inl e ↦ elim (Bool-cases (opcode == 0)) [
        | inl zero_op ↦ cc (rw (e, zero_op) at h)
        | inr some_op ↦
            insert_op-length delta.spare rest rest' opcode out out' (rw (e, some_op) at h)
      ]
    ]

apply_loop-length :
    (fuel : ℕ) (base delta : Slice) (rest : List ℕ) (out out' : Output)
    → apply_loop fuel base delta rest out ≡ ok out'
    → length out'.rv ≡ length out.rv
unfolding apply_loop
apply_loop-length fuel base delta [] out out' h =
    ap (λ (o : Output). length o.rv) (sym (ok-injective h))
apply_loop-length zero base delta (opcode ∷ rest) out out' h = cc
apply_loop-length (suc fuel) base delta (opcode ∷ rest) out out' h =
    let ((rest', out''), e, h') = >>=-eq-ok (apply_op base delta opcode rest out) _ h in
    apply_loop-length fuel base delta rest' out'' out' h'
    ∙ (apply_op-length base delta opcode rest rest' out out'' e).0

-- What ApplyDelta accepts, well formed or not: the delta names the base's length, and the result
-- has the length that it names for the target.
pub apply_delta-eq-ok :
    (max_alloc : ℕ) (base delta : Slice) (rv : List ℕ)
    → apply_delta max_alloc base delta ≡ ok rv
    → (target_size : ℕ) × (opcodes : List ℕ) × (decode_header {E = DeltaError} delta.elems
        ≡ ok (length base.elems, target_size, opcodes))
      × (length rv ≡ target_size)
      × (target_size ≤ max_alloc)
unfolding apply_delta
apply_delta-eq-ok max_alloc base delta rv h =
    let ((base_size, target_size, rest), e, h') = >>=-eq-ok (decode_header delta.elems) _ h in
    elim (Bool-cases (base_size == length base.elems)) [
      | inr wrong ↦ cc (rw wrong at h')
      | inl right ↦ elim (Bool-cases (leb target_size max_alloc)) [
        | inr large ↦ cc (rw (right, large) at h')
        | inl fits ↦
            let (out, looped, end) =
              >>=-eq-ok
                (apply_loop (length rest) base delta rest
                  (record { rv = replicate target_size 0; rv_offset = 0 }))
                _ (rw (right, fits) at h') in
            let size =
              apply_loop-length (length rest) base delta rest _ out looped
              ∙ length-replicate target_size 0 in
            (
              target_size,
              rest,
              e
                  ∙ ap (λ k. ok (k, target_size, rest))
                      ((==_iff base_size (length base.elems)).0 right),
              written out target_size end ∙ size,
              ground arith,
            )
      ]
    ]
  where
    written :
        (out : Output) (n : ℕ)
        → (if out.rv_offset == n then ok out.rv else err patching_base_buffer) ≡ ok rv
        → length rv ≡ length out.rv
    written out n h = ground arith

-- ===== src/Pack/Chain/Unpacked.antt =====
-- What unpack of pack.go returns for an object that a pack holds.
use git4go.Common.{
  ℕ, zero, suc, ◌<◌, ◌≡◌, refl, ap, ◌∙◌, true, false, none, List, [], ◌∷◌, arith, Outcome, ok,
  Slice, GitError, length, ◌≤◌, ◌>>=◌, if◌then◌else◌, err, message,
}
use git4go.Delta.Create.{create_delta}
use git4go.Delta.Apply.{apply_delta}
use git4go.Delta.CreateLoop.{Fits32}
use git4go.Delta.RoundTrip.{apply_delta-create_delta}
use git4go.Pack.Header.{PackChainElem, unpack_header}
use git4go.Pack.Chain.{
  OdbObject, is_delta, is_object, Pack, unpack_compressed, delta_base, checked_base,
  dependency_chain, apply_deltas, unpack_base, unpack,
}

module _ (p : Pack) where
  -- An entry of the pack stands for an object: one that is stored whole, or what a delta makes of
  -- the object at the delta's base. The number counts the deltas.
  pub data Holds : (deltas offset obj_type : ℕ) → Slice → Type 0 where
    whole :
        (offset : ℕ) (elem : PackChainElem) (content : Slice)
        → unpack_header p.mwf_open offset ≡ ok elem
        → is_object elem.obj_type ≡ true
        → unpack_compressed p elem.offset ≡ ok content
        → Holds 0 offset elem.obj_type content
    by_delta :
        (n offset obj_type base_offset cur_pos : ℕ) (elem : PackChainElem) (base delta : Slice)
        (target : List ℕ)
        → unpack_header p.mwf_open offset ≡ ok elem
        → is_delta elem.obj_type ≡ true
        → delta_base p elem.offset elem.obj_type offset
          ≡ ok (record { base_offset = base_offset; cur_pos = cur_pos; error = none })
        → Holds n base_offset obj_type base
        → unpack_compressed p cur_pos ≡ ok delta
        → apply_delta p.max_alloc base delta ≡ ok target
        → Holds (suc n) offset obj_type (record { elems = target; spare = [] })

  object_no_delta : (obj_type : ℕ) → is_object obj_type ≡ true → is_delta obj_type ≡ false
  unfolding is_object is_delta
  object_no_delta obj_type h = ground arith

  -- What unpack does behind dependencyChain.
  read_stack : PackChainElem × List PackChainElem → Outcome GitError OdbObject
  read_stack (last, stack) =
      if is_object last.obj_type
      then unpack_base p last.obj_type stack (unpack_compressed p last.offset)
      else err (message "invalid packfile type in header")

  with_deltas : (stack : List PackChainElem) (obj_type : ℕ) → Slice → Outcome GitError OdbObject
  with_deltas stack obj_type content = do
    content' ← apply_deltas p stack content content
    ok (record { obj_type = obj_type; content = content' })

  read_stack-whole :
      (elem : PackChainElem) (content : Slice) (stack : List PackChainElem)
      → is_object elem.obj_type ≡ true
      → unpack_compressed p elem.offset ≡ ok content
      → read_stack (elem, stack) ≡ with_deltas stack elem.obj_type content
  unfolding read_stack unpack_base with_deltas
  read_stack-whole elem content stack object read = rw (object, read) refl

  apply_deltas-cons :
      (elem : PackChainElem) (stack : List PackChainElem) (base delta obj_data : Slice)
      (target : List ℕ)
      → unpack_compressed p elem.offset ≡ ok delta
      → apply_delta p.max_alloc base delta ≡ ok target
      → apply_deltas p (elem ∷ stack) base obj_data
        ≡ apply_deltas p stack
            (record { elems = target; spare = [] })
            (record { elems = target; spare = [] })
  unfolding apply_deltas
  apply_deltas-cons elem stack base delta obj_data target read applied = rw (read, applied) refl

  with_deltas-cons :
      (elem : PackChainElem) (stack : List PackChainElem) (obj_type : ℕ) (base delta : Slice)
      (target : List ℕ)
      → unpack_compressed p elem.offset ≡ ok delta
      → apply_delta p.max_alloc base delta ≡ ok target
      → with_deltas (elem ∷ stack) obj_type base
        ≡ with_deltas stack obj_type (record { elems = target; spare = [] })
  unfolding with_deltas
  with_deltas-cons elem stack obj_type base delta target read applied =
      ap (λ m. m >>= λ content. ok (record { obj_type = obj_type; content = content }))
        (apply_deltas-cons elem stack base delta base target read applied)

  dependency_chain-Holds :
      (rounds n offset obj_type : ℕ) (content : Slice) (stack : List PackChainElem)
      → n < rounds
      → Holds n offset obj_type content
      → (dependency_chain p rounds offset stack >>= read_stack) ≡ with_deltas stack obj_type content
  unfolding dependency_chain checked_base
  dependency_chain-Holds zero _ _ _ _ stack few _ = absurd (omega (arith, few))
  dependency_chain-Holds (suc rounds) _ _ _ _ stack few
        (whole offset elem content head object read) =
      rw (head, object_no_delta elem.obj_type object)
        (read_stack-whole (record elem { base_key = offset }) content stack object read)
  dependency_chain-Holds (suc rounds) _ _ _ _ stack few
        (by_delta n offset obj_type base_offset cur_pos elem base delta target head is_d based held
          read applied) =
      rw (head, is_d, based)
        (dependency_chain-Holds rounds n base_offset obj_type base _ (omega (arith, few)) held
          ∙ with_deltas-cons (record elem { base_key = offset; offset = cur_pos }) stack obj_type
              base delta target read applied)

-- Where an entry of a pack stands for an object, over any number of deltas, unpack returns the object's
-- type and its content, with the number of deltas and one more as rounds.
pub unpack-Holds :
    (p : Pack) (rounds n offset obj_type : ℕ) (content : Slice)
    → n < rounds
    → Holds p n offset obj_type content
    → unpack p rounds offset ≡ ok (record { obj_type = obj_type; content = content })
unfolding unpack read_stack with_deltas apply_deltas
unpack-Holds p rounds n offset obj_type content few held =
    dependency_chain-Holds p rounds n offset obj_type content [] few held

-- Where an entry's delta is what CreateDelta made of a base that the pack holds and of a target, with the
-- sizes at which CreateDelta's numbers are wide enough and a target that can be allocated, unpack
-- returns the target with the base's type, with a round for each delta and one more.
pub unpack-create_delta :
    (p : Pack) (n offset obj_type base_offset cur_pos max_delta_size : ℕ) (elem : PackChainElem)
    (base target : Slice) (spare delta : List ℕ)
    → unpack_header p.mwf_open offset ≡ ok elem
    → is_delta elem.obj_type ≡ true
    → delta_base p elem.offset elem.obj_type offset
      ≡ ok (record { base_offset = base_offset; cur_pos = cur_pos; error = none })
    → Holds p n base_offset obj_type base
    → unpack_compressed p cur_pos ≡ ok (record { elems = delta; spare = spare })
    → create_delta base.elems target max_delta_size ≡ ok delta
    → Fits32 base.elems target.elems
    → length target.elems ≤ p.max_alloc
    → unpack p (suc (suc n)) offset
      ≡ ok (record { obj_type = obj_type; content = record { elems = target.elems; spare = [] } })
unpack-create_delta p n offset obj_type base_offset cur_pos max_delta_size elem base target spare
      delta head is_d based held read made sizes room =
    unpack-Holds p (suc (suc n)) (suc n) offset obj_type
      (record { elems = target.elems; spare = [] }) (omega arith)
      (by_delta n offset obj_type base_offset cur_pos elem base
        (record { elems = delta; spare = spare }) target.elems head is_d based held read
        (apply_delta-create_delta p.max_alloc max_delta_size base target spare delta sizes room
          made))

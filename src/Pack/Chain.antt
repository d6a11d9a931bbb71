-- ===== src/Pack/Chain.antt =====
-- The objects of a pack, by dependencyChain, unpack and resolveHeader of pack.go: an object is stored
-- whole, or as a delta against another entry of the pack.
pub mod Unpacked
pub mod Ends
use git4go.Common.{
  ℕ, zero, suc, ◌+◌, ◌-◌, ◌%◌, ◌^◌, Bool, not, ◌||◌, Option, none, some, List, [], ◌∷◌, ltb, ◌==◌,
  if◌then◌else◌, Outcome, ok, err, panic, stuck, ◌>>=◌, GitError, message, Slice,
}
use git4go.Oid.{Oid}
use git4go.Delta.Emit.{DeltaError}
use git4go.Delta.Size.{decode_header}
use git4go.Delta.Apply.{apply_delta}
use git4go.Pack.Header.{PackChainElem, unpack_header}
use git4go.Pack.Base.{object_ofs_delta, object_ref_delta, DeltaBase, get_delta_base}

pub record OdbObject : Type 0 where
  pub obj_type : ℕ
  pub content : Slice

abbrev pub nil_slice : Slice
nil_slice = record { elems = []; spare = [] }

unfoldable pub is_delta : (obj_type : ℕ) → Bool
is_delta obj_type = obj_type == object_ofs_delta || obj_type == object_ref_delta

-- Is this the number of a commit, a tree, a blob or a tag?
unfoldable pub is_object : (obj_type : ℕ) → Bool
is_object obj_type = obj_type == 1 || (obj_type == 2 || (obj_type == 4 || obj_type == 3))

-- openWindow on a pack that is open and has `size` bytes.
unfoldable pub open_window :
    (mwf_open : ℕ → ℕ → Outcome GitError (List ℕ)) (size offset : ℕ) → Outcome GitError (List ℕ)
open_window mwf_open size offset =
    if ltb ((size + 2 ^ 64 - 20) % 2 ^ 64) offset
    then err (message "invalid size")
    else mwf_open offset 20

-- The length that a delta names for its target.
unfoldable pub delta_target_size : Slice → Outcome GitError ℕ
unfolding decode_header
delta_target_size delta = do
  (base_size, target_size, rest) ← decode_header delta.elems
  ok target_size

-- The base's offset and the delta's, or the error that ends dependencyChain.
unfoldable pub checked_base : DeltaBase → Outcome GitError (ℕ × ℕ)
checked_base base = elim base.error [
  | none ↦ ok (base.base_offset, base.cur_pos)
  | some e ↦ err (if base.base_offset == 0 then message "delta offset is zero" else e)
]

-- The rest of unpack's loop behind ApplyDelta: where a delta cannot be applied, the data for the next
-- one is nil, and the object's stays.
unfoldable pub with_target :
    (rest : Slice → Slice → Outcome GitError Slice) (obj_data : Slice)
    → Outcome DeltaError (List ℕ)
    → Outcome GitError Slice
with_target rest obj_data (ok target) =
    rest (record { elems = target; spare = [] }) (record { elems = target; spare = [] })
with_target rest obj_data (err e) = rest nil_slice obj_data
with_target rest obj_data panic = panic
with_target rest obj_data stuck = stuck

-- A round of that loop: a delta that cannot be read is passed over.
unfoldable pub next_delta :
    (max_alloc : ℕ) (rest : Slice → Slice → Outcome GitError Slice) (base_data obj_data : Slice)
    → Outcome GitError Slice
    → Outcome GitError Slice
unfolding apply_delta with_target
next_delta max_alloc rest base_data obj_data (ok delta) =
    with_target rest obj_data (apply_delta max_alloc base_data delta)
next_delta max_alloc rest base_data obj_data (err e) = rest base_data obj_data
next_delta max_alloc rest base_data obj_data panic = panic
next_delta max_alloc rest base_data obj_data stuck = stuck

-- What the pack and its libraries do: the window's Open, the size of the file, the offset of an id by
-- findOffset, zlib's reader, and the longest slice that can be made.
pub record Pack : Type 0 where
  pub mwf_open : ℕ → ℕ → Outcome GitError (List ℕ)
  pub size : ℕ
  pub find_offset : Oid → Outcome GitError ℕ
  pub inflate : List ℕ → Outcome GitError Slice
  pub max_alloc : ℕ

module _ (p : Pack) where
  unfoldable pub unpack_compressed : (offset : ℕ) → Outcome GitError Slice
  unfolding open_window
  unpack_compressed offset = do window ← open_window p.mwf_open p.size offset; p.inflate window

  unfoldable pub delta_base : (elem_offset obj_type obj_offset : ℕ) → Outcome GitError DeltaBase
  unfolding get_delta_base open_window
  delta_base = get_delta_base (open_window p.mwf_open p.size) p.find_offset

  -- dependencyChain, whose stack has its last element first.
  unfoldable pub dependency_chain :
      (rounds obj_offset : ℕ) (stack : List PackChainElem)
      → Outcome GitError (PackChainElem × List PackChainElem)
  unfolding unpack_header is_delta delta_base checked_base
  dependency_chain zero obj_offset stack = stuck
  dependency_chain (suc rounds) obj_offset stack = do
    head ← unpack_header p.mwf_open obj_offset
    let elem = record head { base_key = obj_offset }
    if not (is_delta elem.obj_type) then ok (elem, stack) else (do
      base ← delta_base elem.offset elem.obj_type obj_offset
      (base_offset, offset) ← checked_base base
      dependency_chain rounds base_offset (record elem { offset = offset } ∷ stack))

  -- The loop of unpack on the deltas, the one next to the base first.
  unfoldable pub apply_deltas :
      (stack : List PackChainElem) (base_data obj_data : Slice) → Outcome GitError Slice
  unfolding unpack_compressed next_delta
  apply_deltas [] base_data obj_data = ok obj_data
  apply_deltas (elem ∷ stack) base_data obj_data =
      next_delta p.max_alloc (apply_deltas stack) base_data obj_data (unpack_compressed elem.offset)

  -- unpack behind the reading of the base: an error of that is what unpack returns in the end, after
  -- the deltas are applied to nil.
  unfoldable pub unpack_base :
      (base_type : ℕ) (stack : List PackChainElem)
      → Outcome GitError Slice
      → Outcome GitError OdbObject
  unfolding apply_deltas
  unpack_base base_type stack (ok base_data) = do
    content ← apply_deltas stack base_data base_data
    ok (record { obj_type = base_type; content = content })
  unpack_base base_type stack (err e) = do ignored ← apply_deltas stack nil_slice nil_slice; err e
  unpack_base base_type stack panic = panic
  unpack_base base_type stack stuck = stuck

  -- unpack, whose second result, an offset, is never set.
  unfoldable pub unpack : (rounds obj_offset : ℕ) → Outcome GitError OdbObject
  unfolding dependency_chain unpack_base is_object
  unpack rounds obj_offset = do
    (last, stack) ← dependency_chain rounds obj_offset []
    if is_object last.obj_type
        then unpack_base last.obj_type stack (unpack_compressed last.offset)
        else err (message "invalid packfile type in header")

  -- The loop of resolveHeader, which passes over the errors of getDeltaBase.
  unfoldable pub resolve_type : (rounds base_offset : ℕ) → Outcome GitError ℕ
  unfolding unpack_header is_delta delta_base
  resolve_type zero base_offset = stuck
  resolve_type (suc rounds) base_offset = do
    elem ← unpack_header p.mwf_open base_offset
    if not (is_delta elem.obj_type) then ok elem.obj_type else (do
      base ← delta_base elem.offset elem.obj_type base_offset
      resolve_type rounds base.base_offset)

  unfoldable pub resolve_header : (rounds offset : ℕ) → Outcome GitError (ℕ × ℕ)
  unfolding resolve_type delta_target_size unpack_compressed
  resolve_header rounds offset = do
    elem ← unpack_header p.mwf_open offset
    if not (is_delta elem.obj_type) then ok (elem.obj_type, elem.size) else (do
      base ← delta_base elem.offset elem.obj_type offset
      delta ← unpack_compressed base.cur_pos
      result_size ← delta_target_size delta
      obj_type ← resolve_type rounds base.base_offset
      ok (obj_type, result_size))

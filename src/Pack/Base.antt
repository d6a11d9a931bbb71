-- ===== src/Pack/Base.antt =====
-- getDeltaBase of pack.go: where the base of a delta stands, by the distance or by the id that is
-- written before the delta.
pub mod Distance
pub mod RoundTrip
use git4go.Common.{
  ℕ, ◌+◌, ◌-◌, ◌*◌, ◌/◌, ◌%◌, ◌^◌, bit_and, Bool, not, ◌||◌, Option, none, some, List, [], ◌∷◌, ltb,
  leb, ◌==◌, if◌then◌else◌, take, Outcome, ok, err, panic, stuck, ◌>>=◌, GitError, message,
}
use git4go.Oid.{Oid, new_oid_from_bytes}

abbrev pub object_ofs_delta : ℕ
object_ofs_delta = 6

abbrev pub object_ref_delta : ℕ
object_ref_delta = 7

-- The three results of getDeltaBase.
pub record DeltaBase : Type 0 where
  pub base_offset : ℕ
  pub cur_pos : ℕ
  pub error : Option GitError

-- Is one of the highest `bit` bits set?
unfoldable pub msb : (x bit : ℕ) → Bool
msb x bit = not (bit_and x ((2 ^ 64 - 1) * 2 ^ (64 - bit) % 2 ^ 64) == 0)

-- The loop over the bytes of a distance: the distance so far, the number of bytes used, and the error.
-- `c` is the byte read last, and the list what lies behind the bytes used.
unfoldable pub distance_loop : (c base_offset used : ℕ) → List ℕ → ℕ × ℕ × Option GitError
unfolding msb
distance_loop c base_offset used [] =
    if bit_and c 128 == 0
    then (base_offset, used, none)
    else (base_offset, used, some (message "getDeltaBase: buffer over flow(1)"))
distance_loop c base_offset used (b ∷ buffer) =
    let next = (base_offset + 1) % 2 ^ 64 in
    let more =
      distance_loop b ((next * 2 ^ 7 % 2 ^ 64 + bit_and b 127) % 2 ^ 64) (used + 1) buffer in
    if bit_and c 128 == 0
    then (base_offset, used, none)
    else if next == 0 || msb next 7
    then (next, used, some (message "getDeltaBase: buffer over flow(2)"))
    else more

-- What follows the loop.
unfoldable pub ofs_base : (cur_pos delta_obj_offset : ℕ) → ℕ × ℕ × Option GitError → DeltaBase
ofs_base cur_pos delta_obj_offset (distance, used, some e) = record {
  base_offset = distance;
  cur_pos = cur_pos;
  error = some e;
}
ofs_base cur_pos delta_obj_offset (distance, used, none) =
    let base_offset = (delta_obj_offset + 2 ^ 64 - distance) % 2 ^ 64 in
    if base_offset == 0 || leb delta_obj_offset base_offset
    then record {
      base_offset = 0;
      cur_pos = cur_pos;
      error = some (message "getDeltaBase: buffer out of bound");
    }
    else record { base_offset = base_offset; cur_pos = (cur_pos + used) % 2 ^ 64; error = none }

unfoldable pub ofs_delta_base : (cur_pos delta_obj_offset : ℕ) → List ℕ → Outcome GitError DeltaBase
unfolding distance_loop ofs_base
ofs_delta_base cur_pos delta_obj_offset [] = panic
ofs_delta_base cur_pos delta_obj_offset (c ∷ buffer) =
    ok (ofs_base cur_pos delta_obj_offset (distance_loop c (bit_and c 127) 1 buffer))

unfoldable pub ref_delta_base : (cur_pos : ℕ) → Outcome GitError ℕ → Outcome GitError DeltaBase
ref_delta_base cur_pos (ok offset) =
    ok (record { base_offset = offset; cur_pos = (cur_pos + 20) % 2 ^ 64; error = none })
ref_delta_base cur_pos (err e) = ok (record {
  base_offset = 0;
  cur_pos = 0;
  error = some (message "base entry delta is not in the same pack");
})
ref_delta_base cur_pos panic = panic
ref_delta_base cur_pos stuck = stuck

-- `find_offset` is the offset that findOffset gives for a whole id.
module _ (find_offset : Oid → Outcome GitError ℕ) where
  unfoldable pub base_of :
      (cur_pos obj_type delta_obj_offset : ℕ) → List ℕ → Outcome GitError DeltaBase
  unfolding ofs_delta_base ref_delta_base new_oid_from_bytes
  base_of cur_pos obj_type delta_obj_offset buffer =
      if obj_type == object_ofs_delta
      then ofs_delta_base cur_pos delta_obj_offset buffer
      else if obj_type == object_ref_delta
      then (do oid ← new_oid_from_bytes buffer []; ref_delta_base cur_pos (find_offset oid))
      else ok (record { base_offset = 0; cur_pos = cur_pos; error = none })

  -- What follows openWindow.
  unfoldable pub base_in :
      (cur_pos obj_type delta_obj_offset : ℕ)
      → Outcome GitError (List ℕ)
      → Outcome GitError DeltaBase
  unfolding base_of
  base_in cur_pos obj_type delta_obj_offset (ok buffer) =
      base_of cur_pos obj_type delta_obj_offset buffer
  base_in cur_pos obj_type delta_obj_offset (err e) =
      ok (record { base_offset = 0; cur_pos = 0; error = some e })
  base_in cur_pos obj_type delta_obj_offset panic = panic
  base_in cur_pos obj_type delta_obj_offset stuck = stuck

-- `open_window` is openWindow.
unfoldable pub get_delta_base :
    (open_window : ℕ → Outcome GitError (List ℕ)) (find_offset : Oid → Outcome GitError ℕ)
    (cur_pos obj_type delta_obj_offset : ℕ)
    → Outcome GitError DeltaBase
unfolding base_in
get_delta_base open_window find_offset cur_pos obj_type delta_obj_offset =
    base_in find_offset cur_pos obj_type delta_obj_offset (open_window cur_pos)

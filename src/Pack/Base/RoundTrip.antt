-- ===== src/Pack/Base/RoundTrip.antt =====
-- getDeltaBase of pack.go reads the distances of git's packs.
use git4go.Common.{
  ℕ, ◌+◌, ◌-◌, ◌%◌, ◌^◌, ◌<◌, ◌≡◌, refl, ap, ◌∙◌, false, Option, none, List, [], ◌∷◌, arith, leb,
  ◌==◌, length, Outcome, ok, GitError,
}
use git4go.Oid.{Oid}
use git4go.Pack.Base.{object_ofs_delta, ofs_base, ofs_delta_base, get_delta_base}
use git4go.Pack.Base.Distance.{encode_distance, read_distance, read_distance-encode_distance}

-- The offset behind the distance, which is less than the delta's own.
ofs_base-ok :
    (cur_pos delta_obj_offset n used : ℕ)
    → 0 < n
    → n < delta_obj_offset
    → delta_obj_offset < 2 ^ 64
    → ofs_base cur_pos delta_obj_offset (n, used, none) ≡ record {
      base_offset = delta_obj_offset - n;
      cur_pos = (cur_pos + used) % 2 ^ 64;
      error = none;
    }
unfolding ofs_base
ofs_base-ok cur_pos delta_obj_offset n used h k fits = rw (difference, not_zero, inside) refl
  where
    difference : (delta_obj_offset + 2 ^ 64 - n) % 2 ^ 64 ≡ delta_obj_offset - n
    difference = omega (arith, h, k, fits)

    not_zero : (delta_obj_offset - n == 0) ≡ false
    not_zero = ground (arith, k)

    inside : leb delta_obj_offset (delta_obj_offset - n) ≡ false
    inside = ground (arith, h, k)

-- getDeltaBase on a delta that names its base by a distance, as git writes that: where the distance
-- is above 0 and less than the delta's offset, which is below 2 ^ 64, the base stands by the distance
-- before the delta, and the data follow the distance, whatever they are.
pub get_delta_base-encode_distance :
    (open_window : ℕ → Outcome GitError (List ℕ)) (find_offset : Oid → Outcome GitError ℕ)
    (cur_pos delta_obj_offset n : ℕ) (behind : List ℕ)
    → 0 < n
    → n < delta_obj_offset
    → delta_obj_offset < 2 ^ 64
    → open_window cur_pos ≡ ok (encode_distance n behind)
    → get_delta_base open_window find_offset cur_pos object_ofs_delta delta_obj_offset
      ≡ ok (record {
        base_offset = delta_obj_offset - n;
        cur_pos = (cur_pos + (length (encode_distance n behind) - length behind)) % 2 ^ 64;
        error = none;
      })
unfolding get_delta_base ofs_delta_base
get_delta_base-encode_distance open_window find_offset cur_pos delta_obj_offset n behind h k fits
      window =
    rw window (
      started (encode_distance n behind)
        (read_distance-encode_distance n behind (omega (arith, k, fits))))
  where
    started :
        (bytes : List ℕ)
        → read_distance bytes ≡ (n, length bytes - length behind, none)
        → ofs_delta_base cur_pos delta_obj_offset bytes
          ≡ ok (record {
            base_offset = delta_obj_offset - n;
            cur_pos = (cur_pos + (length bytes - length behind)) % 2 ^ 64;
            error = none;
          })
    started [] reads = absurd (omega (arith, h, ap (λ (r : ℕ × ℕ × Option GitError). r.0) reads))
    started (c ∷ bytes) reads =
        ap (λ r. ok (ofs_base cur_pos delta_obj_offset r)) reads
        ∙ ap ok (ofs_base-ok cur_pos delta_obj_offset n _ h k fits)

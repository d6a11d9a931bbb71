-- ===== src/Index/LongPath.antt =====
-- readEntry of index.go on a path of 4095 bytes or more.
use git4go.Common.{
  ℕ, zero, suc, ◌+◌, ◌-◌, ◌<◌, bit_and, ◌≡◌, refl, ◌≢◌, false, some, List, arith, ltb, ◌==◌, lt→ltb,
  length, get_elem?, ok, stuck, Slice,
}
use git4go.Index.Entry.{IndexEntry}
use git4go.Index.Format.{find_path_end, path_length_at, extended_at, read_fields, read_entry}

find_path_end-stuck :
    (rounds : ℕ) (buffer : List ℕ) (path_end bound c : ℕ)
    → path_end < bound
    → get_elem? buffer path_end ≡ some c
    → c ≢ 0
    → find_path_end rounds buffer path_end bound ≡ stuck
unfolding find_path_end
find_path_end-stuck zero buffer path_end bound c inside here h = rw (lt→ltb _ _ inside) refl
find_path_end-stuck (suc rounds) buffer path_end bound c inside here h =
    rw (lt→ltb _ _ inside, here, not_zero)
      (find_path_end-stuck rounds buffer path_end bound c inside here h)
  where
    not_zero : c == 0 ≡ false
    not_zero = ground (arith, h)

-- An entry without the extended flags whose length of the path is the greatest, 4095, and whose path does
-- not begin with a 0 is never read: whatever number of rounds the search for the end of its path is
-- given, it is not done, since pathEnd never moves.
pub read_entry_long_path :
    (rounds : ℕ) (buffer : Slice) (offset c : ℕ) (entry : IndexEntry)
    → offset + 62 < length buffer.elems - 20
    → read_fields buffer offset ≡ ok entry
    → bit_and entry.flags 0x4000 ≡ 0
    → bit_and entry.flags 0xfff ≡ 0xfff
    → get_elem? buffer.elems (offset + 62) ≡ some c
    → c ≢ 0
    → read_entry rounds buffer offset ≡ stuck
unfolding read_entry extended_at path_length_at
read_entry_long_path rounds buffer offset c entry inside fields plain long here h =
    simp
      (
        enough,
        fields,
        plain,
        long,
        find_path_end-stuck rounds buffer.elems (offset + 62) (length buffer.elems - 20) c inside
            here h,
      )
      refl
  where
    enough : ltb (length buffer.elems - 20) (offset + 62) ≡ false
    enough = ground arith

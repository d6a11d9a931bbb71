-- ===== src/Pack/Offset.antt =====
-- The index of a pack, by checkIndex, nthPackedObjectOffset, findOffset and findEntry of pack.go: which
-- id stands at which offset. The words of the mapped file are those of a machine that has the lowest
-- byte first.
pub mod Rows
pub mod Found
use git4go.Common.{
  ℕ, zero, suc, ◌+◌, ◌-◌, ◌*◌, ◌%◌, ◌^◌, bit_and, Ordering, Bool, true, false, not, ◌&&◌, ◌||◌,
  Option, none, some, List, [], ◌∷◌, ltb, leb, ◌==◌, if◌then◌else◌, length, take, drop, copy_at,
  Outcome, ok, err, panic, stuck, ◌>>=◌, GitError, message, byte_at, bytes_equal, Slice, ℤ, pos,
  negsuc,
}
use git4go.Util.{ntohl}
use git4go.Oid.{Oid, zero_oid, oid_raw_size, oid_hex_size, new_oid_from_bytes, n_cmp}
use git4go.Pack.Search.{sha1_position}

-- A pack whose index is open.
pub record PackIndex : Type 0 where
  pub index_map : List ℕ
  pub index_version : ℕ
  pub num_objects : ℕ
  pub bad_objects : List Oid

-- An error of findOffset, with the notFound that it returns beside.
pub record FindError : Type 0 where
  pub not_found : Bool
  pub error : GitError

-- `ntohl(map32[i])`. What the cast slice reads behind the mapped bytes is a fault.
unfoldable pub word_at {ℓ} : {E : Type ℓ} → (index_map : List ℕ) (i : ℕ) → Outcome E ℕ
unfolding ntohl
word_at index_map i = do
  a ← byte_at index_map (4 * i)
  b ← byte_at index_map (4 * i + 1)
  c ← byte_at index_map (4 * i + 2)
  d ← byte_at index_map (4 * i + 3)
  ok (ntohl (a + b * 2 ^ 8 + c * 2 ^ 16 + d * 2 ^ 24))

unfoldable pub nth_packed_object_offset {ℓ} : {E : Type ℓ} → PackIndex → (n : ℕ) → Outcome E ℕ
unfolding word_at
nth_packed_object_offset p n =
    if p.index_version == 1 then word_at p.index_map (256 + 6 * n) else (do
      let offset = 256 + (2 + p.num_objects * 6)
      off ← word_at p.index_map (offset + n)
      let offset' = offset + (p.num_objects + bit_and off 0x7fffffff * 2 % 2 ^ 32)
      if bit_and off 0x80000000 == 0 then ok off else (do
        high ← word_at p.index_map offset'
        low ← word_at p.index_map (offset' + 1)
        ok ((high * 2 ^ 32 + low) % 2 ^ 64)))

-- Where the table of ids begins, and how far its rows are apart.
unfoldable pub table_offset : PackIndex → ℕ
table_offset p = if ltb 1 p.index_version then 8 + 4 * 256 else 4 * 256 + 4

unfoldable pub table_stride : PackIndex → ℕ
table_stride p = if ltb 1 p.index_version then 20 else 24

-- The word of the first level for a first byte.
unfoldable pub level1 {ℓ} : {E : Type ℓ} → PackIndex → (first_id : ℕ) → Outcome E ℕ
unfolding word_at
level1 p first_id = word_at p.index_map ((if ltb 1 p.index_version then 2 else 0) + first_id)

-- `copy(oid[:], p.indexMap[current:])`
unfoldable pub id_at {ℓ} : {E : Type ℓ} → PackIndex → (current : ℕ) → Outcome E Oid
id_at p current =
    if ltb (length p.index_map) current
    then panic
    else ok (copy_at zero_oid 0 (take oid_raw_size (drop current p.index_map)))

unfoldable pub is_same : Ordering → Bool
is_same Ordering.eq = true
is_same Ordering.lt = false
is_same Ordering.gt = false

module _ (p : PackIndex) (short_oid : Oid) (n : ℕ) where
  -- Does the id at an index have the prefix?
  unfoldable pub has_prefix : (row : ℕ) → Outcome FindError Bool
  unfolding id_at n_cmp is_same table_offset table_stride
  has_prefix row = do
    oid ← id_at p (table_offset p + row * table_stride p)
    order ← n_cmp short_oid oid n
    ok (is_same order)

  -- The end of findOffset, for an index that fits.
  unfoldable pub found_at : (row : ℕ) → Outcome FindError (ℕ × Oid)
  unfolding has_prefix nth_packed_object_offset new_oid_from_bytes table_offset table_stride
  found_at row = do
    next_fits ←
        if not (n == oid_hex_size) && ltb (row + 1) p.num_objects
        then has_prefix (row + 1)
        else ok false
    if next_fits
        then err
            (record { not_found = false; error = message "found multiple offsets for pack entry" })
        else (do
          offset ← nth_packed_object_offset p row
          oid ← new_oid_from_bytes (drop (table_offset p + row * table_stride p) p.index_map) []
          ok (offset, oid))

  unfoldable pub at_position : ℤ → Outcome FindError (ℕ × Oid)
  unfolding found_at has_prefix
  at_position (pos row) = found_at row
  at_position (negsuc row) = do
    fits ← if ltb row p.num_objects then has_prefix row else ok false
    if fits
        then found_at row
        else err
            (record { not_found = true; error = message "failed to find offset for pack entry" })

  -- findOffset on the first `n` digits of an id.
  unfoldable pub find_offset : Outcome FindError (ℕ × Oid)
  unfolding level1 sha1_position at_position table_offset table_stride
  find_offset = do
    first_id ← byte_at short_oid 0
    hi ← level1 p first_id
    lo ← if first_id == 0 then ok 0 else level1 p (first_id - 1)
    position ←
        if ltb (length p.index_map) (table_offset p)
        then panic
        else sha1_position (record { elems = drop (table_offset p) p.index_map; spare = [] })
            (table_stride p) lo hi short_oid
    at_position position

  unfoldable pub is_bad : List Oid → Bool
  unfolding bytes_equal
  is_bad [] = false
  is_bad (bad ∷ rest) = bytes_equal short_oid bad || is_bad rest

  -- findEntry, with the outcome of opening the pack.
  unfoldable pub find_entry : Outcome FindError (Unit {0}) → Outcome FindError (ℕ × Oid)
  unfolding find_offset is_bad
  find_entry opened =
      if n == oid_hex_size && is_bad p.bad_objects
      then err (record { not_found = false; error = message "bad object found in packfile" })
      else (do found ← find_offset; nothing ← opened; ok found)

-- The loop of checkIndex over the words of the first level.
unfoldable pub check_monotonic : (rounds : ℕ) (index_map : List ℕ) (i nr : ℕ) → Outcome GitError ℕ
unfolding word_at
check_monotonic zero index_map i nr = ok nr
check_monotonic (suc rounds) index_map i nr = do
  n ← word_at index_map i
  let rest = check_monotonic rounds index_map (i + 1) n
  if ltb n nr then err (message "index is non-monotonic") else rest

-- Is the size of the file one that `nr` objects can have? The products are cut to 32 bits, where the
-- source has them so.
unfoldable pub check_size : (index_version nr size : ℕ) → Outcome GitError (Unit {0})
check_size index_version nr size =
    if index_version == 1
    then if size == 4 * 256 + nr * 24 + 20 + 20 then ok tt else err (message "index is corrupted")
    else (let min_size = (8 + 4 * 256 + nr * 28 + 20 + 20) % 2 ^ 32 in
        let max_size = if nr == 0 then min_size else min_size + (nr - 1) * 8 % 2 ^ 32 in
        if ltb size min_size || ltb max_size size then err (message "wrong index size") else ok tt)

-- checkIndex on the bytes of a regular file.
unfoldable pub check_index : (index_map : List ℕ) → Outcome GitError PackIndex
unfolding word_at check_monotonic check_size
check_index index_map = do
  signature ←
      if ltb (length index_map) (4 * 256 + 20 + 20)
      then err (message "Invalid pack index")
      else word_at index_map 0
  version ← word_at index_map 1
  index_version ←
      if not (signature == 0xff744f63)
      then ok 1
      else if ltb version 2 || ltb 2 version
      then err (message "unsupported index version")
      else ok version
  nr ← check_monotonic 256 index_map (if ltb 1 index_version then 2 else 0) 0
  checked ← check_size index_version nr (length index_map)
  ok (record {
    index_map = index_map;
    index_version = index_version;
    num_objects = nr;
    bad_objects = [];
  })

unfoldable pub version_ok : ℕ → Bool
version_ok version = version == 2 || version == 3

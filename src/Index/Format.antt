-- ===== src/Index/Format.antt =====
-- The file's entries: readEntry of index.go.
use git4go.Common.{
  ℕ, zero, suc, ◌+◌, ◌-◌, bit_and, Option, none, some, List, [], ltb, ◌==◌, if◌then◌else◌, length,
  Outcome, ◌>>=◌, ok, stuck, Slice, slice_range, GitError, byte_at,
}
use git4go.Oid.{new_oid_from_bytes}
use git4go.Util.{ntohl_from_bytes, ntohs_from_bytes}
use git4go.Index.Entry.{index_entry_name_mask, index_entry_extended, unix, IndexEntry}

abbrev pub index_header_size : ℕ
index_header_size = 12

abbrev pub index_footer_size : ℕ
index_footer_size = 20

abbrev pub index_minimum_entry_size : ℕ
index_minimum_entry_size = 62

-- The loop that looks for the end of a long path, which never moves pathEnd on. `rounds` bounds it.
unfoldable pub find_path_end :
    (rounds : ℕ) (buffer : List ℕ) (path_end bound : ℕ) → Outcome GitError (Option ℕ)
find_path_end zero buffer path_end bound = if ltb path_end bound then stuck else ok none
find_path_end (suc rounds) buffer path_end bound =
    let again = find_path_end rounds buffer path_end bound in
    if ltb path_end bound
    then (do c ← byte_at buffer path_end; if c == 0 then ok (some path_end) else again)
    else ok none

-- The length of the path, or none where a long one does not end.
unfoldable pub path_length_at :
    (rounds : ℕ) (buffer : List ℕ) (path_start bound flags : ℕ) → Outcome GitError (Option ℕ)
unfolding find_path_end
path_length_at rounds buffer path_start bound flags =
    if bit_and flags index_entry_name_mask == index_entry_name_mask
    then (do path_end ← find_path_end rounds buffer path_start bound; ok (minus_start path_end))
    else ok (some (bit_and flags index_entry_name_mask))
  where
    minus_start : Option ℕ → Option ℕ
    minus_start none = none
    minus_start (some path_end) = some (path_end - path_start)

-- Where the path begins, and the extended flags before it.
unfoldable pub extended_at : (buffer : List ℕ) (offset flags : ℕ) → Outcome GitError (ℕ × ℕ)
extended_at buffer offset flags =
    if bit_and flags index_entry_extended == 0
    then ok (offset + 62, 0)
    else (do extended ← ntohs_from_bytes buffer (offset + 62); ok (offset + 64, extended))

-- The offset behind an entry: a multiple of eight bytes on.
unfoldable pub behind_entry : (offset path_start path_length : ℕ) → ℕ
behind_entry offset path_start path_length =
    path_start
    + path_length
    + 8
    - offset
    - bit_and (path_start + path_length + 8 - offset) 7
    + offset

-- The numbers and the id before the path.
unfoldable pub read_fields : (buffer : Slice) (offset : ℕ) → Outcome GitError IndexEntry
unfolding unix
read_fields buffer offset = do
  ctime ← ntohl_from_bytes buffer.elems offset
  ctime_nano ← ntohl_from_bytes buffer.elems (offset + 4)
  mtime ← ntohl_from_bytes buffer.elems (offset + 8)
  mtime_nano ← ntohl_from_bytes buffer.elems (offset + 12)
  mode ← ntohl_from_bytes buffer.elems (offset + 24)
  uid ← ntohl_from_bytes buffer.elems (offset + 28)
  gid ← ntohl_from_bytes buffer.elems (offset + 32)
  size ← ntohl_from_bytes buffer.elems (offset + 36)
  bytes ← slice_range buffer (offset + 40) 20
  id ← new_oid_from_bytes bytes []
  flags ← ntohs_from_bytes buffer.elems (offset + 60)
  ok (record {
    ctime = unix ctime ctime_nano;
    mtime = unix mtime mtime_nano;
    mode = mode;
    uid = uid;
    gid = gid;
    size = size;
    id = some id;
    path = [];
    flags = flags;
    flags_extended = 0;
  })

-- The end of readEntry, from the length of the path on.
unfoldable pub with_path :
    (buffer : Slice) (offset path_start : ℕ)
    → IndexEntry
    → Option ℕ
    → Outcome GitError (ℕ × Option IndexEntry)
unfolding behind_entry
with_path buffer offset path_start entry none = ok (offset, none)
with_path buffer offset path_start entry (some path_length) = do
  path ← slice_range buffer path_start path_length
  ok (behind_entry offset path_start path_length, some (record entry { path = path }))

-- readEntry: an entry that is nil leaves the offset as it was.
unfoldable pub read_entry :
    (rounds : ℕ) (buffer : Slice) (offset : ℕ) → Outcome GitError (ℕ × Option IndexEntry)
unfolding extended_at path_length_at with_path
read_entry rounds buffer offset =
    if ltb (length buffer.elems - index_footer_size) (offset + index_minimum_entry_size)
    then ok (offset, none)
    else (do
      entry ← read_fields buffer offset
      (path_start, extended) ← extended_at buffer.elems offset entry.flags
      path_length ←
          path_length_at rounds buffer.elems path_start (length buffer.elems - index_footer_size)
            entry.flags
      with_path buffer offset path_start (record entry { flags_extended = extended }) path_length)

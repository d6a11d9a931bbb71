-- ===== src/Index/Read.antt =====
-- The reading of an index file: Read of index.go, with readReuc, readConflictNames and readExtension.
use git4go.Common.{
  ℕ, zero, suc, ◌+◌, ◌-◌, Bool, true, false, not, ◌&&◌, Option, none, some, List, [], ◌∷◌, ◌++◌,
  ltb, leb, ◌==◌, if◌then◌else◌, length, take, drop, copy_at, Outcome, ok, err, panic, stuck, Slice,
  codes, GitError, message, bytes_equal, byte_at,
}
use git4go.Common.Actions.{Action, ◌>>=◌, ◌>>◌, lift, get, modify, fail}
use git4go.Oid.{Oid, new_oid_from_bytes, equal, zero_oid}
use git4go.Util.{ntohl_from_bytes}
use git4go.TreeCache.{TreeCache, read_tree_cache}
use git4go.Index.Entry.{IndexEntry}
use git4go.Index.Store.{Index, empty_index, clear, entry_count, sort_entries_if_needed}
use git4go.Index.Format.{index_header_size, index_footer_size, read_entry}
use git4go.Index.Extensions.{read_reuc_entry, read_name_entry}

abbrev pub index_header_sig : ℕ
index_header_sig = 0x44495243

abbrev pub index_version_number : ℕ
index_version_number = 2

abbrev pub index_version_number_ext : ℕ
index_version_number_ext = 3

-- The loop of readReuc: entries that are read stay in the index where a later one fails.
unfoldable pub read_reuc_loop :
    (rounds : ℕ) (buffer : List ℕ) (offset end : ℕ) → Action Index (Unit {0})
unfolding read_reuc_entry
read_reuc_loop zero buffer offset end = if ltb offset end then lift stuck else lift (ok tt)
read_reuc_loop (suc rounds) buffer offset end =
    if ltb offset end
    then (do
      (lost, behind) ← lift (read_reuc_entry buffer offset end)
      modify (λ v. record v { reuc = v.reuc ++ (lost ∷ []) })
      read_reuc_loop rounds buffer behind end)
    else lift (ok tt)

-- readReuc. Each round passes over a byte at least.
unfoldable pub read_reuc : (buffer : List ℕ) (offset size : ℕ) → Action Index (Unit {0})
unfolding read_reuc_loop
read_reuc buffer offset size = do
  read_reuc_loop size buffer offset (offset + size)
  modify (λ v. record v { reuc_sorted = true })

unfoldable pub read_conflict_names_loop :
    (rounds : ℕ) (buffer : List ℕ) (offset end : ℕ) → Action Index (Unit {0})
unfolding read_name_entry
read_conflict_names_loop zero buffer offset end =
    if ltb offset end then lift stuck else lift (ok tt)
read_conflict_names_loop (suc rounds) buffer offset end =
    if ltb offset end
    then (do
      (conflict_name, behind) ← lift (read_name_entry buffer offset end)
      modify (λ v. record v { names = v.names ++ (conflict_name ∷ []) })
      read_conflict_names_loop rounds buffer behind end)
    else lift (ok tt)

unfoldable pub read_conflict_names : (buffer : List ℕ) (offset size : ℕ) → Action Index (Unit {0})
unfolding read_conflict_names_loop
read_conflict_names buffer offset size = read_conflict_names_loop size buffer offset (offset + size)

-- `if err != nil { return 0 }`.
unfoldable pub or_zero :
    (total : ℕ) → Index × Outcome GitError (Unit {0}) → Index × Outcome GitError ℕ
or_zero total (v, ok a) = (v, ok total)
or_zero total (v, err e) = (v, ok 0)
or_zero total (v, panic) = (v, panic)
or_zero total (v, stuck) = (v, stuck)

-- `index.tree = cache`, or 0 where the cache is nil.
unfoldable pub keep_tree : (total : ℕ) → Outcome GitError TreeCache → Action Index ℕ
keep_tree total (ok cache) v = (record v { tree = some cache }, ok total)
keep_tree total (err e) v = (v, ok 0)
keep_tree total panic v = (v, panic)
keep_tree total stuck v = (v, stuck)

-- readExtension by its signature, with the size of the whole. An extension whose signature begins with
-- a capital and is not known is passed over.
unfoldable pub read_known_extension : (buffer : List ℕ) (offset extension_size : ℕ) → Action Index ℕ
unfolding keep_tree read_tree_cache or_zero read_reuc read_conflict_names bytes_equal
read_known_extension buffer offset extension_size =
    let signature = take 4 (drop offset buffer) in
    if bytes_equal signature (codes "TREE")
    then keep_tree (extension_size + 8) (read_tree_cache buffer (offset + 8) extension_size)
    else if bytes_equal signature (codes "REUC")
    then (λ v. or_zero (extension_size + 8) (read_reuc buffer (offset + 8) extension_size v))
    else if bytes_equal signature (codes "NAME")
    then (λ v.
        or_zero (extension_size + 8) (read_conflict_names buffer (offset + 8) extension_size v))
    else lift (ok (extension_size + 8))

-- readExtension: 0 where the extension is cut off, broken or of a kind that must be understood.
unfoldable pub read_extension : (buffer : List ℕ) (offset : ℕ) → Action Index ℕ
unfolding ntohl_from_bytes read_known_extension
read_extension buffer offset = do
  extension_size ← lift (ntohl_from_bytes buffer (offset + 4))
  if ltb (length buffer - index_footer_size) (offset + (extension_size + 8))
      then lift (ok 0)
      else (do
        c ← lift (byte_at buffer offset)
        if leb 65 c && leb c 90
            then read_known_extension buffer offset extension_size
            else lift (ok 0))

-- The loop over the extensions, which ends with the offset. Each has eight bytes at least.
unfoldable pub read_extensions : (rounds : ℕ) (buffer : List ℕ) (offset bound : ℕ) → Action Index ℕ
unfolding read_extension
read_extensions zero buffer offset bound = if ltb offset bound then lift stuck else lift (ok offset)
read_extensions (suc rounds) buffer offset bound =
    if ltb offset bound
    then (do
      size ← read_extension buffer offset
      if size == 0
          then fail (message "Index.Read(): extension is truncated")
          else read_extensions rounds buffer (offset + size) bound)
    else lift (ok offset)

-- `if entry != nil { v.Entries = append(v.Entries, entry) }`.
unfoldable pub append_entry : Option IndexEntry → Action Index (Unit {0})
append_entry none = modify (λ v. v)
append_entry (some entry) = modify (λ v. record v { entries = v.entries ++ (entry ∷ []) })

-- The loop over the entries: how many are left at its end, and the offset.
unfoldable pub read_entries : (rounds left : ℕ) (buffer : Slice) (offset : ℕ) → Action Index (ℕ × ℕ)
unfolding read_entry append_entry
read_entries rounds zero buffer offset = lift (ok (0, offset))
read_entries rounds (suc left) buffer offset =
    if ltb offset (length buffer.elems - index_footer_size)
    then (do
      (next_offset, entry) ← lift (read_entry rounds buffer offset)
      append_entry entry
      read_entries rounds left buffer next_offset)
    else lift (ok (suc left, offset))

-- What os.Stat says of the file: an error other than that it does not exist leaves no information to
-- ask for the time, which is in seconds.
pub data FileStat : Type 0 where
  not_exist unreadable : FileStat
  modified : ℕ → FileStat

-- What follows the header up to the checksum.
unfoldable pub read_body : (rounds : ℕ) (buffer : Slice) (entry_count : ℕ) → Action Index (Unit {0})
unfolding read_entries read_extensions
read_body rounds buffer entry_count = do
  let bound = length buffer.elems - index_footer_size
  (left, behind_entries) ← read_entries rounds entry_count buffer index_header_size
  if not (left == 0)
      then fail (message "Index.Read(): header entries changed while parsing")
      else (do
        behind ← read_extensions bound buffer.elems behind_entries bound
        if behind == bound
            then lift (ok tt)
            else fail (message "buffer size does not match index footer size"))

-- The end of Read: without regard to case the entries are sorted first.
unfoldable pub finish_read : (stamp : ℕ) → Index → Index
unfolding sort_entries_if_needed
finish_read stamp v =
    if v.ignore_case
    then record (sort_entries_if_needed (record v { entries_sorted = false }) true) {
      entries_sorted = true;
      stamp = stamp;
    }
    else record v { entries_sorted = true; stamp = stamp }

-- Read, with sha1 of the standard library, which calcHash copies into an id.
module _ (sha1 : List ℕ → List ℕ) where
  unfoldable pub calc_hash : List ℕ → Oid
  calc_hash buffer = copy_at zero_oid 0 (sha1 buffer)

  unfoldable pub check_checksum : List ℕ → Action Index (Unit {0})
  unfolding calc_hash new_oid_from_bytes equal
  check_checksum buffer = do
    let content_size = length buffer - index_footer_size
    expected ← lift (new_oid_from_bytes (drop content_size buffer) [])
    if equal (calc_hash (take content_size buffer)) expected
        then lift (ok tt)
        else fail (message "Index.Read(): calculated checksum does not match expected")

  -- The checks before the entries, and the number of entries that the header names.
  unfoldable pub read_header : List ℕ → Action Index ℕ
  unfolding check_checksum ntohl_from_bytes
  read_header buffer =
      if ltb (length buffer) (index_header_size + index_footer_size)
      then fail (message "Index.Read(): insufficient buffer space")
      else (do
        check_checksum buffer
        signature ← lift (ntohl_from_bytes buffer 0)
        if not (signature == index_header_sig)
            then fail (message "Index.Read(): incorrect header signature")
            else (do
              version ← lift (ntohl_from_bytes buffer 4)
              if not (version == index_version_number) && not (version == index_version_number_ext)
                  then fail (message "Index.Read(): incorrect header version")
                  else lift (ntohl_from_bytes buffer 8)))

  -- Read of a buffer into an index that Clear has emptied.
  unfoldable pub read_buffer : (rounds : ℕ) (buffer : Slice) (stamp : ℕ) → Action Index (Unit {0})
  unfolding read_header read_body finish_read
  read_buffer rounds buffer stamp = do
    entry_count ← read_header buffer.elems
    read_body rounds buffer entry_count
    modify (finish_read stamp)

  -- Read, with what os.Stat and ioutil.ReadFile say of the file.
  unfoldable pub read :
      (rounds : ℕ) (stat : FileStat) (file : Outcome GitError Slice) (force : Bool)
      → Action Index (Unit {0})
  unfolding bytes_equal clear read_buffer
  read rounds stat file force = do
    v ← get
    if bytes_equal v.file_path []
        then fail (message "Failed to read index: The index is in-memory only")
        else elim stat [
          | not_exist ↦
              modify (λ w. let w' = record w { on_disk = false } in if force then clear w' else w')
          | unreadable ↦ (λ w. (record w { on_disk = true }, panic))
          | modified stamp ↦ (do
            modify (λ w. record w { on_disk = true })
            if leb stamp v.stamp && not force
                then lift (ok tt)
                else (do buffer ← lift file; modify clear; read_buffer rounds buffer stamp))
        ]

  -- OpenIndex: nothing is returned with an error.
  unfoldable pub open_index :
      (rounds : ℕ) (stat : FileStat) (file : Outcome GitError Slice) (path : List ℕ)
      → Index × Outcome GitError (Unit {0})
  unfolding empty_index bytes_equal read
  open_index rounds stat file path =
      if bytes_equal path []
      then (empty_index path, ok tt)
      else read rounds stat file true (empty_index path)

-- ===== src/Index/Fresh.antt =====
-- An index of index.go never has a tree cache.
use git4go.Common.{
  ℕ, zero, suc, ◌+◌, ◌-◌, ◌≡◌, refl, Bool, true, not, ◌&&◌, Option, none, some, List, [], ◌∷◌, ◌++◌,
  arith, ltb, leb, ◌==◌, if_both, length, take, Outcome, panic, Slice, GitError, bytes_equal,
}
use git4go.Common.Actions.{continue, Leaves, continue-Leaves, if-Leaves, if-apply-Leaves}
use git4go.Oid.{equal}
use git4go.Tree.Entries.{valid_filemode}
use git4go.Index.Entry.{IndexEntry}
use git4go.Index.Store.{Index, empty_index, entry_count, sort_entries_if_needed}
use git4go.Index.Format.{index_header_size, index_footer_size}
use git4go.Index.Read.{
  index_header_sig, index_version_number, index_version_number_ext, append_entry, read_entries,
  FileStat, read_body, finish_read, calc_hash, check_checksum, read_header, read_buffer, read,
  open_index, not_exist, unreadable, modified,
}
use git4go.Index.Changes.{add}
use git4go.Index.Treeless.{HasNoTree, keeps, read_extensions-HasNoTree}

append_entry-HasNoTree :
    (entry : Option IndexEntry) (v : Index) → HasNoTree v → Leaves HasNoTree (append_entry entry v)
unfolding append_entry
append_entry-HasNoTree none v h = keeps h
append_entry-HasNoTree (some entry) v h = keeps h

read_entries-HasNoTree :
    (rounds left : ℕ) (buffer : Slice) (offset : ℕ) (v : Index)
    → HasNoTree v
    → Leaves HasNoTree (read_entries rounds left buffer offset v)
unfolding read_entries
read_entries-HasNoTree rounds zero buffer offset v h = keeps h
read_entries-HasNoTree rounds (suc left) buffer offset v h =
    if-apply-Leaves (ltb offset (length buffer.elems - index_footer_size)) _ _ v
      (continue-Leaves (keeps h) (λ found w k.
        continue-Leaves (append_entry-HasNoTree found.1 w k)
          (λ a w' k'. read_entries-HasNoTree rounds left buffer found.0 w' k')))
      (keeps h)

read_body-HasNoTree :
    (rounds : ℕ) (buffer : Slice) (entry_count : ℕ) (v : Index)
    → HasNoTree v
    → Leaves HasNoTree (read_body rounds buffer entry_count v)
unfolding read_body
read_body-HasNoTree rounds buffer entry_count v h =
    continue-Leaves (read_entries-HasNoTree rounds entry_count buffer 12 v h) (λ found w k.
      if-apply-Leaves (not (found.0 == 0)) _ _ w (keeps k) (
        continue-Leaves (read_extensions-HasNoTree _ buffer.elems found.1 _ w k) (λ behind w' k'.
          if-apply-Leaves (behind == (length buffer.elems - index_footer_size)) _ _ w' (keeps k')
            (keeps k'))))

finish_read-HasNoTree : (stamp : ℕ) (v : Index) → HasNoTree v → HasNoTree (finish_read stamp v)
unfolding finish_read sort_entries_if_needed
finish_read-HasNoTree stamp v h = ground arith

module _ (sha1 : List ℕ → List ℕ) where
  read_header-HasNoTree :
      (buffer : List ℕ) (v : Index) → HasNoTree v → Leaves HasNoTree (read_header sha1 buffer v)
  unfolding read_header check_checksum
  read_header-HasNoTree buffer v h =
      if-apply-Leaves (ltb (length buffer) (index_header_size + index_footer_size)) _ _ v (keeps h)
        (continue-Leaves
          (continue-Leaves (keeps h) (λ expected w k.
            if-apply-Leaves
              (equal (calc_hash sha1 (take (length buffer - index_footer_size) buffer)) expected) _
              _ w (keeps k) (keeps k)))
          (λ a w k. continue-Leaves (keeps k) (λ signature w' k'.
            if-apply-Leaves (not (signature == index_header_sig)) _ _ w' (keeps k') (
              continue-Leaves (keeps k') (λ version w'' k''.
                if-apply-Leaves
                  (not (version == index_version_number)
                    && not (version == index_version_number_ext))
                  _ _ w'' (keeps k'') (keeps k''))))))

  read_buffer-HasNoTree :
      (rounds : ℕ) (buffer : Slice) (stamp : ℕ) (v : Index)
      → HasNoTree v
      → Leaves HasNoTree (read_buffer sha1 rounds buffer stamp v)
  unfolding read_buffer
  read_buffer-HasNoTree rounds buffer stamp v h =
      continue-Leaves (read_header-HasNoTree buffer.elems v h) (λ count w k.
        continue-Leaves (read_body-HasNoTree rounds buffer count w k)
          (λ a w' k'. keeps (finish_read-HasNoTree stamp w' k')))

  read-HasNoTree :
      (rounds : ℕ) (stat : FileStat) (file : Outcome GitError Slice) (force : Bool) (v : Index)
      → HasNoTree v
      → Leaves HasNoTree (read sha1 rounds stat file force v)
  unfolding read
  read-HasNoTree rounds not_exist file force v h = continue-Leaves (keeps h) (λ u w k.
      if-apply-Leaves (bytes_equal u.file_path []) _ _ w (keeps k)
        (keeps (if_both HasNoTree force refl k)))
  read-HasNoTree rounds unreadable file force v h =
      continue-Leaves (keeps h)
        (λ u w k. if-apply-Leaves (bytes_equal u.file_path []) _ _ w (keeps k) (keeps k))
  read-HasNoTree rounds (modified stamp) file force v h = continue-Leaves (keeps h) (λ u w k.
      if-apply-Leaves (bytes_equal u.file_path []) _ _ w (keeps k) (
        continue-Leaves (keeps k) (λ a w' k'.
          if-apply-Leaves (leb stamp u.stamp && not force) _ _ w' (keeps k') (
            continue-Leaves (keeps k') (λ buffer w'' k''.
              continue-Leaves (keeps refl)
                (λ a' w''' k'''. read_buffer-HasNoTree rounds buffer stamp w''' k'''))))))

  open_index-HasNoTree :
      (rounds : ℕ) (stat : FileStat) (file : Outcome GitError Slice) (path : List ℕ)
      → HasNoTree (open_index sha1 rounds stat file path).0
  unfolding open_index
  open_index-HasNoTree rounds stat file path =
      (if-Leaves (bytes_equal path []) (keeps refl)
        (read-HasNoTree rounds stat file true (empty_index path) refl)).holds

add_panics :
    (entry : IndexEntry) (v : Index)
    → valid_filemode entry.mode ≡ true
    → HasNoTree v
    → ((add entry v).1 ≡ panic) × ((add entry v).0.entries ≡ v.entries ++ (entry ∷ []))
unfolding add continue
add_panics entry v h e = rw h (rw e (refl, refl))

-- OpenIndex, whatever the file holds, leaves an index without a tree cache, and then Add of an entry
-- with a valid mode panics, and has appended the entry before.
pub add-open_index :
    (sha1 : List ℕ → List ℕ) (rounds : ℕ) (stat : FileStat) (file : Outcome GitError Slice)
    (path : List ℕ) (entry : IndexEntry)
    → valid_filemode entry.mode ≡ true
    → ((open_index sha1 rounds stat file path).0.tree ≡ none)
      × ((add entry (open_index sha1 rounds stat file path).0).1 ≡ panic)
      × ((add entry (open_index sha1 rounds stat file path).0).0.entries
          ≡ (open_index sha1 rounds stat file path).0.entries ++ (entry ∷ []))
add-open_index sha1 rounds stat file path entry h = (
  open_index-HasNoTree sha1 rounds stat file path,
  (add_panics entry _ h (open_index-HasNoTree sha1 rounds stat file path)).0,
  (add_panics entry _ h (open_index-HasNoTree sha1 rounds stat file path)).1,
)

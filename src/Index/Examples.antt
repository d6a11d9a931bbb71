-- ===== src/Index/Examples.antt =====
-- Runs of index.go.
use git4go.Common.{
  ℕ, zero, suc, ◌+◌, ◌*◌, ◌/◌, ◌%◌, ◌^◌, ◌≡◌, refl, true, false, Option, none, some, List, [], ◌∷◌,
  ◌++◌, arith, length, replicate, Outcome, ◌>>=◌, ok, err, panic, stuck, Slice, slice_range, codes,
  GitError, not_found, git_error, bytes_equal, ℤ, pos, negsuc,
}
use git4go.Common.Actions.{continue}
use git4go.Oid.{Oid, new_oid_from_bytes}
use git4go.Util.{ntohl_from_bytes, ntohs_from_bytes}
use git4go.Tree.Entries.{valid_filemode}
use git4go.Index.Entry.{zero_time, IndexEntry, stage, set_stage, is_conflict}
use git4go.Index.Store.{Index, sort_entries_if_needed}
use git4go.Index.Search.{Bsearch, FindsNothing, find}
use git4go.Index.Conflicts.{get_conflict, has_conflicts, conflict_iterator, next}
use git4go.Index.Changes.{remove, add, reuc_add}
use git4go.Index.Format.{read_fields, read_entry}
use git4go.Index.Read.{read_buffer, open_index, modified}
use git4go.Index.Flags.{stage-set_stage}
use git4go.Index.Sorted.{AreInOrder, sort_entries_if_needed-AreInOrder}
use git4go.Index.Lookup.{find_no_reuc}
use git4go.Index.Iteration.{conflict_of, AtStage0, InConflict, next-conflict_of}
use git4go.Index.EntryFormat.{encode_entry, read_entry-encode_entry}
use git4go.Index.LongPath.{read_entry_long_path}
use git4go.Index.Checked.{IsChecked, read_buffer-IsChecked}
use git4go.Index.Fresh.{add-open_index}
use mathlib.Core.List.{Perm}

abbrev some_id : Oid
some_id = replicate 20 0x5a

-- An entry of a path at a stage.
abbrev entry_at : List ℕ → (s : ℕ) → IndexEntry
entry_at path s = record {
  ctime = record { seconds = 7; nanoseconds = 5 };
  mtime = record { seconds = 8; nanoseconds = 6 };
  mode = 0x81a4;
  uid = 1000;
  gid = 1000;
  size = 3;
  id = some some_id;
  path = path;
  flags = s * 4096 + length path;
  flags_extended = 0;
}

abbrev a_entry : IndexEntry
a_entry = entry_at (codes "a") 0

abbrev ours : IndexEntry
ours = entry_at (codes "b.txt") 2

abbrev theirs : IndexEntry
theirs = entry_at (codes "b.txt") 3

abbrev c_entry : IndexEntry
c_entry = entry_at (codes "c") 0

abbrev of_entries : List IndexEntry → Index
of_entries entries = record {
  repo = none;
  file_path = codes "index";
  stamp = 0;
  entries = entries;
  entries_sorted = false;
  deleted = [];
  readers = 0;
  on_disk = true;
  ignore_case = false;
  distrust_filemode = false;
  no_symlinks = false;
  tree = none;
  names = [];
  reuc = [];
  reuc_sorted = false;
}

abbrev four : Index
four = of_entries (a_entry ∷ ours ∷ theirs ∷ c_entry ∷ [])

-- A search from the last element to the first.
scan : (ℕ → Outcome GitError ℤ) → ℕ → Outcome GitError (Option ℕ)
scan compare_at zero = ok none
scan compare_at (suc n) =
    let rest = scan compare_at n in
    do result ← compare_at n; elim result [ pos zero ↦ ok (some n) | _ ↦ rest ]

abbrev by_scan : Bsearch
by_scan = record {
  search = λ n compare_at. scan compare_at n;
  smaller = negsuc 0;
  equal = pos 0;
  bigger = pos 1;
}

by_scan-FindsNothing : FindsNothing by_scan
unfolding scan
by_scan-FindsNothing compare_at = refl

-- A file without entries, under a hash that is always the same.
abbrev sevens : List ℕ → List ℕ
sevens buffer = replicate 20 7

abbrev empty_file : Slice
empty_file = record {
  elems = codes "DIRC" ++ (0 ∷ 0 ∷ 0 ∷ 2 ∷ 0 ∷ 0 ∷ 0 ∷ 0 ∷ replicate 20 7);
  spare = [];
}

-- An entry whose flags say that its path has 4095 bytes at least.
abbrev long_file : Slice
long_file = record { elems = replicate 60 0 ++ (0x0f ∷ 0xff ∷ replicate 40 97); spare = [] }

abbrev long_entry : IndexEntry
long_entry = record {
  ctime = zero_time;
  mtime = zero_time;
  mode = 0;
  uid = 0;
  gid = 0;
  size = 0;
  id = some (replicate 20 0);
  path = [];
  flags = 0xfff;
  flags_extended = 0;
}

-- Tests.
find_run : find by_scan four (codes "c") ≡ ok none
unfolding find scan
find_run = refl

conflict_run : (next (conflict_iterator four)).0.cursor ≡ 3
unfolding next conflict_iterator
conflict_run = refl

reuc_run : (reuc_add (record { mode = []; oid = []; path = codes "c" }) four).1 ≡ panic
unfolding reuc_add
reuc_run = refl

has_conflicts_run : has_conflicts four ≡ false
unfolding has_conflicts
has_conflicts_run = refl

empty_run : (read_buffer sevens 1 empty_file 9 (of_entries [])).1 ≡ ok tt
unfolding read_buffer continue
empty_run = refl

long_fields : read_fields long_file 0 ≡ ok long_entry
unfolding read_fields ntohl_from_bytes ntohs_from_bytes slice_range new_oid_from_bytes
long_fields = refl

-- Witnesses.
stage-set_stage_example :
    (stage (set_stage theirs 6) ≡ 6 % 4)
    × ((set_stage theirs 6).flags % 2 ^ 12 ≡ theirs.flags % 2 ^ 12)
    × ((set_stage theirs 6).flags / 2 ^ 14 ≡ theirs.flags / 2 ^ 14)
stage-set_stage_example = stage-set_stage theirs 6 (omega arith)

sort_entries_if_needed-AreInOrder_example :
    AreInOrder true (sort_entries_if_needed four true).entries
    × Perm (sort_entries_if_needed four true).entries four.entries
    × ((sort_entries_if_needed four true).entries_sorted ≡ false)
sort_entries_if_needed-AreInOrder_example = sort_entries_if_needed-AreInOrder four true refl

find_no_reuc_example :
    (find by_scan four (codes "c") ≡ ok none)
    × (get_conflict by_scan four (codes "c") ≡ err (git_error not_found))
    × ((remove by_scan (codes "c") 0 four).1 ≡ err (git_error not_found))
find_no_reuc_example = find_no_reuc by_scan four (codes "c") 0 by_scan-FindsNothing refl refl

ours-InConflict : InConflict ours
unfolding is_conflict
ours-InConflict = refl

theirs-InConflict : InConflict theirs
unfolding is_conflict
theirs-InConflict = refl

a_entry-AtStage0 : AtStage0 a_entry
unfolding is_conflict
a_entry-AtStage0 = refl

named : bytes_equal (codes "b.txt") [] ≡ false
unfolding bytes_equal
named = refl

another : bytes_equal (codes "c") (codes "b.txt") ≡ false
unfolding bytes_equal
another = refl

next-conflict_of_example : next (conflict_iterator four) ≡ (
  record (conflict_iterator four) { cursor = 0 + 1 + 2 },
  ok (conflict_of (ours ∷ theirs ∷ [])),
)
unfolding conflict_iterator
next-conflict_of_example =
    next-conflict_of (record { index = four; cursor = 0 }) [] (a_entry ∷ []) (theirs ∷ [])
      (c_entry ∷ []) ours (codes "b.txt") refl refl (a_entry-AtStage0, tt) named (refl, (refl, tt))
      (ours-InConflict, (theirs-InConflict, tt)) another

read_entry-encode_entry_example :
    read_entry 0
      (record {
        elems = codes "DIRC" ++ (encode_entry 1 2 some_id a_entry ++ replicate 20 7);
        spare = [];
      })
      4
    ≡ ok (4 + length (encode_entry 1 2 some_id a_entry), some a_entry)
read_entry-encode_entry_example =
    read_entry-encode_entry 0 1 2 some_id a_entry (codes "DIRC") (replicate 20 7) []
      (record {
        id_set = refl;
        id_whole = refl;
        ctime_word = omega arith;
        ctime_nano = omega arith;
        mtime_word = omega arith;
        mtime_nano = omega arith;
        mode_word = omega arith;
        uid_word = omega arith;
        gid_word = omega arith;
        size_word = omega arith;
        flags_word = omega arith;
        path_short = omega arith;
        path_length = refl;
        not_extended = refl;
        no_more_flags = refl;
      })
      (omega arith)

read_entry_long_path_example : read_entry 3 long_file 0 ≡ stuck
read_entry_long_path_example =
    read_entry_long_path 3 long_file 0 97 long_entry (omega arith) long_fields refl refl refl
      (λ h. absurd (omega arith))

read_buffer-IsChecked_example :
    IsChecked sevens empty_file.elems
    × ((read_buffer sevens 1 empty_file 9 (of_entries [])).0.stamp ≡ 9)
    × ((read_buffer sevens 1 empty_file 9 (of_entries [])).0.entries_sorted ≡ true)
read_buffer-IsChecked_example =
    read_buffer-IsChecked sevens 1 empty_file 9 (of_entries []) empty_run

a_entry_mode : valid_filemode a_entry.mode ≡ true
unfolding valid_filemode
a_entry_mode = refl

add-open_index_example :
    ((open_index sevens 1 (modified 9) (ok empty_file) (codes "index")).0.tree ≡ none)
    × ((add a_entry (open_index sevens 1 (modified 9) (ok empty_file) (codes "index")).0).1 ≡ panic)
    × ((add a_entry (open_index sevens 1 (modified 9) (ok empty_file) (codes "index")).0).0.entries
        ≡ (open_index sevens 1 (modified 9) (ok empty_file) (codes "index")).0.entries
          ++ (a_entry ∷ []))
add-open_index_example =
    add-open_index sevens 1 (modified 9) (ok empty_file) (codes "index") a_entry a_entry_mode

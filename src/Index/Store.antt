-- ===== src/Index/Store.antt =====
-- The state of an index and the methods that set it up: NewIndex, SetIndex, Clear, the capabilities.
use git4go.Common.{
  ℕ, zero, suc, ◌%◌, ◌^◌, bit_and, bit_or, Bool, false, not, Option, none, List, [], ◌==◌,
  if◌then◌else◌, length, get_elem?, Outcome, ◌>>=◌, ok, err, codes, GitError, or_error, message, ℤ,
  pos, negsuc,
}
use git4go.Common.Sorting.{sort_by}
use git4go.TreeCache.{TreeCache}
use git4go.Index.Entry.{IndexEntry, IndexNameEntry, IndexReucEntry}
use git4go.Index.Order.{entry_less, entry_less_folded, reuc_less, reuc_less_folded}

-- LookupBooleanWithDefaultValue of a repository's configuration, its error ignored.
abbrev pub Config : Type 0
Config = List ℕ → Bool

-- The repository is its configuration, or nothing where the pointer is nil.
pub record Index : Type 0 where
  pub repo : Option Config
  pub file_path : List ℕ
  pub stamp : ℕ
  pub entries : List IndexEntry
  pub entries_sorted : Bool
  pub deleted : List IndexEntry
  pub readers : ℕ
  pub on_disk : Bool
  pub ignore_case : Bool
  pub distrust_filemode : Bool
  pub no_symlinks : Bool
  pub tree : Option TreeCache
  pub names : List IndexNameEntry
  pub reuc : List IndexReucEntry
  pub reuc_sorted : Bool

-- The new index of OpenIndex, before it is read.
unfoldable pub empty_index : (path : List ℕ) → Index
empty_index path = record {
  repo = none;
  file_path = path;
  stamp = 0;
  entries = [];
  entries_sorted = false;
  deleted = [];
  readers = 0;
  on_disk = false;
  ignore_case = false;
  distrust_filemode = false;
  no_symlinks = false;
  tree = none;
  names = [];
  reuc = [];
  reuc_sorted = false;
}

unfoldable pub new_index : Index
unfolding empty_index
new_index = empty_index []

unfoldable pub clear : Index → Index
clear v = record v { tree = none; entries = []; names = []; reuc = []; deleted = []; stamp = 0 }

unfoldable pub owner : Index → Option Config
owner v = v.repo

unfoldable pub entry_count : Index → ℕ
entry_count v = length v.entries % 2 ^ 64

-- sortEntriesIfNeeded, which does not record that the entries are now sorted.
unfoldable pub sort_entries_if_needed : Index → (ignore_case : Bool) → Index
unfolding sort_by entry_less entry_less_folded
sort_entries_if_needed v ignore_case = if v.entries_sorted then v else record v {
  entries = sort_by (if ignore_case then entry_less_folded else entry_less) v.entries;
}

unfoldable pub sort_reuc : Index → (ignore_case : Bool) → Index
unfolding sort_by reuc_less reuc_less_folded
sort_reuc v ignore_case = record v {
  reuc = sort_by (if ignore_case then reuc_less_folded else reuc_less) v.reuc;
}

unfoldable pub set_ignore_case : Index → (ignore_case : Bool) → Index
unfolding sort_entries_if_needed sort_reuc
set_ignore_case v ignore_case = sort_reuc (sort_entries_if_needed v ignore_case) ignore_case

-- EntryByIndex, whose index can be negative.
unfoldable pub entry_by_index : Index → ℤ → Index × Outcome GitError IndexEntry
unfolding sort_entries_if_needed
entry_by_index v (negsuc n) = (sort_entries_if_needed v v.ignore_case, err (message "out of index"))
entry_by_index v (pos n) =
    let sorted = sort_entries_if_needed v v.ignore_case in
    (sorted, or_error (get_elem? sorted.entries n) (message "out of index"))

abbrev pub index_cap_ignore_case : ℕ
index_cap_ignore_case = 1

abbrev pub index_cap_no_filemode : ℕ
index_cap_no_filemode = 2

abbrev pub index_cap_no_simlinks : ℕ
index_cap_no_simlinks = 4

-- `caps&cap != 0`, for a flag of one bit: -n - 1 has the bits that n has not.
unfoldable pub has_cap : ℤ → ℕ → Bool
has_cap (pos n) cap = not (bit_and n cap == 0)
has_cap (negsuc n) cap = bit_and n cap == 0

-- The end of SetCaps.
unfoldable pub apply_caps : Index → (ignore_case distrust_filemode no_symlinks : Bool) → Index
unfolding set_ignore_case
apply_caps v ignore_case distrust_filemode no_symlinks =
    set_ignore_case
      (record v {
        ignore_case = ignore_case;
        distrust_filemode = distrust_filemode;
        no_symlinks = no_symlinks;
        entries_sorted = false;
      })
      ignore_case

-- IndexCapFromOwner is -1.
unfoldable pub set_caps : Index → ℤ → Outcome GitError Index
unfolding apply_caps has_cap
set_caps v (negsuc zero) = do
  conf ← or_error v.repo (message "Cannot access repository to set index caps")
  ok (
      apply_caps v (conf (codes "core.ignorecase")) (not (conf (codes "core.filemode")))
        (not (conf (codes "core.symlinks"))))
set_caps v (negsuc (suc n)) = ok (
    apply_caps v (has_cap (negsuc (suc n)) index_cap_ignore_case)
      (has_cap (negsuc (suc n)) index_cap_no_filemode)
      (has_cap (negsuc (suc n)) index_cap_no_simlinks))
set_caps v (pos n) = ok (
    apply_caps v (has_cap (pos n) index_cap_ignore_case) (has_cap (pos n) index_cap_no_filemode)
      (has_cap (pos n) index_cap_no_simlinks))

unfoldable pub caps : Index → ℕ
caps v =
    bit_or
      (bit_or (if v.ignore_case then index_cap_ignore_case else 0)
        (if v.distrust_filemode then index_cap_no_filemode else 0))
      (if v.no_symlinks then index_cap_no_simlinks else 0)

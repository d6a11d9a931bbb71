-- ===== src/Index/Entry.antt =====
-- The entries of index.go with the bit fields of their flags.
use git4go.Common.{
  ℕ, ◌+◌, ◌-◌, ◌*◌, ◌/◌, ◌%◌, ◌^◌, bit_and, bit_or, Bool, not, Option, some, List, ◌==◌,
}
use git4go.Oid.{Oid}

abbrev pub index_entry_name_mask : ℕ
index_entry_name_mask = 0x0fff

abbrev pub index_entry_stage_mask : ℕ
index_entry_stage_mask = 0x3000

abbrev pub index_entry_stage_shift : ℕ
index_entry_stage_shift = 12

abbrev pub index_entry_extended : ℕ
index_entry_extended = 0x4000

abbrev pub stage_ancestor : ℕ
stage_ancestor = 1

abbrev pub stage_ours : ℕ
stage_ours = 2

abbrev pub stage_theirs : ℕ
stage_theirs = 3

-- A time.Time: seconds since 1970, and the nanoseconds of the second.
pub record Time : Type 0 where
  pub seconds : ℕ
  pub nanoseconds : ℕ

-- time.Unix.
unfoldable pub unix : (sec nsec : ℕ) → Time
unix sec nsec = record { seconds = sec + nsec / 10 ^ 9; nanoseconds = nsec % 10 ^ 9 }

abbrev pub zero_time : Time
zero_time = record { seconds = 0; nanoseconds = 0 }

-- The pointer to an id can be nil.
pub record IndexEntry : Type 0 where
  pub ctime : Time
  pub mtime : Time
  pub mode : ℕ
  pub uid : ℕ
  pub gid : ℕ
  pub size : ℕ
  pub id : Option Oid
  pub path : List ℕ
  pub flags : ℕ
  pub flags_extended : ℕ

pub record IndexNameEntry : Type 0 where
  pub ancestor : List ℕ
  pub ours : List ℕ
  pub theirs : List ℕ

-- The arrays of three modes and three ids.
pub record IndexReucEntry : Type 0 where
  pub mode : List ℕ
  pub oid : List (Option Oid)
  pub path : List ℕ

unfoldable pub stage : IndexEntry → ℕ
stage v = bit_and v.flags index_entry_stage_mask / 2 ^ index_entry_stage_shift

-- `^uint16(IndexEntryStageMask)` is 0xcfff.
unfoldable pub set_stage : IndexEntry → ℕ → IndexEntry
set_stage v flag = record v {
  flags =
      bit_or (bit_and v.flags (0xffff - index_entry_stage_mask))
        (bit_and (flag % 2 ^ 16) 3 * 2 ^ index_entry_stage_shift % 2 ^ 16);
}

unfoldable pub is_conflict : IndexEntry → Bool
unfolding stage
is_conflict v = not (stage v == 0)

-- A new entry with a mode, an id and a path, and the zero values of the rest.
unfoldable pub blank_entry : (mode : ℕ) (id : Oid) (path : List ℕ) → IndexEntry
blank_entry mode id path = record {
  ctime = zero_time;
  mtime = zero_time;
  mode = mode;
  uid = 0;
  gid = 0;
  size = 0;
  id = some id;
  path = path;
  flags = 0;
  flags_extended = 0;
}

-- ===== src/Index/EntryFormat.antt =====
-- readEntry of index.go on an entry as git writes it.
use git4go.Common.{
  ℕ, ◌+◌, ◌-◌, ◌*◌, ◌/◌, ◌%◌, ◌^◌, ◌≤◌, ◌<◌, bit_and, bit_or, ◌≡◌, refl, sym, ap, ◌∙◌, true, false,
  some, List, [], ◌++◌, append-nil, append_assoc, arith, ltb, ◌==◌, length, take, drop, replicate,
  length-append, take-append_self, drop-drop, length-replicate, drop-append_add, ok, Slice,
  slice_range, slice_range-ok, GitError,
}
use git4go.Common.Bits.{bit_and-zero}
use git4go.Common.Masks.{bit_field, bit_and_filled, low_three}
use git4go.Oid.{Oid, new_oid_from_bytes}
use git4go.Oid.RoundTrip.{new_oid_from_bytes-append}
use git4go.Util.{ntohl_from_bytes, ntohs_from_bytes}
use git4go.Util.Words.{
  be32, be16, be32_value, ntohl_from_bytes-append, ntohs_from_bytes-append, ntohs_from_bytes-be16,
}
use git4go.Index.Entry.{Time, unix, IndexEntry}
use git4go.Index.Format.{
  path_length_at, extended_at, behind_entry, read_fields, with_path, read_entry,
}

-- The numbers of an entry before its id; the device and the inode are of no use to the library.
abbrev pub encode_numbers : (device inode : ℕ) → IndexEntry → List ℕ
encode_numbers device inode e =
    be32 e.ctime.seconds
    ++ (be32 e.ctime.nanoseconds
        ++ (be32 e.mtime.seconds
            ++ (be32 e.mtime.nanoseconds
                ++ (be32 device
                    ++ (be32 inode
                        ++ (be32 e.mode ++ (be32 e.uid ++ (be32 e.gid ++ be32 e.size))))))))

-- An entry with one to eight bytes 0 behind its path, up to a multiple of eight bytes.
pub encode_entry : (device inode : ℕ) → Oid → IndexEntry → List ℕ
encode_entry device inode oid e =
    encode_numbers device inode e
    ++ (oid ++ (be16 e.flags ++ (e.path ++ replicate (8 - (62 + length e.path) % 8) 0)))

-- An entry that the format holds without the second word of flags: its path is shorter than 4095
-- bytes, and its flags give the length.
pub record IsPlain (oid : Oid) (e : IndexEntry) : Type 0 where
  pub id_set : e.id ≡ some oid
  pub id_whole : length oid ≡ 20
  pub ctime_word : e.ctime.seconds < 2 ^ 32
  pub ctime_nano : e.ctime.nanoseconds < 10 ^ 9
  pub mtime_word : e.mtime.seconds < 2 ^ 32
  pub mtime_nano : e.mtime.nanoseconds < 10 ^ 9
  pub mode_word : e.mode < 2 ^ 32
  pub uid_word : e.uid < 2 ^ 32
  pub gid_word : e.gid < 2 ^ 32
  pub size_word : e.size < 2 ^ 32
  pub flags_word : e.flags < 2 ^ 16
  pub path_short : length e.path < 4095
  pub path_length : e.flags % 2 ^ 12 ≡ length e.path
  pub not_extended : e.flags / 2 ^ 14 % 2 ≡ 0
  pub no_more_flags : e.flags_extended ≡ 0

module _ (device inode : ℕ) (oid : Oid) (e : IndexEntry) (plain : IsPlain oid e)
    (front rest spare : List ℕ) where
  abbrev whole : Slice
  whole = record { elems = front ++ (encode_entry device inode oid e ++ rest); spare = spare }

  -- A number at its place among those before the id.
  read_word :
      (k v : ℕ)
      → v < 2 ^ 32
      → ntohl_from_bytes (encode_entry device inode oid e ++ rest) k
        ≡ ok (
            bit_or
              (bit_or
                (bit_or (v / 2 ^ 24 * 2 ^ 24 % 2 ^ 32) (v / 2 ^ 16 % 256 * 2 ^ 16 % 2 ^ 32))
                (v / 2 ^ 8 % 256 * 2 ^ 8 % 2 ^ 32))
              (v % 256 % 2 ^ 32))
      → ntohl_from_bytes whole.elems (length front + k) ≡ ok v
  read_word k v h at = ntohl_from_bytes-append front _ k ∙ at ∙ ap ok (be32_value v h)

  numbers :
      (ntohl_from_bytes whole.elems (length front + 0) ≡ ok e.ctime.seconds)
      × (ntohl_from_bytes whole.elems (length front + 4) ≡ ok e.ctime.nanoseconds)
      × (ntohl_from_bytes whole.elems (length front + 8) ≡ ok e.mtime.seconds)
      × (ntohl_from_bytes whole.elems (length front + 12) ≡ ok e.mtime.nanoseconds)
      × (ntohl_from_bytes whole.elems (length front + 24) ≡ ok e.mode)
      × (ntohl_from_bytes whole.elems (length front + 28) ≡ ok e.uid)
      × (ntohl_from_bytes whole.elems (length front + 32) ≡ ok e.gid)
      × (ntohl_from_bytes whole.elems (length front + 36) ≡ ok e.size)
  unfolding encode_entry ntohl_from_bytes
  numbers = (
    read_word 0 e.ctime.seconds plain.ctime_word refl,
    read_word 4 e.ctime.nanoseconds (omega (arith, plain.ctime_nano)) refl,
    read_word 8 e.mtime.seconds plain.mtime_word refl,
    read_word 12 e.mtime.nanoseconds (omega (arith, plain.mtime_nano)) refl,
    read_word 24 e.mode plain.mode_word refl,
    read_word 28 e.uid plain.uid_word refl,
    read_word 32 e.gid plain.gid_word refl,
    read_word 36 e.size plain.size_word refl,
  )

  abbrev padding : List ℕ
  padding = replicate (8 - (62 + length e.path) % 8) 0

  encode_entry-length :
      length (encode_entry device inode oid e) ≡ 62 + length e.path + (8 - (62 + length e.path) % 8)
  unfolding encode_entry
  encode_entry-length = omega (
    arith,
    length-append oid (be16 e.flags ++ (e.path ++ padding)),
    length-append e.path padding,
    length-replicate {A = ℕ} (8 - (62 + length e.path) % 8) 0,
    plain.id_whole,
  )

  -- What lies behind the numbers.
  behind_numbers :
      drop 40 (encode_entry device inode oid e ++ rest)
      ≡ oid ++ (be16 e.flags ++ (e.path ++ (padding ++ rest)))
  unfolding encode_entry
  behind_numbers =
      append_assoc oid (be16 e.flags ++ (e.path ++ padding)) rest
      ∙ ap (λ t. oid ++ (be16 e.flags ++ t)) (append_assoc e.path padding rest)

  whole-size :
      length whole.elems ≡ length front + (length (encode_entry device inode oid e) + length rest)
  whole-size =
      length-append front (encode_entry device inode oid e ++ rest)
      ∙ ap (λ (n : ℕ). length front + n) (length-append (encode_entry device inode oid e) rest)

  -- A range of the buffer behind the numbers.
  range_at :
      (k size : ℕ) (bytes : List ℕ)
      → 40 + k + size ≤ length (encode_entry device inode oid e)
      → take size (drop k (oid ++ (be16 e.flags ++ (e.path ++ (padding ++ rest))))) ≡ bytes
      → slice_range {E = GitError} whole (length front + (40 + k)) size ≡ ok bytes
  range_at k size bytes within found =
      slice_range-ok whole (length front + (40 + k)) size (omega (arith, whole-size))
      ∙ ap (λ l. ok (take size l))
          (drop-append_add front _ (40 + k)
            ∙ sym (drop-drop k 40 (encode_entry device inode oid e ++ rest))
            ∙ ap (drop k) behind_numbers)
      ∙ ap ok found

  id_range : slice_range {E = GitError} whole (length front + 40) 20 ≡ ok oid
  id_range = range_at 0 20 oid (omega (arith, encode_entry-length)) (
      ap (λ n. take n (oid ++ (be16 e.flags ++ (e.path ++ (padding ++ rest))))) (sym plain.id_whole)
      ∙ take-append_self oid _)

  behind_id : 22 ≡ length oid + 2
  behind_id = omega (arith, plain.id_whole)

  path_range : slice_range {E = GitError} whole (length front + 62) (length e.path) ≡ ok e.path
  path_range = range_at 22 (length e.path) e.path (omega (arith, encode_entry-length)) (
      ap
        (λ n.
          take (length e.path) (drop n (oid ++ (be16 e.flags ++ (e.path ++ (padding ++ rest))))))
        behind_id
      ∙ ap (take (length e.path))
          (drop-append_add oid (be16 e.flags ++ (e.path ++ (padding ++ rest))) 2)
      ∙ take-append_self e.path (padding ++ rest))

  flags_at : ntohs_from_bytes whole.elems (length front + 60) ≡ ok e.flags
  flags_at =
      ntohs_from_bytes-append front _ 60
      ∙ ap (λ l. ntohs_from_bytes l 60) split
      ∙ ntohs_from_bytes-append (encode_numbers device inode e) _ 20
      ∙ ap (ntohs_from_bytes (oid ++ (be16 e.flags ++ (e.path ++ (padding ++ rest)))))
          (sym plain.id_whole)
      ∙ ntohs_from_bytes-be16 oid _ e.flags plain.flags_word
    where
      split :
          encode_entry device inode oid e ++ rest
          ≡ encode_numbers device inode e
            ++ (oid ++ (be16 e.flags ++ (e.path ++ (padding ++ rest))))
      split = unfold encode_entry in ap (λ t. encode_numbers device inode e ++ t) behind_numbers

  first_word : ntohl_from_bytes whole.elems (length front) ≡ ok e.ctime.seconds
  first_word = ap (ntohl_from_bytes whole.elems) (omega arith) ∙ numbers.0

  id_alone : new_oid_from_bytes {E = GitError} oid [] ≡ ok oid
  id_alone =
      ap (λ l. new_oid_from_bytes l []) (sym (append-nil oid))
      ∙ new_oid_from_bytes-append oid [] [] plain.id_whole

  -- A time in the file's range is as it was.
  unix-time : (t : Time) → t.nanoseconds < 10 ^ 9 → unix t.seconds t.nanoseconds ≡ t
  unfolding unix
  unix-time t h = ground arith

  read_fields_plain : read_fields whole (length front) ≡ ok (record e { path = [] })
  unfolding read_fields
  read_fields_plain =
      simp
        (
          first_word, numbers.1, numbers.2, numbers.3, numbers.4, numbers.5, numbers.6, numbers.7,
          id_range, id_alone, flags_at,
        )
        (simp (unix-time e.ctime plain.ctime_nano, unix-time e.mtime plain.mtime_nano)
          (ground arith))

  within : 20 ≤ length rest → ltb (length whole.elems - 20) (length front + 62) ≡ false
  within h = ground (arith, whole-size, encode_entry-length)

  plain_flags : bit_and e.flags 0x4000 == 0 ≡ true
  plain_flags = ground (arith, bit_field 14 e.flags, plain.not_extended)

  name_length : bit_and e.flags 0xfff ≡ length e.path
  name_length =
      omega (arith, bit_and_filled 12 e.flags 0, bit_and-zero (e.flags / 2 ^ 12), plain.path_length)

  short_name : length e.path == 0xfff ≡ false
  short_name = ground (arith, plain.path_short)

  behind :
      behind_entry (length front) (length front + 62) (length e.path)
      ≡ length front + length (encode_entry device inode oid e)
  unfolding behind_entry
  behind =
      omega (
        arith,
        encode_entry-length,
        low_three (length front + 62 + length e.path + 8 - length front),
      )

  restored : record e { flags_extended = 0 } ≡ e
  restored = ground (arith, plain.no_more_flags)

-- readEntry gives back an entry that is written in the file's format, and the offset behind its
-- padding, wherever the entry stands in a file that has its checksum behind: for entries without the
-- extended flags whose path is shorter than 4095 bytes.
pub read_entry-encode_entry :
    (rounds device inode : ℕ) (oid : Oid) (e : IndexEntry) (front rest spare : List ℕ)
    → IsPlain oid e
    → 20 ≤ length rest
    → read_entry rounds
        (record { elems = front ++ (encode_entry device inode oid e ++ rest); spare = spare })
        (length front)
      ≡ ok (length front + length (encode_entry device inode oid e), some e)
unfolding read_entry extended_at path_length_at with_path
read_entry-encode_entry rounds device inode oid e front rest spare plain enough =
    simp
      (
        within device inode oid e plain front rest spare enough,
        read_fields_plain device inode oid e plain front rest spare,
        plain_flags device inode oid e plain front rest spare,
        name_length device inode oid e plain front rest spare,
      )
      (simp
        (
          short_name device inode oid e plain front rest spare,
          path_range device inode oid e plain front rest spare,
          behind device inode oid e plain front rest spare,
          restored device inode oid e plain front rest spare,
        )
        refl)

-- ===== src/RefDb/Packed.antt =====
-- reloadIfChanged of RefDb.go, which reads the file of packed references.
pub mod Stored
pub mod Line
pub mod RoundTrip
use git4go.Common.{
  ℕ, zero, suc, ◌+◌, ◌-◌, bit_or, Bool, true, false, not, ◌&&◌, ◌||◌, Option, none, some, List, [],
  ◌∷◌, ◌++◌, ltb, ◌==◌, if◌then◌else◌, length, take, drop, get_elem?, Outcome, ok, err, panic,
  stuck, GitError, message, codes, bytes_equal, byte_at, Slice, slice_range,
}
use git4go.Common.Actions.{Action, ◌>>=◌, ◌>>◌, lift, get, modify, fail}
use git4go.Oid.{Oid, new_oid, oid_hex_size}
use git4go.Common.Sorting.{sort_by}
use git4go.Index.Order.{bytes_less}
use git4go.RefDb.{Reference, PackRef, oid_reference}
use git4go.RefDb.Lines.{
  pack_peeling_none, search_end_line, corrupted, read_traits, byte_is, skip_comments, behind_peel,
  cannot_peel, ref_name,
}

abbrev pub pack_ref_has_peel : ℕ
pack_ref_has_peel = 1

abbrev pub pack_ref_cannot_peel : ℕ
pack_ref_cannot_peel = 4

pub record PackRefSortedCache : Type 0 where
  pub items : List PackRef
  pub stamp : ℕ
  pub peeling_mode : ℕ
  pub not_exist : Bool

-- upsert, whose item is changed through the pointer that it returns.
unfoldable pub upsert : List PackRef → (key : List ℕ) → (PackRef → PackRef) → List PackRef
unfolding bytes_equal
upsert [] key change = change (record { oid = none; peel = none; flag = 0; name = key }) ∷ []
upsert (item ∷ items) key change =
    let rest = upsert items key change in
    if bytes_equal item.name key then change item ∷ items else item ∷ rest

unfoldable pub change_item :
    (key : List ℕ) → (PackRef → PackRef) → Action PackRefSortedCache (Unit {0})
unfolding upsert
change_item key change = modify (λ c. record c { items = upsert c.items key change })

-- What stands behind the line of a reference, and the offset behind that.
unfoldable pub read_peel : (buffer : Slice) (scan : ℕ) (name : List ℕ) → Action PackRefSortedCache ℕ
unfolding byte_is slice_range new_oid behind_peel change_item cannot_peel
read_peel buffer scan name =
    if byte_is buffer.elems scan 94
    then (do
      text ← lift (slice_range buffer (scan + 1) oid_hex_size)
      peel ← lift (new_oid text)
      behind ← lift (behind_peel buffer.elems (scan + (oid_hex_size + 1)))
      change_item name
          (λ ref. record ref { peel = some peel; flag = bit_or ref.flag pack_ref_has_peel })
      lift (ok behind))
    else (do
      c ← get
      (if cannot_peel c.peeling_mode name
          then change_item name (λ ref. record ref { flag = bit_or ref.flag pack_ref_cannot_peel })
          else lift (ok tt))
      lift (ok scan))

-- A round of the loop over the references.
unfoldable pub read_ref : (buffer : Slice) (scan : ℕ) → Action PackRefSortedCache ℕ
unfolding slice_range new_oid search_end_line ref_name change_item read_peel
read_ref buffer scan = do
  text ← lift (slice_range buffer scan oid_hex_size)
  oid ← lift (new_oid text)
  space ← lift (byte_at buffer.elems (scan + oid_hex_size))
  let start = scan + oid_hex_size + 1
  let eol = search_end_line buffer.elems start
  let name = ref_name buffer.elems start eol
  if not (space == 32) || eol == 0 then fail corrupted else (do
    change_item name (λ ref. record ref { oid = some oid })
    read_peel buffer (eol + 1) name)

unfoldable pub read_refs :
    (rounds : ℕ) (buffer : Slice) (scan : ℕ) → Action PackRefSortedCache (Unit {0})
unfolding read_ref
read_refs zero buffer scan = lift stuck
read_refs (suc rounds) buffer scan =
    if not (ltb scan (length buffer.elems))
    then lift (ok tt)
    else (do behind ← read_ref buffer scan; read_refs rounds buffer behind)

-- The whole file. Each round takes a byte at least.
unfoldable pub read_packed : Slice → Action PackRefSortedCache (Unit {0})
unfolding read_traits skip_comments read_refs
read_packed buffer = do
  modify (λ c. record c { peeling_mode = pack_peeling_none })
  (behind, mode) ← lift (read_traits buffer)
  modify (λ c. record c { peeling_mode = mode })
  scan ← lift (skip_comments (length buffer.elems + 1) buffer.elems behind)
  read_refs (length buffer.elems + 1) buffer scan

-- reloadIfChanged on the time of the file, none where os.Stat fails, and on the outcome of ReadFile.
unfoldable pub reload_if_changed :
    (mod_time : Option ℕ) (read_file : Outcome GitError Slice)
    → Action PackRefSortedCache (Unit {0})
unfolding read_packed
reload_if_changed none read_file = modify (λ c. record c { not_exist = true })
reload_if_changed (some time) read_file = do
  modify (λ c. record c { not_exist = false })
  c ← get
  if not (ltb c.stamp time)
      then lift (ok tt)
      else (do modify (λ v. record v { stamp = time }); read_buffer read_file)
  where
    read_buffer : Outcome GitError Slice → Action PackRefSortedCache (Unit {0})
    read_buffer (ok buffer) = read_packed buffer
    read_buffer (err e) = do modify (λ v. record v { items = [] }); fail e
    read_buffer panic = lift panic
    read_buffer stuck = lift stuck

-- remove, of the first item with the name.
unfoldable pub remove : List PackRef → (key : List ℕ) → List PackRef
unfolding bytes_equal
remove [] key = []
remove (item ∷ items) key =
    let rest = remove items key in if bytes_equal item.name key then items else item ∷ rest

-- sort, with Less of packRefs.
unfoldable pub ref_less : PackRef → PackRef → Bool
unfolding bytes_less
ref_less a b = bytes_less a.name b.name

unfoldable pub sort : List PackRef → List PackRef
unfolding sort_by ref_less
sort items = sort_by ref_less items

unfoldable pub all_references : List PackRef → List Reference
unfolding oid_reference
all_references [] = []
all_references (item ∷ items) = oid_reference item.oid item.name ∷ all_references items

-- GetPackedReferences.
unfoldable pub get_packed_references :
    (mod_time : Option ℕ) (read_file : Outcome GitError Slice)
    → Action PackRefSortedCache (List Reference)
unfolding reload_if_changed all_references
get_packed_references mod_time read_file = do
  reload_if_changed mod_time read_file
  c ← get
  lift (ok (if c.not_exist then [] else all_references c.items))

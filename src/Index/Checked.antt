-- ===== src/Index/Checked.antt =====
-- What a successful Read of index.go has checked.
use git4go.Common.{
  ℕ, ◌-◌, ◌≤◌, ◌≡◌, refl, sym, ap, ◌∙◌, ◌⊎◌, inl, inr, Bool, true, false, not, ◌&&◌, List, [],
  arith, ltb, ◌==◌, if◌then◌else◌, ==_iff, not_ltb→le, length, take, drop, Fails, err-Fails, ok,
  Slice, GitError, bytes_equal_sound,
}
use git4go.Common.Actions.{Action, lift, continue-ok, continue-eq-ok}
use git4go.Oid.{Oid, new_oid_from_bytes, equal}
use git4go.Util.{ntohl_from_bytes}
use git4go.Index.Store.{Index}
use git4go.Index.Read.{
  index_header_sig, index_version_number, index_version_number_ext, read_body, finish_read,
  calc_hash, check_checksum, read_header, read_buffer,
}

-- What the header and the end of a file must be.
pub record IsChecked (sha1 : List ℕ → List ℕ) (buffer : List ℕ) : Type 0 where
  pub size : 32 ≤ length buffer
  pub checksum :
      new_oid_from_bytes {E = GitError} (drop (length buffer - 20) buffer) []
      ≡ ok (calc_hash sha1 (take (length buffer - 20) buffer))
  pub signature : ntohl_from_bytes buffer 0 ≡ ok 0x44495243
  pub version : (ntohl_from_bytes buffer 4 ≡ ok 2) ⊎ (ntohl_from_bytes buffer 4 ≡ ok 3)

-- A branch that succeeds is not the failing one.
else_ok :
    {A : Type 0} (b : Bool) (x y : Action Index A) (v : Index) {a : A}
    → Fails (x v).1
    → ((if b then x else y) v).1 ≡ ok a
    → (b ≡ false) × ((y v).1 ≡ ok a)
else_ok true x y v {a = a} never h = absurd (never a h)
else_ok false x y v never h = (refl, h)

then_ok :
    {A : Type 0} (b : Bool) (x y : Action Index A) (v : Index) {a : A}
    → Fails (y v).1
    → ((if b then x else y) v).1 ≡ ok a
    → (b ≡ true) × ((x v).1 ≡ ok a)
then_ok false x y v {a = a} never h = absurd (never a h)
then_ok true x y v never h = (refl, h)

not-false : (b : Bool) → not b ≡ false → b ≡ true
not-false true h = refl
not-false false h = cc

neither : (a b : Bool) → not a && not b ≡ false → (a ≡ true) ⊎ (b ≡ true)
neither true b h = inl refl
neither false true h = inr refl
neither false false h = cc

check_checksum-eq-ok :
    (sha1 : List ℕ → List ℕ) (buffer : List ℕ) (v : Index) {a : Unit {0}}
    → (check_checksum sha1 buffer v).1 ≡ ok a
    → new_oid_from_bytes {E = GitError} (drop (length buffer - 20) buffer) []
      ≡ ok (calc_hash sha1 (take (length buffer - 20) buffer))
unfolding check_checksum
check_checksum-eq-ok sha1 buffer v h =
    let (expected, first, rest) = continue-eq-ok _ _ h in
    let (same, done) =
      then_ok (equal (calc_hash sha1 (take (length buffer - 20) buffer)) expected) _ _ _
        (err-Fails _) rest in
    first ∙ ap ok (sym (equal-sound _ _ same))
  where
    equal-sound : (x y : Oid) → equal x y ≡ true → x ≡ y
    equal-sound x y h = unfold equal in bytes_equal_sound x y h

read_header-eq-ok :
    (sha1 : List ℕ → List ℕ) (buffer : List ℕ) (v : Index) {n : ℕ}
    → (read_header sha1 buffer v).1 ≡ ok n
    → IsChecked sha1 buffer × (ntohl_from_bytes buffer 8 ≡ ok n)
unfolding read_header
read_header-eq-ok sha1 buffer v h =
    let (long, rest) = else_ok (ltb (length buffer) 32) _ _ v (err-Fails _) h in
    let (a, checked, rest) = continue-eq-ok (check_checksum sha1 buffer v) _ rest in
    let (signature, first, rest) =
      continue-eq-ok (lift (ntohl_from_bytes buffer 0) (check_checksum sha1 buffer v).0) _ rest in
    let (right, rest) = else_ok (not (signature == index_header_sig)) _ _ _ (err-Fails _) rest in
    let (version, second, rest) = continue-eq-ok (lift (ntohl_from_bytes buffer 4) _) _ rest in
    let (known, rest) =
      else_ok (not (version == index_version_number) && not (version == index_version_number_ext)) _
        _ _ (err-Fails _) rest in
    (
      record {
        size = not_ltb→le _ _ long;
        checksum = check_checksum-eq-ok sha1 buffer v checked;
        signature = first ∙ ap ok ((==_iff _ _).0 (not-false _ right));
        version = which second (neither _ _ known);
      },
      rest,
    )
  where
    which :
        {version : ℕ}
        → ntohl_from_bytes buffer 4 ≡ ok version
        → (version == 2 ≡ true) ⊎ (version == 3 ≡ true)
        → (ntohl_from_bytes buffer 4 ≡ ok 2) ⊎ (ntohl_from_bytes buffer 4 ≡ ok 3)
    which second (inl e) = inl (second ∙ ap ok ((==_iff _ _).0 e))
    which second (inr e) = inr (second ∙ ap ok ((==_iff _ _).0 e))

finish_read-marks :
    (stamp : ℕ) (v : Index)
    → ((finish_read stamp v).stamp ≡ stamp) × ((finish_read stamp v).entries_sorted ≡ true)
unfolding finish_read
finish_read-marks stamp v = (ground arith, ground arith)

-- Read of a file's bytes succeeds only where they have the header and the footer, the last 20 bytes are
-- the SHA-1 of those before, the signature is DIRC and the version 2 or 3; then the index has the
-- file's time stamp and counts as sorted.
pub read_buffer-IsChecked :
    (sha1 : List ℕ → List ℕ) (rounds : ℕ) (buffer : Slice) (stamp : ℕ) (v : Index)
    → (read_buffer sha1 rounds buffer stamp v).1 ≡ ok tt
    → IsChecked sha1 buffer.elems
      × ((read_buffer sha1 rounds buffer stamp v).0.stamp ≡ stamp)
      × ((read_buffer sha1 rounds buffer stamp v).0.entries_sorted ≡ true)
unfolding read_buffer
read_buffer-IsChecked sha1 rounds buffer stamp v h =
    let (n, header, rest) = continue-eq-ok (read_header sha1 buffer.elems v) _ h in
    let w = (read_header sha1 buffer.elems v).0 in
    let (a, body, rest) = continue-eq-ok (read_body rounds buffer n w) _ rest in
    let end : read_buffer sha1 rounds buffer stamp v
        ≡ (finish_read stamp (read_body rounds buffer n w).0, ok tt) =
      continue-ok (read_header sha1 buffer.elems v) _ header
      ∙ continue-ok (read_body rounds buffer n w) _ body in
    (
      (read_header-eq-ok sha1 buffer.elems v header).0,
      ap (λ r. r.0.stamp) end ∙ (finish_read-marks stamp (read_body rounds buffer n w).0).0,
      ap (λ r. r.0.entries_sorted) end
          ∙ (finish_read-marks stamp (read_body rounds buffer n w).0).1,
    )

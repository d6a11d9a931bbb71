-- ===== src/RefDb/Packed/RoundTrip.antt =====
-- A file of packed references, and what RefDb.go finds in the cache after it has read the file.
use git4go.Common.{
  ℕ, zero, suc, ◌+◌, ◌/◌, ◌<◌, ◌≤◌, ◌≡◌, ◌⊎◌, inl, inr, ap₂, refl, sym, subst, ◌∙◌, false, none,
  some, List, [], ◌∷◌, ◌++◌, append_assoc, arith, lt→ltb, le→not_ltb, ◌==◌, length, length-append,
  All, Outcome, ok, err, GitError, message,
}
use git4go.Common.Actions.{continue}
use git4go.Oid.{Oid, IsOid, string, encode_to_string, hex_digit}
use git4go.Oid.RoundTrip.{new_oid-string}
use git4go.Oid.Line.{length-string}
use git4go.RefDb.{Reference, cached, oid_reference, lookup}
use git4go.RefDb.Lines.{pack_peeling_none, byte_is, read_traits, skip_comments}
use git4go.RefDb.Packed.{PackRefSortedCache, read_refs, upsert, read_packed, reload_if_changed}
use git4go.RefDb.Packed.Stored.{
  with_oid, record_all, last_oid, record_all-Stores, packed_reference-Stores, Stores,
}
use git4go.RefDb.Packed.Line.{IsRefName, line_buffer, end_of_line, read_ref-line}

-- The file of references that are not peeled, without a header: a line for each.
unfoldable pub encode_refs : List (Oid × List ℕ) → List ℕ
unfolding line_buffer
encode_refs [] = []
encode_refs (ref ∷ refs) = line_buffer [] (string ref.0) ref.1 (encode_refs refs)

abbrev pub AreRefs : List (Oid × List ℕ) → Type 0
AreRefs refs = All (λ (ref : Oid × List ℕ). IsOid ref.0 × IsRefName ref.1) refs

-- The first digit of an id is neither the sign of a comment nor that of a peeled id.
byte_is-encode_refs :
    (refs : List (Oid × List ℕ)) (c : ℕ)
    → AreRefs refs
    → (c ≡ 35) ⊎ (c ≡ 94)
    → byte_is (encode_refs refs) 0 c ≡ false
unfolding byte_is encode_refs string encode_to_string
byte_is-encode_refs [] c h k = refl
byte_is-encode_refs (([], name) ∷ refs) c h k = absurd (omega (arith, h.0.0.0))
byte_is-encode_refs (((b ∷ oid), name) ∷ refs) c h k =
    no_digit (b / 16) (omega (arith, h.0.0.1.0)) c k
  where
    no_digit : (d : ℕ) → d < 16 → (e : ℕ) → (e ≡ 35) ⊎ (e ≡ 94) → (hex_digit d == e) ≡ false
    no_digit d below e (inl which) = ground (arith, which)
    no_digit d below e (inr which) = ground (arith, which)

read_refs-encode_refs :
    (rounds : ℕ) (refs : List (Oid × List ℕ)) (front spare : List ℕ) (c : PackRefSortedCache)
    → length refs < rounds
    → AreRefs refs
    → c.peeling_mode ≡ pack_peeling_none
    → read_refs rounds
        (record { elems = front ++ encode_refs refs; spare = spare })
        (length front)
        c
      ≡ (record c { items = record_all c.items refs }, ok tt)
unfolding read_refs encode_refs record_all continue end_of_line
read_refs-encode_refs zero refs front spare c h k mode = absurd (omega (arith, h))
read_refs-encode_refs (suc rounds) [] front spare c h k mode =
    rw (le→not_ltb (length front) (length (front ++ [])) (omega (arith, length-append front [])))
      refl
read_refs-encode_refs (suc rounds) (ref ∷ refs) front spare c h k mode =
    rw
      (
        lt→ltb (length front) (length (front ++ encode_refs (ref ∷ refs))) (
            omega (
              arith,
              length-append front (encode_refs (ref ∷ refs)),
              length-append (string ref.0) (32 ∷ (ref.1 ++ (10 ∷ encode_refs refs))),
            )),
        read_ref-line front (string ref.0) ref.1 (encode_refs refs) (length-string ref.0 k.0.0)
            k.0.1 ref.0 spare c (new_oid-string ref.0 k.0.0)
            (byte_is-encode_refs refs 94 k.1 (inr refl)) mode,
      )
      (ap₂
          (λ elems at.
            read_refs rounds (record { elems = elems; spare = spare }) at
              (record c { items = upsert c.items ref.1 (with_oid ref.0) }))
          same_bytes same_offset
        ∙ read_refs-encode_refs rounds refs (front ++ line) spare
            (record c { items = upsert c.items ref.1 (with_oid ref.0) }) (omega (arith, h)) k.1
            mode)
  where
    line : List ℕ
    line = string ref.0 ++ (32 ∷ (ref.1 ++ (10 ∷ [])))

    same_bytes : front ++ encode_refs (ref ∷ refs) ≡ front ++ line ++ encode_refs refs
    same_bytes = simp append_assoc

    same_offset : end_of_line front ref.1 + 1 ≡ length (front ++ line)
    same_offset = omega (
      arith,
      length-append front line,
      length-append (string ref.0) (32 ∷ (ref.1 ++ (10 ∷ []))),
      length-append ref.1 (10 ∷ []),
      length-string ref.0 k.0.0,
    )

read_traits_plain :
    (bytes spare : List ℕ)
    → 0 < length bytes
    → byte_is bytes 0 35 ≡ false
    → read_traits (record { elems = bytes; spare = spare }) ≡ ok (0, pack_peeling_none)
unfolding read_traits byte_is
read_traits_plain [] spare h plain = absurd (omega (arith, h))
read_traits_plain (b ∷ bytes) spare h plain = rw plain refl

skip_comments_plain :
    (rounds : ℕ) (bytes : List ℕ)
    → 0 < rounds
    → byte_is bytes 0 35 ≡ false
    → skip_comments rounds bytes 0 ≡ ok 0
unfolding skip_comments
skip_comments_plain zero bytes h plain = absurd (omega (arith, h))
skip_comments_plain (suc rounds) bytes h plain = rw plain refl

length-encode_refs :
    (refs : List (Oid × List ℕ)) → AreRefs refs → length refs ≤ length (encode_refs refs)
unfolding encode_refs line_buffer
length-encode_refs [] h = omega arith
length-encode_refs (ref ∷ refs) h = omega (
  arith,
  length-append (string ref.0) (32 ∷ (ref.1 ++ (10 ∷ encode_refs refs))),
  length-append ref.1 (10 ∷ encode_refs refs),
  length-encode_refs refs h.1,
)

read_packed-encode_refs :
    (refs : List (Oid × List ℕ)) (spare : List ℕ) (c : PackRefSortedCache)
    → AreRefs refs
    → 0 < length refs
    → read_packed (record { elems = encode_refs refs; spare = spare }) c
      ≡ (record c { items = record_all c.items refs; peeling_mode = pack_peeling_none }, ok tt)
unfolding read_packed continue
read_packed-encode_refs refs spare c h some_refs =
    rw
      (
        read_traits_plain (encode_refs refs) spare
            (omega (arith, some_refs, length-encode_refs refs h)) plain,
        skip_comments_plain (length (encode_refs refs) + 1) (encode_refs refs) (omega arith) plain,
      )
      (read_refs-encode_refs (length (encode_refs refs) + 1) refs [] spare
        (record c { peeling_mode = pack_peeling_none }) (omega (arith, length-encode_refs refs h)) h
        refl)
  where
    plain : byte_is (encode_refs refs) 0 35 ≡ false
    plain = byte_is-encode_refs refs 35 h (inl refl)

-- Where a file of packed references is newer than the empty cache and has a line for each of some
-- references to 20-byte ids, none of them peeled and no name with a line's end in it, reloading succeeds,
-- and Lookup of a name without a loose file then gives the id of the last line with that name, or the
-- error "not found" where there is none.
pub reload_if_changed-lookup :
    (refs : List (Oid × List ℕ)) (spare : List ℕ) (c : PackRefSortedCache) (time : ℕ) (key : List ℕ)
    → AreRefs refs
    → 0 < length refs
    → c.items ≡ []
    → c.stamp < time
    → let after =
        reload_if_changed (some time) (ok (record { elems = encode_refs refs; spare = spare })) c in
      (after.1 ≡ ok tt)
      × (lookup (λ _. none) after.0.items key
          ≡ elim (last_oid refs key none) as (λ _. Outcome GitError Reference) [
            | none ↦ err (message "not found")
            | some oid ↦ ok (oid_reference (some oid) key)
          ])
unfolding reload_if_changed lookup continue Stores
reload_if_changed-lookup refs spare c time key h some_refs empty newer =
    rw
      (
        lt→ltb c.stamp time newer,
        read_packed-encode_refs refs spare (record c { not_exist = false; stamp = time }) h
            some_refs,
      )
      (
        refl,
        packed_reference-Stores (cached (record_all c.items refs) key) (last_oid refs key none) key
            (record_all-Stores refs c.items key none
              (subst (λ l. Stores (cached l key) none) (sym empty) nothing)),
      )
  where
    nothing : Stores (cached [] key) none
    nothing = tt

-- ===== src/Pack/Samples.antt =====
-- A pack of two entries: tests and witnesses for pack.go.
use git4go.Common.{
  ℕ, ◌≡◌, ◌≢◌, refl, ap, none, List, [], ◌∷◌, inl, arith, dec_lt, ◌==◌, if◌then◌else◌, Outcome, ok,
  err, stuck, GitError, message, Slice, codes, ok-injective,
}
use git4go.Delta.Create.{create_delta}
use git4go.Pack.Header.{PackChainElem, unpack_header}
use git4go.Pack.Base.{object_ofs_delta, object_ref_delta, get_delta_base}
use git4go.Pack.Base.RoundTrip.{get_delta_base-encode_distance}
use git4go.Pack.Base.Distance.{encode_distance}
use git4go.Pack.Chain.{
  Pack, is_delta, is_object, unpack_compressed, delta_base, dependency_chain, unpack,
}
use git4go.Pack.Chain.Unpacked.{Holds, unpack-Holds, unpack-create_delta}
use git4go.Pack.Chain.Ends.{dependency_chain-ne-stuck}

abbrev source_lines : List ℕ
source_lines = codes "text file line 1\ntext file line 2\na"

abbrev target_lines : List ℕ
target_lines = codes "text file line 2\ntext file line 1\nab"

abbrev lines_delta : List ℕ
lines_delta = 0x23 ∷ 0x24 ∷ 0x91 ∷ 0x11 ∷ 0x11 ∷ 0x90 ∷ 0x11 ∷ 0x02 ∷ 0x61 ∷ 0x62 ∷ []

abbrev full : List ℕ → Slice
full bytes = record { elems = bytes; spare = [] }

-- The window at an offset: a blob at 12, a delta against it at 100, and what lies behind their heads.
unfoldable windows : ℕ → ℕ → Outcome GitError (List ℕ)
windows offset size =
    if offset == 12
    then ok (0xb3 ∷ 2 ∷ [])
    else if offset == 14
    then ok (1 ∷ [])
    else if offset == 100
    then ok (0x6a ∷ [])
    else if offset == 101
    then ok (88 ∷ 2 ∷ [])
    else if offset == 102
    then ok (2 ∷ [])
    else err (message "EOF")

unfoldable contents : List ℕ → Outcome GitError Slice
contents [] = err (message "zlib")
contents (b ∷ bytes) = if b == 1 then ok (full source_lines) else ok (full lines_delta)

abbrev two_entries : Pack
two_entries = record {
  mwf_open = windows;
  size = 1000;
  find_offset = λ oid. err (message "not found");
  inflate = contents;
  max_alloc = 1000;
}

base_head :
    unpack_header windows 12 ≡ ok (record { base_key = 0; obj_type = 3; offset = 14; size = 35 })
unfolding unpack_header windows
base_head = refl

delta_head :
    unpack_header windows 100 ≡ ok (record { base_key = 0; obj_type = 6; offset = 101; size = 10 })
unfolding unpack_header windows
delta_head = refl

delta_based :
    delta_base two_entries 101 6 100 ≡ ok (record { base_offset = 12; cur_pos = 102; error = none })
unfolding delta_base windows
delta_based = refl

base_read : unpack_compressed two_entries 14 ≡ ok (full source_lines)
unfolding unpack_compressed windows contents
base_read = refl

delta_read : unpack_compressed two_entries 102 ≡ ok (full lines_delta)
unfolding unpack_compressed windows contents
delta_read = refl

create_lines : create_delta source_lines (full target_lines) 0 ≡ ok lines_delta
unfolding create_delta
create_lines = refl

base-Holds : Holds two_entries 0 12 3 (full source_lines)
unfolding is_object
base-Holds = Holds.whole 12 _ (full source_lines) base_head refl base_read

-- Witnesses.
get_delta_base-encode_distance_example :
    get_delta_base
      (λ offset. ok (encode_distance 1000 (7 ∷ [])))
      (λ oid. err (message "not found"))
      40
      object_ofs_delta
      5000
    ≡ ok (record { base_offset = 4000; cur_pos = 42; error = none })
unfolding encode_distance dec_lt
get_delta_base-encode_distance_example =
    get_delta_base-encode_distance (λ offset. ok (encode_distance 1000 (7 ∷ [])))
      (λ oid. err (message "not found")) 40 5000 1000 (7 ∷ []) (omega arith) (omega arith)
      (omega arith) refl

unpack-Holds_example :
    unpack two_entries 5 12 ≡ ok (record { obj_type = 3; content = full source_lines })
unpack-Holds_example =
    unpack-Holds two_entries 5 0 12 3 (full source_lines) (omega arith) base-Holds

unpack-create_delta_example :
    unpack two_entries 2 100 ≡ ok (record { obj_type = 3; content = full target_lines })
unfolding is_delta
unpack-create_delta_example =
    unpack-create_delta two_entries 0 100 3 12 102 0 _ (full source_lines) (full target_lines) []
      lines_delta delta_head refl delta_based base-Holds delta_read create_lines
      (omega arith, omega arith, inl (omega arith)) (omega arith)

-- A pack in which each entry is a delta against the one 106 bytes before.
abbrev regular : Pack
regular = record {
  mwf_open = λ offset size. ok (0x6a ∷ []);
  size = 5000;
  find_offset = λ oid. err (message "not found");
  inflate = λ bytes. ok (full bytes);
  max_alloc = 1000;
}

regular-by_distance :
    (start : ℕ) (elem : PackChainElem)
    → unpack_header regular.mwf_open start ≡ ok elem
    → elem.obj_type ≢ object_ref_delta
unfolding unpack_header
regular-by_distance start elem h is_ref =
    omega (arith, ap (λ (e : PackChainElem). e.obj_type) (ok-injective h), is_ref)

dependency_chain-ne-stuck_example : dependency_chain regular 1001 1000 [] ≢ stuck
dependency_chain-ne-stuck_example =
    dependency_chain-ne-stuck regular 1001 1000 [] (λ start size never. cc) regular-by_distance
      (omega arith)

-- ===== src/Pack/Chain/Ends.antt =====
-- dependencyChain of pack.go ends where deltas name their bases by a distance.
use git4go.Common.{
  ℕ, zero, suc, ◌+◌, ◌<◌, ◌≡◌, ◌≢◌, refl, subst, true, none, some, List, [], ◌∷◌, arith, Outcome,
  ok, err, panic, stuck, GitError, ◌==◌, ltb, leb, if◌then◌else◌, Bool-cases, inl, inr, Ends,
  >>=-Ends, Ends-ne-stuck, Option, if_both, bit_and, message, sym, drop, length, byte_at, get_elem?,
  or_panic,
}
use git4go.Pack.Header.{PackChainElem, header_loop, unpack_header}
use git4go.Pack.Base.{
  object_ofs_delta, object_ref_delta, DeltaBase, ofs_base, ofs_delta_base, get_delta_base, base_in,
}
use git4go.Pack.Chain.{is_delta, open_window, Pack, delta_base, checked_base, dependency_chain}

abbrev Done : {A : Type 0} → A → Type 0
Done a = Unit {0}

Ends-ok : {A : Type 0} (m : Outcome GitError A) → Ends Done m → Ends (λ a. m ≡ ok a) m
Ends-ok (ok a) h = refl
Ends-ok (err e) h = tt
Ends-ok panic h = tt
Ends-ok stuck h = h

header_loop-Ends :
    (n used c size shift : ℕ) (buffer : List ℕ) → Ends Done (header_loop n used c size shift buffer)
unfolding header_loop
header_loop-Ends n used c size shift [] =
    if_both (Ends {E = GitError} {A = ℕ × ℕ} Done) (bit_and c 0x80 == 0) tt (
      if_both (Ends {E = GitError} {A = ℕ × ℕ} Done) (ltb n used) tt
        (if_both (Ends {E = GitError} {A = ℕ × ℕ} Done) (leb 64 shift) tt tt))
header_loop-Ends n used c size shift (b ∷ buffer) =
    if_both (Ends {E = GitError} {A = ℕ × ℕ} Done) (bit_and c 0x80 == 0) tt (
      if_both (Ends {E = GitError} {A = ℕ × ℕ} Done) (ltb n used) tt (
        if_both (Ends {E = GitError} {A = ℕ × ℕ} Done) (leb 64 shift) tt
          (header_loop-Ends n (used + 1) b _ (shift + 7) buffer)))

-- A base that is found by its distance stands before the delta.
abbrev Before : (offset : ℕ) → DeltaBase → Type 0
Before offset base = base.error ≡ none → base.base_offset < offset

ofs_base-Before :
    (cur_pos offset : ℕ) (read : ℕ × ℕ × Option GitError)
    → Before offset (ofs_base cur_pos offset read)
unfolding ofs_base
ofs_base-Before cur_pos offset (distance, used, some e) h = cc
ofs_base-Before cur_pos offset (distance, used, none) h = ground (arith, h)

ne-stuck-Ends : {A : Type 0} (m : Outcome GitError A) → m ≢ stuck → Ends Done m
ne-stuck-Ends (ok a) h = tt
ne-stuck-Ends (err e) h = tt
ne-stuck-Ends panic h = tt
ne-stuck-Ends stuck h = h refl

is_ofs :
    (obj_type : ℕ)
    → is_delta obj_type ≡ true
    → obj_type ≢ object_ref_delta
    → obj_type ≡ object_ofs_delta
unfolding is_delta
is_ofs obj_type h k = ground (arith, h, k)

byte_at-Ends : (buffer : List ℕ) (i : ℕ) → Ends {E = GitError} Done (byte_at buffer i)
byte_at-Ends buffer i = by_found (get_elem? buffer i)
  where
    by_found : (o : Option ℕ) → Ends {E = GitError} Done (or_panic o)
    by_found none = tt
    by_found (some b) = tt

module _ (p : Pack) (opens : (offset size : ℕ) → Ends Done (p.mwf_open offset size)) where
  unpack_header-Ends : (offset : ℕ) → Ends Done (unpack_header p.mwf_open offset)
  unfolding unpack_header
  unpack_header-Ends offset =
      >>=-Ends Done Done (p.mwf_open offset 20) _ (opens offset 20) (λ buffer _.
        >>=-Ends Done Done (byte_at buffer 0) _ (byte_at-Ends buffer 0) (λ c _.
          >>=-Ends {E = GitError} {A = ℕ × ℕ} {B = PackChainElem} Done Done
            (header_loop (length buffer) 1 c (bit_and c 15) 4 (drop 1 buffer)) _
            (header_loop-Ends (length buffer) 1 c (bit_and c 15) 4 (drop 1 buffer))
            (λ found _. tt)))

  open_window-Ends : (offset : ℕ) → Ends Done (open_window p.mwf_open p.size offset)
  unfolding open_window
  open_window-Ends offset =
      if_both (Ends {E = GitError} {A = List ℕ} Done) (ltb _ offset) tt (opens offset 20)

  base_in-Ends :
      (elem_offset offset : ℕ) (m : Outcome GitError (List ℕ))
      → Ends Done m
      → Ends (Before offset) (base_in p.find_offset elem_offset object_ofs_delta offset m)
  unfolding base_in ofs_delta_base
  base_in-Ends elem_offset offset (ok []) h = tt
  base_in-Ends elem_offset offset (ok (c ∷ buffer)) h = ofs_base-Before elem_offset offset _
  base_in-Ends elem_offset offset (err e) h = λ none_is. cc
  base_in-Ends elem_offset offset panic h = tt
  base_in-Ends elem_offset offset stuck h = h

  delta_base-Ends :
      (elem_offset offset : ℕ)
      → Ends (Before offset) (delta_base p elem_offset object_ofs_delta offset)
  unfolding delta_base get_delta_base
  delta_base-Ends elem_offset offset =
      base_in-Ends elem_offset offset (open_window p.mwf_open p.size elem_offset)
        (open_window-Ends elem_offset)

  checked_base-Ends :
      (offset : ℕ) (base : DeltaBase)
      → Before offset base
      → Ends (λ (found : ℕ × ℕ). found.0 < offset) (checked_base base)
  unfolding checked_base
  checked_base-Ends offset base before = by_error base.error refl
    where
      by_error :
          (o : Option GitError)
          → base.error ≡ o
          → Ends
              (λ (found : ℕ × ℕ). found.0 < offset)
              (elim o as (λ _. Outcome GitError (ℕ × ℕ)) [
                | none ↦ ok (base.base_offset, base.cur_pos)
                | some e ↦ err (if base.base_offset == 0 then message "delta offset is zero" else e)
              ])
      by_error none h = before h
      by_error (some e) h = tt

  module _
      (by_distance : (offset : ℕ) (elem : PackChainElem)
        → unpack_header p.mwf_open offset ≡ ok elem
        → elem.obj_type ≢ object_ref_delta) where
    dependency_chain-Ends :
        (rounds offset : ℕ) (stack : List PackChainElem)
        → offset < rounds
        → Ends Done (dependency_chain p rounds offset stack)
    unfolding dependency_chain
    dependency_chain-Ends zero offset stack h = absurd (omega (arith, h))
    dependency_chain-Ends (suc rounds) offset stack h =
        >>=-Ends (λ elem. unpack_header p.mwf_open offset ≡ ok elem) Done
          (unpack_header p.mwf_open offset) _
          (Ends-ok (unpack_header p.mwf_open offset) (unpack_header-Ends offset))
          (λ elem head. elim (Bool-cases (is_delta elem.obj_type)) [
            | inr whole ↦ rw whole tt
            | inl delta ↦ rw delta (
                >>=-Ends (Before offset) Done (delta_base p elem.offset elem.obj_type offset) _
                  (subst (λ t. Ends (Before offset) (delta_base p elem.offset t offset))
                    (sym (is_ofs elem.obj_type delta (by_distance offset elem head)))
                    (delta_base-Ends elem.offset offset))
                  (λ base before.
                    >>=-Ends (λ (found : ℕ × ℕ). found.0 < offset) Done (checked_base base) _
                      (checked_base-Ends offset base before)
                      (λ found lt. dependency_chain-Ends rounds found.0 _ (omega (arith, h, lt)))))
          ])

-- In a pack whose windows can be opened or not, but in any case without an endless wait, and whose deltas
-- all name their bases by a distance, dependencyChain ends from every offset, with the offset and one
-- more as rounds: each base stands before its delta.
pub dependency_chain-ne-stuck :
    (p : Pack) (rounds offset : ℕ) (stack : List PackChainElem)
    → ((start size : ℕ) → p.mwf_open start size ≢ stuck)
    → ((start : ℕ) (elem : PackChainElem)
        → unpack_header p.mwf_open start ≡ ok elem
        → elem.obj_type ≢ object_ref_delta)
    → offset < rounds
    → dependency_chain p rounds offset stack ≢ stuck
dependency_chain-ne-stuck p rounds offset stack opens by_distance few =
    Ends-ne-stuck Done (dependency_chain p rounds offset stack) (
      dependency_chain-Ends p
        (λ start size. ne-stuck-Ends (p.mwf_open start size) (opens start size)) by_distance rounds
        offset stack few)

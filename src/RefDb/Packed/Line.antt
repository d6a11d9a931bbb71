-- ===== src/RefDb/Packed/Line.antt =====
-- A line of the file of packed references, as the loop of reloadIfChanged in RefDb.go reads it.
use git4go.Common.{
  ℕ, suc, ◌+◌, ◌-◌, ◌<◌, ◌≡◌, ◌≢◌, refl, sym, ap, ◌∙◌, false, Bool, none, some, List, [], ◌∷◌, ◌++◌,
  arith, ◌==◌, length, length-append, take, drop, take-append_self, drop-append_self,
  drop-append_add, get_elem?, get_elem?-append, All, ok, GitError, slice_range, slice_range-ok,
}
use git4go.Common.Actions.{continue}
use git4go.Oid.{Oid, new_oid, oid_hex_size}
use git4go.RefDb.Lines.{
  pack_peeling_none, line_length, search_end_line, byte_is, cannot_peel, ref_name,
}
use git4go.RefDb.Packed.{PackRefSortedCache, upsert, change_item, read_peel, read_ref}
use git4go.RefDb.Packed.Stored.{with_oid}

-- A name has no newline and no carriage return.
abbrev pub IsRefName : List ℕ → Type 0
IsRefName name = All (λ c. (c ≢ 10) × (c ≢ 13)) name

line_length-append :
    (name behind : List ℕ)
    → IsRefName name
    → line_length (name ++ (10 ∷ behind)) ≡ some (length name)
unfolding line_length
line_length-append [] behind h = refl
line_length-append (c ∷ name) behind h = ground (arith, line_length-append name behind h.1, h.0.0)

-- The byte before the newline is none of those that a name does not have.
byte_is-last :
    (c : ℕ) (name behind : List ℕ)
    → c ≢ 13
    → IsRefName name
    → byte_is (c ∷ (name ++ behind)) (length name) 13 ≡ false
unfolding byte_is
byte_is-last c [] behind first h = ground (arith, first)
byte_is-last c (d ∷ name) behind first h = byte_is-last d name behind h.0.1 h.1

unfoldable pub line_buffer : (front s name behind : List ℕ) → List ℕ
line_buffer front s name behind = front ++ (s ++ (32 ∷ (name ++ (10 ∷ behind))))

unfoldable pub end_of_line : (front name : List ℕ) → ℕ
end_of_line front name = length front + oid_hex_size + 1 + length name

end_of_line-ne-0 : (front name : List ℕ) → (end_of_line front name == 0) ≡ false
unfolding end_of_line
end_of_line-ne-0 front name = no_zero (length front + oid_hex_size + 1 + length name) (omega arith)
  where
    no_zero : (n : ℕ) → 0 < n → (n == 0) ≡ false
    no_zero n h = ground arith

-- The bytes of a line, whose id `s` stands at the offset `length front`.
module _ (front s name behind : List ℕ) (forty : length s ≡ oid_hex_size)
    (is_name : IsRefName name) where
  behind_id :
      (n : ℕ)
      → get_elem? (line_buffer front s name behind) (length front + (oid_hex_size + n))
        ≡ get_elem? (32 ∷ (name ++ (10 ∷ behind))) n
  unfolding line_buffer
  behind_id n =
      get_elem?-append front _ (oid_hex_size + n)
      ∙ ap (λ k. get_elem? (s ++ (32 ∷ (name ++ (10 ∷ behind)))) (k + n)) (sym forty)
      ∙ get_elem?-append s _ n

  drop_at_name :
      drop (length front + oid_hex_size + 1) (line_buffer front s name behind)
      ≡ name ++ (10 ∷ behind)
  unfolding line_buffer
  drop_at_name =
      ap (λ k. drop k (line_buffer front s name behind)) (omega arith)
      ∙ drop-append_add front _ (oid_hex_size + 1)
      ∙ ap (λ k. drop (k + 1) (s ++ (32 ∷ (name ++ (10 ∷ behind))))) (sym forty)
      ∙ drop-append_add s _ 1

  search_end_line-name :
      search_end_line (line_buffer front s name behind) (length front + oid_hex_size + 1)
      ≡ (end_of_line front name)
  unfolding search_end_line end_of_line
  search_end_line-name =
      ap (λ o. elim o as (λ _. ℕ) [ none ↦ 0 | some n ↦ length front + oid_hex_size + 1 + n ])
        (ap line_length drop_at_name ∙ line_length-append name behind is_name)

  no_return : byte_is (line_buffer front s name behind) ((end_of_line front name) - 1) 13 ≡ false
  unfolding byte_is end_of_line
  no_return =
      ap (λ i. byte_is (line_buffer front s name behind) i 13) (omega arith)
      ∙ ap (λ o. elim o as (λ _. Bool) [ none ↦ false | some b ↦ b == 13 ])
          (behind_id (length name))
      ∙ byte_is-last 32 name (10 ∷ behind) (λ h. omega (arith, h)) is_name

  ref_name-name :
      ref_name
        (line_buffer front s name behind)
        (length front + oid_hex_size + 1)
        (end_of_line front name)
      ≡ name
  unfolding ref_name end_of_line
  ref_name-name =
      rw (no_return, drop_at_name)
        (ap (λ k. take k (name ++ (10 ∷ behind))) (omega arith)
          ∙ take-append_self name (10 ∷ behind))

  byte_behind :
      (c : ℕ)
      → byte_is (line_buffer front s name behind) ((end_of_line front name) + 1) c
        ≡ byte_is behind 0 c
  unfolding byte_is end_of_line
  byte_behind c =
      ap (λ o. elim o as (λ _. Bool) [ none ↦ false | some b ↦ b == c ])
        (ap (get_elem? (line_buffer front s name behind)) (omega arith)
          ∙ behind_id (suc (length name + suc 0))
          ∙ get_elem?-append name (10 ∷ behind) 1)

  read_peel-none :
      (spare : List ℕ) (c : PackRefSortedCache)
      → byte_is behind 0 94 ≡ false
      → c.peeling_mode ≡ pack_peeling_none
      → read_peel
          (record { elems = (line_buffer front s name behind); spare = spare })
          ((end_of_line front name) + 1)
          name
          c
        ≡ (c, ok ((end_of_line front name) + 1))
  unfolding read_peel cannot_peel continue
  read_peel-none spare c no_peel mode = rw (byte_behind 94, no_peel, mode) refl

  slice_range-id :
      (spare : List ℕ)
      → slice_range {E = GitError}
          (record { elems = (line_buffer front s name behind); spare = spare })
          (length front)
          oid_hex_size
        ≡ ok s
  unfolding line_buffer
  slice_range-id spare =
      slice_range-ok (record { elems = (line_buffer front s name behind); spare = spare })
        (length front) oid_hex_size
        (omega
          (arith, length-append front _, length-append s (32 ∷ (name ++ (10 ∷ behind))), forty))
      ∙ ap (λ t. ok (take oid_hex_size t)) (drop-append_self front _)
      ∙ ap (λ k. ok (take k (s ++ (32 ∷ (name ++ (10 ∷ behind)))))) (sym forty)
      ∙ ap ok (take-append_self s _)

  pub read_ref-line :
      (oid : Oid) (spare : List ℕ) (c : PackRefSortedCache)
      → new_oid s ≡ ok oid
      → byte_is behind 0 94 ≡ false
      → c.peeling_mode ≡ pack_peeling_none
      → read_ref
          (record { elems = (line_buffer front s name behind); spare = spare })
          (length front)
          c
        ≡ (
          record c { items = upsert c.items name (with_oid oid) },
          ok ((end_of_line front name) + 1),
        )
  unfolding read_ref change_item with_oid continue
  read_ref-line oid spare c is_oid no_peel mode =
      rw
        (
          slice_range-id spare,
          is_oid,
          space_behind,
          search_end_line-name,
          end_of_line-ne-0 front name,
          ref_name-name,
        )
        (read_peel-none spare (record c { items = upsert c.items name (with_oid oid) }) no_peel
          mode)
    where
      space_behind :
          get_elem? (line_buffer front s name behind) (length front + oid_hex_size) ≡ some 32
      space_behind = ap (get_elem? (line_buffer front s name behind)) (omega arith) ∙ behind_id 0

-- ===== src/Object/Commit/Parents.antt =====
-- The lines of the parents, as newCommit of commit.go reads them.
use git4go.Common.{
  ℕ, zero, suc, ◌+◌, ◌≤◌, ◌<◌, ◌≡◌, refl, sym, ap, ◌∙◌, Bool-cases, inl, inr, none, some, List, [],
  ◌∷◌, ◌++◌, append_assoc, append-nil, arith, ltb, length, length-append, drop-append_self, All, ok,
  codes,
}
use git4go.Oid.{Oid, IsOid, string, parse_oid_with_prefix}
use git4go.Oid.Line.{parse_oid_with_prefix-line, length-string}
use git4go.RevWalk.Parse.{parse_parents_loop}

abbrev pub id_line : (prefix : List ℕ) → Oid → List ℕ
id_line prefix id = prefix ++ (string id ++ (10 ∷ []))

abbrev pub parents_text : List Oid → List ℕ
parents_text [] = []
parents_text (id ∷ ids) = id_line (codes "parent ") id ++ parents_text ids

pub id_line-append :
    (prefix : List ℕ) (id : Oid) (rest : List ℕ)
    → id_line prefix id ++ rest ≡ prefix ++ (string id ++ (10 ∷ rest))
id_line-append prefix id rest = simp append_assoc

-- A line of an id gives it, and the offset behind the line.
pub parse_oid_with_prefix-id_line :
    (front prefix rest : List ℕ) (id : Oid)
    → IsOid id
    → parse_oid_with_prefix (front ++ (id_line prefix id ++ rest)) (length front) prefix
      ≡ ok (some id, length (front ++ id_line prefix id))
parse_oid_with_prefix-id_line front prefix rest id h =
    ap (λ l. parse_oid_with_prefix (front ++ l) (length front) prefix)
      (id_line-append prefix id rest)
    ∙ parse_oid_with_prefix-line front prefix rest id h
    ∙ ap (λ n. ok (some id, n))
        (omega (
          arith,
          length-append front (id_line prefix id),
          length-append prefix (string id ++ (10 ∷ [])),
          length-append (string id) (10 ∷ []),
          length-string id h,
        ))

-- A line of an author is no parent.
parse_oid_with_prefix-author :
    (front rest : List ℕ)
    → parse_oid_with_prefix (front ++ (codes "author " ++ rest)) (length front) (codes "parent ")
      ≡ ok (none, length front)
unfolding parse_oid_with_prefix
parse_oid_with_prefix-author front rest =
    rw (drop-append_self front (codes "author " ++ rest))
      (elim (Bool-cases (ltb (length (front ++ (codes "author " ++ rest))) (length front + 48))) [
        | inl e ↦ rw e refl
        | inr e ↦ rw e refl
      ])

pub parse_parents_loop-text :
    (rounds : ℕ) (ids : List Oid) (front rest : List ℕ)
    → length ids < rounds
    → All IsOid ids
    → parse_parents_loop rounds
        (front ++ (parents_text ids ++ (codes "author " ++ rest)))
        (length front)
      ≡ ok (ids, length (front ++ parents_text ids))
unfolding parse_parents_loop
parse_parents_loop-text zero ids front rest enough h = absurd (omega (arith, enough))
parse_parents_loop-text (suc rounds) [] front rest enough h =
    rw (parse_oid_with_prefix-author front rest, append-nil front) refl
parse_parents_loop-text (suc rounds) (id ∷ ids) front rest enough h =
    rw (first, sym text)
      (rw
        (
          parse_parents_loop-text rounds ids (front ++ line) rest (omega (arith, enough)) h.1,
          append_assoc front line (parents_text ids),
        )
        refl)
  where
    line : List ℕ
    line = id_line (codes "parent ") id

    text :
        (front ++ line) ++ (parents_text ids ++ (codes "author " ++ rest))
        ≡ front ++ (parents_text (id ∷ ids) ++ (codes "author " ++ rest))
    text =
        append_assoc front line (parents_text ids ++ (codes "author " ++ rest))
        ∙ ap (λ l. front ++ l)
            (sym (append_assoc line (parents_text ids) (codes "author " ++ rest)))

    first :
        parse_oid_with_prefix
          (front ++ (parents_text (id ∷ ids) ++ (codes "author " ++ rest)))
          (length front)
          (codes "parent ")
        ≡ ok (some id, length (front ++ line))
    first =
        ap (λ l. parse_oid_with_prefix l (length front) (codes "parent "))
          (sym text ∙ append_assoc front line (parents_text ids ++ (codes "author " ++ rest)))
        ∙ parse_oid_with_prefix-id_line front (codes "parent ")
            (parents_text ids ++ (codes "author " ++ rest)) id h.0

pub length-parents_text : (ids : List Oid) → length ids ≤ length (parents_text ids)
length-parents_text [] = omega arith
length-parents_text (id ∷ ids) = omega (
  arith,
  length-append (id_line (codes "parent ") id) (parents_text ids),
  length-parents_text ids,
)

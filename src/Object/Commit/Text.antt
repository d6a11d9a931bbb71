-- ===== src/Object/Commit/Text.antt =====
-- The text of a commit, as git writes it, and the lines that newCommit of commit.go reads from it.
use git4go.Common.{
  ℕ, suc, ◌+◌, ◌-◌, ◌≡◌, refl, ap, ◌∙◌, true, false, some, List, [], ◌∷◌, ◌++◌, append_assoc, arith,
  ltb, length, length-append, get_elem?, get_elem?-append, All, ok, codes, ℤ,
}
use git4go.Oid.{Oid, IsOid}
use git4go.Object.Signature.{parse_int64, parse_signature}
use git4go.Object.Signature.Text.{IsPlain, Signed, IsSigned, signed_text}
use git4go.Object.Signature.RoundTrip.{signature_of, parse_signature-signed}
use git4go.Object.Commit.{header_loop}
use git4go.Object.Commit.Parents.{id_line, parents_text}

abbrev pub signed_line : (prefix : List ℕ) → Signed → List ℕ
signed_line prefix v = prefix ++ (signed_text v ++ (10 ∷ []))

-- What a commit says.
pub record Written : Type 0 where
  pub tree : Oid
  pub parent_ids : List Oid
  pub author : Signed
  pub committer : Signed
  pub body : List ℕ

abbrev pub behind_parents : Written → List ℕ
behind_parents w =
    signed_line (codes "author ") w.author
    ++ (signed_line (codes "committer ") w.committer ++ (10 ∷ w.body))

abbrev pub commit_text : Written → List ℕ
commit_text w = id_line (codes "tree ") w.tree ++ (parents_text w.parent_ids ++ behind_parents w)

pub record IsWritten (w : Written) : Type 0 where
  pub tree_is : IsOid w.tree
  pub parents_are : All IsOid w.parent_ids
  pub author_is : IsSigned w.author
  pub committer_is : IsSigned w.committer

signed_line-append :
    (prefix : List ℕ) (v : Signed) (rest : List ℕ)
    → signed_line prefix v ++ rest ≡ prefix ++ (signed_text v ++ (10 ∷ rest))
signed_line-append prefix v rest = simp append_assoc

pub parse_signature-signed_line :
    (local_zone : ℤ → ℤ) (v : Signed) (front prefix rest spare : List ℕ) (epoch : ℤ)
    → IsSigned v
    → All IsPlain prefix
    → parse_int64 (v.first ∷ v.digits) ≡ (epoch, false)
    → parse_signature local_zone
        (record { elems = front ++ (signed_line prefix v ++ rest); spare = spare })
        (length front)
        prefix
      ≡ ok (signature_of local_zone v epoch, length (front ++ signed_line prefix v))
parse_signature-signed_line local_zone v front prefix rest spare epoch signed plain parsed =
    ap
      (λ l.
        parse_signature local_zone (record { elems = front ++ l; spare = spare }) (length front)
          prefix)
      (signed_line-append prefix v rest)
    ∙ parse_signature-signed local_zone v front prefix rest spare epoch signed plain parsed
    ∙ ap (λ n. ok (signature_of local_zone v epoch, n))
        (omega (
          arith,
          length-append front (signed_line prefix v),
          length-append prefix (signed_text v ++ (10 ∷ [])),
          length-append (signed_text v) (10 ∷ []),
        ))

-- An empty line ends the loop over the lines.
pub header_loop-empty_line :
    (rounds : ℕ) (front body spare : List ℕ)
    → header_loop
        (suc rounds)
        (record { elems = (front ++ (10 ∷ [])) ++ (10 ∷ body); spare = spare })
        (length (front ++ (10 ∷ [])))
      ≡ ok (length (front ++ (10 ∷ [])))
unfolding header_loop
header_loop-empty_line rounds front body spare = rw (within, before, here) refl
  where
    bytes : List ℕ
    bytes = (front ++ (10 ∷ [])) ++ (10 ∷ body)

    size : length (front ++ (10 ∷ [])) ≡ length front + 1
    size = length-append front (10 ∷ [])

    within : ltb (length (front ++ (10 ∷ []))) (length bytes) ≡ true
    within = ground (arith, length-append (front ++ (10 ∷ [])) (10 ∷ body))

    before : get_elem? bytes (length (front ++ (10 ∷ [])) - 1) ≡ some 10
    before =
        ap (get_elem? bytes) index
        ∙ ap (λ l. get_elem? l (length front + 0)) (append_assoc front (10 ∷ []) (10 ∷ body))
        ∙ get_elem?-append front (10 ∷ (10 ∷ body)) 0
      where
        index : length (front ++ (10 ∷ [])) - 1 ≡ length front + 0
        index = omega (arith, size)

    here : get_elem? bytes (length (front ++ (10 ∷ []))) ≡ some 10
    here = ap (get_elem? bytes) index ∙ get_elem?-append (front ++ (10 ∷ [])) (10 ∷ body) 0
      where
        index : length (front ++ (10 ∷ [])) ≡ length (front ++ (10 ∷ [])) + 0
        index = omega arith

pub words-IsPlain : All IsPlain (codes "author ") × All IsPlain (codes "committer ")
words-IsPlain = (omega arith, omega arith)

-- ===== src/Object/Commit/RoundTrip.antt =====
-- newCommit of commit.go on a commit as git writes it, with a tree, any number of parents, an author,
-- a committer, an empty line and a message.
use git4go.Common.{
  ℕ, suc, ◌+◌, ◌<◌, ◌≡◌, refl, sym, ap, ◌∙◌, false, some, List, [], ◌∷◌, ◌++◌, append_assoc, arith,
  length, length-append, drop, drop-append_self, ok, Outcome, codes, GitError, ℤ,
}
use git4go.Oid.{Oid, parse_oid_with_prefix}
use git4go.RevWalk.Parse.{parse_parents_loop}
use git4go.Object.Signature.{Signature, parse_int64, parse_signature}
use git4go.Object.Signature.Text.{signed_text}
use git4go.Object.Signature.RoundTrip.{signature_of}
use git4go.Object.Commit.{header_loop, new_commit}
use git4go.Object.Commit.Parents.{
  length-parents_text, id_line, parents_text, parse_oid_with_prefix-id_line,
  parse_parents_loop-text,
}
use git4go.Object.Commit.Text.{
  signed_line, Written, behind_parents, commit_text, IsWritten, parse_signature-signed_line,
  header_loop-empty_line, words-IsPlain,
}

module _ (w : Written) where
  front : List ℕ
  front = id_line (codes "tree ") w.tree ++ parents_text w.parent_ids

  signed_front : List ℕ
  signed_front = front ++ signed_line (codes "author ") w.author

  last_front : List ℕ
  last_front = signed_front ++ (codes "committer " ++ signed_text w.committer)

  commit_text-front : commit_text w ≡ front ++ behind_parents w
  unfolding front
  commit_text-front =
      sym (
        append_assoc (id_line (codes "tree ") w.tree) (parents_text w.parent_ids)
          (behind_parents w))

  commit_text-signed_front :
      commit_text w
      ≡ signed_front ++ (signed_line (codes "committer ") w.committer ++ (10 ∷ w.body))
  unfolding signed_front
  commit_text-signed_front =
      commit_text-front
      ∙ sym (
          append_assoc front (signed_line (codes "author ") w.author)
            (signed_line (codes "committer ") w.committer ++ (10 ∷ w.body)))

  signed_front-line :
      signed_front ++ signed_line (codes "committer ") w.committer ≡ last_front ++ (10 ∷ [])
  unfolding last_front
  signed_front-line =
      sym (append_assoc signed_front (codes "committer " ++ signed_text w.committer) (10 ∷ []))

  commit_text-last_front : commit_text w ≡ (last_front ++ (10 ∷ [])) ++ (10 ∷ w.body)
  commit_text-last_front =
      commit_text-signed_front
      ∙ sym (append_assoc signed_front (signed_line (codes "committer ") w.committer) (10 ∷ w.body))
      ∙ ap (λ l. l ++ (10 ∷ w.body)) signed_front-line

  signed_parts :
      (local_zone : ℤ → ℤ) (spare : List ℕ) (author_epoch committer_epoch : ℤ)
      → IsWritten w
      → parse_int64 (w.author.first ∷ w.author.digits) ≡ (author_epoch, false)
      → parse_int64 (w.committer.first ∷ w.committer.digits) ≡ (committer_epoch, false)
      → (parse_signature local_zone
            (record { elems = commit_text w; spare = spare })
            (length front)
            (codes "author ")
          ≡ ok (signature_of local_zone w.author author_epoch, length signed_front))
        × (parse_signature local_zone
              (record { elems = commit_text w; spare = spare })
              (length signed_front)
              (codes "committer ")
            ≡ ok (
              signature_of local_zone w.committer committer_epoch,
              length (last_front ++ (10 ∷ [])),
            ))
  unfolding signed_front
  signed_parts local_zone spare author_epoch committer_epoch written at_author at_committer = (
    ap (parse_at (length front) (codes "author ")) commit_text-front
        ∙ parse_signature-signed_line local_zone w.author front (codes "author ") _ spare
            author_epoch written.author_is words-IsPlain.0 at_author,
    ap (parse_at (length signed_front) (codes "committer ")) commit_text-signed_front
        ∙ parse_signature-signed_line local_zone w.committer signed_front (codes "committer ")
            (10 ∷ w.body) spare committer_epoch written.committer_is words-IsPlain.1 at_committer
        ∙ ap (λ l. ok (signature_of local_zone w.committer committer_epoch, length l))
            signed_front-line,
  )
    where
      parse_at : ℕ → List ℕ → List ℕ → Outcome GitError (Signature × ℕ)
      parse_at offset prefix l =
          parse_signature local_zone (record { elems = l; spare = spare }) offset prefix

  ids_parts :
      IsWritten w
      → (parse_oid_with_prefix (commit_text w) 0 (codes "tree ")
          ≡ ok (some w.tree, length (id_line (codes "tree ") w.tree)))
        × (parse_parents_loop
              (length (commit_text w) + 1)
              (commit_text w)
              (length (id_line (codes "tree ") w.tree))
            ≡ ok (w.parent_ids, length front))
  unfolding front
  ids_parts written = (
    parse_oid_with_prefix-id_line [] (codes "tree ") (parents_text w.parent_ids ++ behind_parents w)
        w.tree written.tree_is,
    parse_parents_loop-text (length (commit_text w) + 1) w.parent_ids
        (id_line (codes "tree ") w.tree) _ enough written.parents_are,
  )
    where
      enough : length w.parent_ids < length (commit_text w) + 1
      enough = omega (
        arith,
        length-append (id_line (codes "tree ") w.tree)
            (parents_text w.parent_ids ++ behind_parents w),
        length-append (parents_text w.parent_ids) (behind_parents w),
        length-parents_text w.parent_ids,
      )

  header_loop-commit_text :
      (rounds : ℕ) (spare : List ℕ)
      → header_loop
          (rounds + 1)
          (record { elems = commit_text w; spare = spare })
          (length (last_front ++ (10 ∷ [])))
        ≡ ok (length (last_front ++ (10 ∷ [])))
  header_loop-commit_text rounds spare = rw add_suc (
      ap
        (λ l.
          header_loop (suc rounds) (record { elems = l; spare = spare })
            (length (last_front ++ (10 ∷ []))))
        commit_text-last_front
      ∙ header_loop-empty_line rounds last_front w.body spare)
    where
      add_suc : rounds + 1 ≡ suc rounds
      add_suc = omega arith

  message_bytes : drop (length (last_front ++ (10 ∷ []))) (commit_text w) ≡ 10 ∷ w.body
  message_bytes =
      ap (drop (length (last_front ++ (10 ∷ [])))) commit_text-last_front
      ∙ drop-append_self (last_front ++ (10 ∷ [])) (10 ∷ w.body)

-- newCommit on a commit as git writes it, with ids of 20 bytes, names and e-mails that parseSignature
-- reads back and times that ParseInt takes, whatever stands in the array behind it and however many
-- parents it has: the tree, the author and the committer are those that were written; the message is
-- the one that was written with the newline of the empty line before it; and there are no parents.
pub new_commit-commit_text :
    (local_zone : ℤ → ℤ) (oid : Oid) (w : Written) (spare : List ℕ)
    (author_epoch committer_epoch : ℤ)
    → IsWritten w
    → parse_int64 (w.author.first ∷ w.author.digits) ≡ (author_epoch, false)
    → parse_int64 (w.committer.first ∷ w.committer.digits) ≡ (committer_epoch, false)
    → new_commit local_zone oid (record { elems = commit_text w; spare = spare })
      ≡ ok (record {
        oid = oid;
        message = 10 ∷ w.body;
        tree_id = some w.tree;
        author = signature_of local_zone w.author author_epoch;
        committer = signature_of local_zone w.committer committer_epoch;
        parents = [];
      })
unfolding new_commit
new_commit-commit_text local_zone oid w spare author_epoch committer_epoch written at_author
      at_committer =
    let ids = ids_parts w written in
    let signed =
      signed_parts w local_zone spare author_epoch committer_epoch written at_author at_committer in
    rw
      (
        ids.0,
        ids.1,
        signed.0,
        signed.1,
        header_loop-commit_text w (length (commit_text w)) spare,
        message_bytes w,
      )
      refl

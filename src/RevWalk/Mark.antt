-- ===== src/RevWalk/Mark.antt =====
-- The marks of revwalk.go on hidden commits, and the commits that a walk is given.
use git4go.Common.{
  ℕ, zero, suc, Bool, true, Option, none, some, List, [], ◌∷◌, ◌++◌, if◌then◌else◌, ok, panic,
  stuck,
}
use git4go.Common.Actions.{Action, ◌>>=◌, ◌>>◌, lift, get}
use git4go.Oid.{Oid}
use git4go.RevWalk.Node.{
  Commits, node_at, CommitListNodes, interesting, interesting_arr, insert_by_time, contains,
}
use git4go.RevWalk.State.{RevWalk, modify_node, OdbRead, commit_list_parse}

-- The parents of a node that are not yet uninteresting.
unfoldable pub interesting_parents : Commits → List Oid → List Oid
interesting_parents commits [] = []
interesting_parents commits (parent ∷ parents) =
    let rest = interesting_parents commits parents in
    if (node_at commits parent).uninteresting then rest else parent ∷ rest

unfoldable pub push_front : Oid → Option (CommitListNodes × Oid) → Option (CommitListNodes × Oid)
push_front n none = some ([], n)
push_front n (some (front, last)) = some (n ∷ front, last)

-- The list without its last element, and that element.
unfoldable pub pop_last : CommitListNodes → Option (CommitListNodes × Oid)
pop_last [] = none
pop_last (n ∷ q) = push_front n (pop_last q)

-- `commit := q[0]; q = q[1:]`.
unfoldable pub pop_first :
    CommitListNodes
    → (body : Oid → CommitListNodes → Action RevWalk (Unit {0})) → Action RevWalk (Unit {0})
pop_first [] body = lift panic
pop_first (commit ∷ rest) body = body commit rest

module _ (odb_read : OdbRead) where
  -- The loop of markUninteresting, which also ends where a pending commit is still interesting.
  unfoldable pub mark_uninteresting_loop :
      (rounds : ℕ) (pending : CommitListNodes) (commit : Oid) → Action RevWalk (Unit {0})
  mark_uninteresting_loop zero pending commit = lift stuck
  mark_uninteresting_loop (suc rounds) pending commit = do
    modify_node commit (λ node. record node { uninteresting = true })
    commit_list_parse odb_read commit
    v ← get
    let pending' = pending ++ interesting_parents v.commits (node_at v.commits commit).parents
    elim (pop_last pending') [
      | none ↦ lift (ok tt)
      | some (front, last) ↦
          let more = mark_uninteresting_loop rounds front last in
          if interesting_arr v.commits front then lift (ok tt) else more
    ]

  unfoldable pub mark_uninteresting : (rounds : ℕ) (commit : Oid) → Action RevWalk (Unit {0})
  mark_uninteresting rounds commit = mark_uninteresting_loop rounds [] commit

  -- The loop of premarkUninteresting over the parents of a commit.
  unfoldable pub premark_parents :
      (uninteresting : Bool) (parents : List Oid) (q : CommitListNodes)
      → Action RevWalk CommitListNodes
  premark_parents hidden [] q = lift (ok q)
  premark_parents hidden (parent ∷ parents) q = do
    commit_list_parse odb_read parent
    (if hidden
        then modify_node parent (λ node. record node { uninteresting = true })
        else lift (ok tt))
    v ← get
    premark_parents hidden parents
        (if contains q parent then q else insert_by_time v.commits q parent)

  -- The loop over the queue, until it is empty: no flag is ever set on a node.
  unfoldable pub premark_loop : (rounds : ℕ) (q : CommitListNodes) → Action RevWalk (Unit {0})
  premark_loop zero q = lift stuck
  premark_loop (suc rounds) q = do
    v ← get
    if interesting v.commits q
        then pop_first q (λ commit rest. do
          q' ←
              premark_parents (node_at v.commits commit).uninteresting
                (node_at v.commits commit).parents rest
          premark_loop rounds q')
        else lift (ok tt)

  unfoldable pub premark_input :
      (input : List Oid) (q : CommitListNodes) → Action RevWalk CommitListNodes
  premark_input [] q = lift (ok q)
  premark_input (commit ∷ input) q = do
    commit_list_parse odb_read commit
    v ← get
    premark_input input (insert_by_time v.commits q commit)

  unfoldable pub premark_uninteresting : (rounds : ℕ) → Action RevWalk (Unit {0})
  premark_uninteresting rounds = do
    v ← get
    q ← premark_input v.user_input []
    premark_loop rounds q

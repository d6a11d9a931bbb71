-- ===== src/RevWalk/Iterators.antt =====
-- The queues of revwalk.go: how a commit gets into them, and the four ways to take the next one out.
use git4go.Common.{
  ℕ, zero, suc, Bool, true, none, some, List, [], ◌∷◌, ◌++◌, if◌then◌else◌, length, take, ok,
  GitError, iter_over, git_error,
}
use git4go.Common.Actions.{Action, ◌>>=◌, ◌>>◌, lift, get, modify, fail}
use git4go.Oid.{Oid}
use git4go.RevWalk.Node.{node_at, CommitListNodes, insert_by_time}
use git4go.RevWalk.State.{
  RevWalk, modify_node, OdbRead, commit_list_parse, enqueue_unsorted, enqueue_time_sort,
}
use git4go.RevWalk.Mark.{pop_last, mark_uninteresting}

abbrev pub iteration_over : GitError
iteration_over = git_error iter_over

-- The enqueue that the walk's order has.
unfoldable pub enqueue_commit : (commit : Oid) → Action RevWalk (Unit {0})
enqueue_commit commit v = elim v.enqueue [
  | enqueue_unsorted ↦ (record v { rand_iterator = v.rand_iterator ++ (commit ∷ []) }, ok tt)
  | enqueue_time_sort ↦
      (record v { time_iterator = insert_by_time v.commits v.time_iterator commit }, ok tt)
]

module _ (odb_read : OdbRead) (rounds : ℕ) where
  unfoldable pub process_commit : (commit : Oid) (hide : Bool) → Action RevWalk (Unit {0})
  process_commit commit hide = do
    (if hide then mark_uninteresting odb_read rounds commit else lift (ok tt))
    v ← get
    if (node_at v.commits commit).seen then lift (ok tt) else (do
      modify_node commit (λ node. record node { seen = true })
      commit_list_parse odb_read commit
      if hide then lift (ok tt) else enqueue_commit commit)

  unfoldable pub process_commits : List Oid → (hide : Bool) → Action RevWalk (Unit {0})
  process_commits [] hide = lift (ok tt)
  process_commits (commit ∷ commits) hide = do
    process_commit commit hide
    process_commits commits hide

  -- All parents, or the first.
  unfoldable pub process_commit_parents : (commit : Oid) → Action RevWalk (Unit {0})
  process_commit_parents commit = do
    v ← get
    process_commits
        (if v.first_parent
          then take 1 (node_at v.commits commit).parents
          else (node_at v.commits commit).parents)
        (node_at v.commits commit).uninteresting

  -- The commit that is taken from a queue, with the rest of the queue still to be looked at.
  unfoldable pub unless_hidden : (next : Oid) (more : Action RevWalk Oid) → Action RevWalk Oid
  unless_hidden next more = do
    v ← get
    if (node_at v.commits next).uninteresting
        then more
        else (do process_commit_parents next; lift (ok next))

  -- The loop of revWalkNextTimeSort on the queue.
  unfoldable pub next_time_sort_loop : CommitListNodes → Action RevWalk Oid
  next_time_sort_loop [] = fail iteration_over
  next_time_sort_loop (next ∷ q) = do
    modify (λ v. record v { time_iterator = q })
    unless_hidden next (next_time_sort_loop q)

  unfoldable pub take_time_sort : Action RevWalk Oid
  take_time_sort v = next_time_sort_loop v.time_iterator v

  -- The loop of revWalkNextUnsorted, which takes the last commit of the queue.
  unfoldable pub next_unsorted_loop : (length : ℕ) → Action RevWalk Oid
  next_unsorted_loop zero = fail iteration_over
  next_unsorted_loop (suc n) = do
    v ← get
    elim (pop_last v.rand_iterator) [
      | none ↦ fail iteration_over
      | some (q, next) ↦ (do
        modify (λ w. record w { rand_iterator = q })
        unless_hidden next (next_unsorted_loop n))
    ]

  unfoldable pub take_unsorted : Action RevWalk Oid
  take_unsorted v = next_unsorted_loop (length v.rand_iterator) v

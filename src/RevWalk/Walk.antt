-- ===== src/RevWalk/Walk.antt =====
-- The methods of revwalk.go that push, hide and take the next commit.
use git4go.Common.{
  ℕ, zero, suc, bit_and, Bool, true, false, not, ◌&&◌, none, some, List, [], ◌∷◌, ◌++◌, ◌==◌,
  if◌then◌else◌, length, take, Outcome, ok, err, panic, stuck, GitError, is_error_code, iter_over,
  ℤ, increment, decrement, pos, negsuc,
}
use git4go.Common.Actions.{Action, ◌>>=◌, ◌>>◌, lift, get, modify, fail}
use git4go.Oid.{Oid}
use git4go.RevWalk.Node.{node_at}
use git4go.RevWalk.State.{
  sort_topological, sort_reverse, RevWalk, reset, commit_lookup, modify_node, OdbRead,
  next_unsorted, next_time_sort, next_topology_sort, next_reverse,
}
use git4go.RevWalk.Mark.{pop_last, premark_uninteresting}
use git4go.RevWalk.Iterators.{iteration_over, process_commit, take_time_sort, take_unsorted}

-- The nodes of the parents, each with one child more or less.
unfoldable pub count_child : (change : ℤ → ℤ) → List Oid → Action RevWalk (Unit {0})
count_child change [] = lift (ok tt)
count_child change (parent ∷ parents) = do
  modify_node parent (λ node. record node { in_degree = change node.in_degree })
  count_child change parents

unfoldable pub is_positive : ℤ → Bool
is_positive (pos zero) = false
is_positive (pos (suc n)) = true
is_positive (negsuc n) = false

unfoldable pub is_zero_degree : ℤ → Bool
is_zero_degree (pos zero) = true
is_zero_degree (pos (suc n)) = false
is_zero_degree (negsuc n) = false

-- The loop of revWalkNextTopologySort over the parents of the commit that is taken.
unfoldable pub release_parents : List Oid → Action RevWalk (Unit {0})
release_parents [] = lift (ok tt)
release_parents (parent ∷ parents) = do
  modify_node parent (λ node. record node { in_degree = decrement node.in_degree })
  v ← get
  (if is_zero_degree (node_at v.commits parent).in_degree
        && (node_at v.commits parent).topology_delay
      then (do
        modify_node parent (λ node. record node { topology_delay = false })
        modify (λ w. record w { topology_iterator = w.topology_iterator ++ (parent ∷ []) }))
      else lift (ok tt))
  release_parents parents

-- The loop of revWalkNextTopologySort, which sets a commit aside whose children are still to come.
unfoldable pub next_topology_sort_loop : (length : ℕ) → Action RevWalk Oid
next_topology_sort_loop zero = fail iteration_over
next_topology_sort_loop (suc n) = do
  v ← get
  elim (pop_last v.topology_iterator) [
    | none ↦ fail iteration_over
    | some (q, next) ↦ (do
      modify (λ w. record w { topology_iterator = q })
      if is_positive (node_at v.commits next).in_degree
          then (do
            modify_node next (λ node. record node { topology_delay = true })
            next_topology_sort_loop n)
          else (do
            release_parents (
                if v.first_parent
                then take 1 (node_at v.commits next).parents
                else (node_at v.commits next).parents)
            lift (ok next)))
  ]

unfoldable pub take_topology_sort : Action RevWalk Oid
take_topology_sort v = next_topology_sort_loop (length v.topology_iterator) v

-- revWalkNextReverse.
unfoldable pub take_reverse : Action RevWalk Oid
take_reverse v = elim (pop_last v.reverse_iterator) [
  | none ↦ (v, err iteration_over)
  | some (q, next) ↦ (record v { reverse_iterator = q }, ok next)
]

-- `for err == nil` with getNext in prepareWalk: what is to be done with each commit, until the
-- iteration is over. Another error is the walk's.
unfoldable pub until_over :
    RevWalk × Outcome GitError (Unit {0}) → RevWalk × Outcome GitError (Unit {0})
until_over (v, err e) = if is_error_code e iter_over then (v, ok tt) else (v, err e)
until_over (v, ok a) = (v, ok a)
until_over (v, panic) = (v, panic)
until_over (v, stuck) = (v, stuck)

-- The end of Next: where the iteration is over the walk is reset.
unfoldable pub reset_at_end : RevWalk × Outcome GitError Oid → RevWalk × Outcome GitError Oid
reset_at_end (v, err e) = if is_error_code e iter_over then (reset v, err e) else (v, err e)
reset_at_end (v, ok id) = (v, ok id)
reset_at_end (v, panic) = (v, panic)
reset_at_end (v, stuck) = (v, stuck)

module _ (odb_read : OdbRead) (rounds : ℕ) where
  -- `v.getNext(v)`.
  unfoldable pub take_next : Action RevWalk Oid
  take_next v = elim v.get_next [
    | next_unsorted ↦ take_unsorted odb_read rounds v
    | next_time_sort ↦ take_time_sort odb_read rounds v
    | next_topology_sort ↦ take_topology_sort v
    | next_reverse ↦ take_reverse v
  ]

  unfoldable pub for_each_next :
      (turns : ℕ) (body : Oid → Action RevWalk (Unit {0})) → Action RevWalk (Unit {0})
  for_each_next zero body = lift stuck
  for_each_next (suc turns) body = do next ← take_next; body next; for_each_next turns body

  -- The user's commits, each hidden or not as it is marked.
  unfoldable pub process_input : List Oid → Action RevWalk (Unit {0})
  process_input [] = lift (ok tt)
  process_input (commit ∷ input) = do
    v ← get
    process_commit odb_read rounds commit (node_at v.commits commit).uninteresting
    process_input input

  -- The commits in the topology iterator, with the number of children of each.
  unfoldable pub prepare_topology : Action RevWalk (Unit {0})
  prepare_topology = do
    (λ v. until_over (
        for_each_next rounds
          (λ next. do
            w ← get
            count_child increment (node_at w.commits next).parents
            modify (λ u. record u { topology_iterator = u.topology_iterator ++ (next ∷ []) }))
          v))
    modify (λ v. record v { get_next = next_topology_sort })

  unfoldable pub prepare_reverse : Action RevWalk (Unit {0})
  prepare_reverse = do
    (λ v. until_over (
        for_each_next rounds
          (λ next. modify (λ u. record u { reverse_iterator = u.reverse_iterator ++ (next ∷ []) }))
          v))
    modify (λ v. record v { get_next = next_reverse })

  unfoldable pub prepare_walk : Action RevWalk (Unit {0})
  prepare_walk = do
    v ← get
    if not v.did_push then fail iteration_over else (do
      (if v.did_hide then premark_uninteresting odb_read rounds else lift (ok tt))
      process_input v.user_input
      (if bit_and v.sorting sort_topological == sort_topological
          then prepare_topology
          else lift (ok tt))
      (if bit_and v.sorting sort_reverse == sort_reverse then prepare_reverse else lift (ok tt))
      modify (λ w. record w { walking = true }))

  -- Next, which gives the id that it copies.
  unfoldable pub next : Action RevWalk Oid
  next = do
    v ← get
    (if v.walking then lift (ok tt) else prepare_walk)
    λ w. reset_at_end (take_next w)

-- The end of pushCommit, on the commit's id.
unfoldable pub push_commit_id : (commit : Oid) (uninteresting : Bool) → Action RevWalk (Unit {0})
push_commit_id commit hidden = do
  modify (λ v. commit_lookup v commit)
  v ← get
  if (node_at v.commits commit).uninteresting then lift (ok tt) else (do
    modify (λ w. if hidden then record w { did_hide = true } else record w { did_push = true })
    modify_node commit (λ node. record node { uninteresting = hidden })
    modify (λ w. record w { user_input = w.user_input ++ (commit ∷ []) }))

-- What follows the Peel: a glob passes over what is no commit.
unfoldable pub push_peeled :
    (peeled : Outcome GitError Oid) (uninteresting from_glob : Bool) → Action RevWalk (Unit {0})
push_peeled (ok commit) hidden from_glob = push_commit_id commit hidden
push_peeled (err e) hidden from_glob = if from_glob then lift (ok tt) else fail e
push_peeled panic hidden from_glob = lift panic
push_peeled stuck hidden from_glob = lift stuck

-- pushCommit. `lookup` is the repository's Lookup and `peel` the Peel of the object to a commit, which
-- gives the commit's id.
module _ (lookup peel : Oid → Outcome GitError Oid) where
  unfoldable pub push_commit :
      (oid : Oid) (uninteresting from_glob : Bool) → Action RevWalk (Unit {0})
  push_commit oid hidden from_glob = do
    object ← lift (lookup oid)
    push_peeled (peel object) hidden from_glob

  unfoldable pub push : (id : Oid) → Action RevWalk (Unit {0})
  push id = push_commit id false false

  unfoldable pub hide : (id : Oid) → Action RevWalk (Unit {0})
  hide id = push_commit id true false

  -- pushRef, with the target of the reference that LookupReference and Resolve find.
  unfoldable pub push_ref :
      (resolve : List ℕ → Outcome GitError Oid) (ref_name : List ℕ) (uninteresting from_glob : Bool)
      → Action RevWalk (Unit {0})
  push_ref resolve ref_name hidden from_glob = do
    target ← lift (resolve ref_name)
    push_commit target hidden from_glob

-- ===== src/RevWalk/Unmarked.antt =====
-- The queues of revwalk.go give no commit that is marked as hidden.
use git4go.Common.{
  ℕ, zero, suc, ◌≡◌, refl, sym, ap, ◌∙◌, subst, Bool, true, false, inl, inr, ◌⊎◌, Option, none,
  some, List, [], ◌∷◌, ◌++◌, if◌then◌else◌, Outcome, ok, ok-injective, err, panic, stuck, GitError,
  bytes_equal, or_else, bytes_equal_sound,
}
use git4go.Common.Actions.{
  Action, ◌>>◌, lift, modify, fail, Leaves, continue-Leaves, get-Leaves, if-apply-Leaves, continue,
}
use git4go.Oid.{Oid}
use git4go.RevWalk.Node.{CommitListNode, new_node, node_at, put_node, insert_by_time}
use git4go.RevWalk.State.{
  RevWalk, Enqueue, GetNext, next_unsorted, next_time_sort, next_topology_sort, next_reverse,
  enqueue_unsorted, enqueue_time_sort, commit_lookup, lookup_all, modify_node, commit_quick_parse,
  OdbRead, is_commit, commit_list_parse,
}
use git4go.RevWalk.Mark.{pop_last}
use git4go.RevWalk.Iterators.{
  iteration_over, enqueue_commit, process_commit, process_commits, process_commit_parents,
  unless_hidden, next_time_sort_loop, take_time_sort, next_unsorted_loop, take_unsorted,
}
use git4go.RevWalk.Walk.{take_next, take_topology_sort, take_reverse, next, reset_at_end}
use git4go.RevWalk.Resets.{reset_at_end-ok}

-- A commit that is not marked as hidden, in a walk whose nodes have their ids.
pub record IsUnmarked (id : Oid) (v : RevWalk) : Type 0 where
  pub named : (oid : Oid) → (node_at v.commits oid).oid ≡ oid
  pub unmarked : (node_at v.commits id).uninteresting ≡ false

module _ (id : Oid) where
  stays :
      {A : Type 0} {r : RevWalk × Outcome GitError A} → IsUnmarked id r.0 → Leaves (IsUnmarked id) r
  stays h = record { holds = h }

  -- A node in the place of the one with its id, of which the mark is left.
  put_node-IsUnmarked :
      (v : RevWalk) (oid : Oid) (node : CommitListNode)
      → IsUnmarked id v
      → node.oid ≡ (node_at v.commits oid).oid
      → node.uninteresting ≡ (node_at v.commits oid).uninteresting
      → IsUnmarked id (record v { commits = put_node v.commits node })
  unfolding put_node node_at
  put_node-IsUnmarked v oid node h same kept = record {
    named = λ other. named (bytes_equal node.oid other) other (bytes_equal_sound node.oid other);
    unmarked = unmarked (bytes_equal node.oid id) (bytes_equal_sound node.oid id);
  }
    where
      named :
          (b : Bool) (other : Oid)
          → (b ≡ true → node.oid ≡ other)
          → (or_else (if b then some node else v.commits other) (new_node other)).oid ≡ other
      named true other e = e refl
      named false other e = h.named other

      unmarked :
          (b : Bool)
          → (b ≡ true → node.oid ≡ id)
          → (or_else (if b then some node else v.commits id) (new_node id)).uninteresting ≡ false
      unmarked true e =
          kept
          ∙ ap (λ o. (or_else (v.commits o) (new_node o)).uninteresting)
              (sym (h.named oid) ∙ sym same ∙ e refl)
          ∙ h.unmarked
      unmarked false e = h.unmarked

  modify_node-IsUnmarked :
      (oid : Oid) (f : CommitListNode → CommitListNode) (v : RevWalk)
      → ((node : CommitListNode)
          → ((f node).oid ≡ node.oid) × ((f node).uninteresting ≡ node.uninteresting))
      → IsUnmarked id v
      → Leaves (IsUnmarked id) (modify_node oid f v)
  unfolding modify_node
  modify_node-IsUnmarked oid f v same h = stays (
      put_node-IsUnmarked v oid (f (node_at v.commits oid)) h (same (node_at v.commits oid)).0
        (same (node_at v.commits oid)).1)

  lookup_all-IsUnmarked :
      (v : RevWalk) (ids : List Oid) → IsUnmarked id v → IsUnmarked id (lookup_all v ids)
  unfolding lookup_all commit_lookup
  lookup_all-IsUnmarked v [] h = h
  lookup_all-IsUnmarked v (oid ∷ ids) h =
      lookup_all-IsUnmarked (commit_lookup v oid) ids
        (put_node-IsUnmarked v oid (node_at v.commits oid) h refl refl)

  commit_quick_parse-IsUnmarked :
      (commit : Oid) (bytes : List ℕ) (v : RevWalk)
      → IsUnmarked id v
      → Leaves (IsUnmarked id) (commit_quick_parse commit bytes v)
  unfolding commit_quick_parse
  commit_quick_parse-IsUnmarked commit bytes v h = continue-Leaves (stays h) (λ found w k.
      continue-Leaves (stays (lookup_all-IsUnmarked w found.0 k)) (λ a w' k'.
        continue-Leaves (modify_node-IsUnmarked commit _ w' (λ node. (refl, refl)) k') (λ a' u l.
          continue-Leaves (stays l)
            (λ time u' l'. modify_node-IsUnmarked commit _ u' (λ node. (refl, refl)) l'))))

  commit_list_parse-IsUnmarked :
      (odb_read : OdbRead) (commit : Oid) (v : RevWalk)
      → IsUnmarked id v
      → Leaves (IsUnmarked id) (commit_list_parse odb_read commit v)
  unfolding commit_list_parse
  commit_list_parse-IsUnmarked odb_read commit v h = get-Leaves v _ (
      if-apply-Leaves (node_at v.commits commit).parsed _ _ v (stays h) (
        continue-Leaves (stays h) (λ found w k.
          if-apply-Leaves (is_commit found.0) _ _ w
            (commit_quick_parse-IsUnmarked commit found.1 w k) (stays k))))

  enqueue_commit-IsUnmarked :
      (commit : Oid) (v : RevWalk)
      → IsUnmarked id v
      → Leaves (IsUnmarked id) (enqueue_commit commit v)
  unfolding enqueue_commit
  enqueue_commit-IsUnmarked commit v h = split v.enqueue
    where
      split :
          (order : Enqueue)
          → Leaves (IsUnmarked id) (elim order as (λ _. RevWalk × Outcome GitError (Unit {0})) [
            | enqueue_unsorted ↦
                (record v { rand_iterator = v.rand_iterator ++ (commit ∷ []) }, ok tt)
            | enqueue_time_sort ↦ (
              record v { time_iterator = insert_by_time v.commits v.time_iterator commit },
              ok tt,
            )
          ])
      split enqueue_unsorted = stays (record { named = h.named; unmarked = h.unmarked })
      split enqueue_time_sort = stays (record { named = h.named; unmarked = h.unmarked })

  -- Commits that are not to be hidden.
  process_commits-IsUnmarked :
      (odb_read : OdbRead) (rounds : ℕ) (commits : List Oid) (v : RevWalk)
      → IsUnmarked id v
      → Leaves (IsUnmarked id) (process_commits odb_read rounds commits false v)
  unfolding process_commits process_commit
  process_commits-IsUnmarked odb_read rounds [] v h = stays h
  process_commits-IsUnmarked odb_read rounds (commit ∷ commits) v h =
      continue-Leaves
        (continue-Leaves (stays h) (λ a w k. get-Leaves w _ (
          if-apply-Leaves (node_at w.commits commit).seen _ _ w (stays k) (
            continue-Leaves (modify_node-IsUnmarked commit _ w (λ node. (refl, refl)) k)
              (λ a' w' k'.
                continue-Leaves (commit_list_parse-IsUnmarked odb_read commit w' k')
                  (λ a'' u l. enqueue_commit-IsUnmarked commit u l))))))
        (λ a w k. process_commits-IsUnmarked odb_read rounds commits w k)

process_commit_parents-IsUnmarked :
    (odb_read : OdbRead) (rounds : ℕ) (commit : Oid) (v : RevWalk)
    → IsUnmarked commit v
    → Leaves (IsUnmarked commit) (process_commit_parents odb_read rounds commit v)
unfolding process_commit_parents
process_commit_parents-IsUnmarked odb_read rounds commit v h =
    get-Leaves v _ (rw h.unmarked (process_commits-IsUnmarked commit odb_read rounds _ v h))

-- A call that gives a commit only where that is not marked afterwards.
abbrev GivesUnmarked : RevWalk × Outcome GitError Oid → Type 0
GivesUnmarked r = (id : Oid) → r.1 ≡ ok id → IsUnmarked id r.0

and_then :
    (commit : Oid) (r : RevWalk × Outcome GitError (Unit {0}))
    → IsUnmarked commit r.0
    → GivesUnmarked (continue r (λ a. lift (ok commit)))
unfolding continue
and_then commit (v, ok a) h id e = subst (λ o. IsUnmarked o v) (ok-injective e) h
and_then commit (v, err why) h id e = cc
and_then commit (v, panic) h id e = cc
and_then commit (v, stuck) h id e = cc

abbrev IsNamed : RevWalk → Type 0
IsNamed v = (oid : Oid) → (node_at v.commits oid).oid ≡ oid

module _ (odb_read : OdbRead) (rounds : ℕ) where
  unless_hidden-GivesUnmarked :
      (commit : Oid) (more : Action RevWalk Oid) (v : RevWalk)
      → IsNamed v
      → GivesUnmarked (more v)
      → GivesUnmarked (unless_hidden odb_read rounds commit more v)
  unfolding unless_hidden continue
  unless_hidden-GivesUnmarked commit more v named rest =
      branch (node_at v.commits commit).uninteresting refl
    where
      branch :
          (hidden : Bool)
          → (node_at v.commits commit).uninteresting ≡ hidden
          → GivesUnmarked (
              (if hidden
                  then more
                  else (do process_commit_parents odb_read rounds commit; lift (ok commit)))
                v)
      branch true e = rest
      branch false e =
          and_then commit (process_commit_parents odb_read rounds commit v)
            (process_commit_parents-IsUnmarked odb_read rounds commit v
              (record { named = named; unmarked = e })).holds

  next_time_sort_loop-GivesUnmarked :
      (q : List Oid) (v : RevWalk)
      → IsNamed v
      → GivesUnmarked (next_time_sort_loop odb_read rounds q v)
  unfolding next_time_sort_loop continue
  next_time_sort_loop-GivesUnmarked [] v named = λ id e. cc
  next_time_sort_loop-GivesUnmarked (commit ∷ q) v named =
      unless_hidden-GivesUnmarked commit _ (record v { time_iterator = q }) named
        (next_time_sort_loop-GivesUnmarked q (record v { time_iterator = q }) named)

  next_unsorted_loop-GivesUnmarked :
      (n : ℕ) (v : RevWalk) → IsNamed v → GivesUnmarked (next_unsorted_loop odb_read rounds n v)
  unfolding next_unsorted_loop continue
  next_unsorted_loop-GivesUnmarked zero v named = λ id e. cc
  next_unsorted_loop-GivesUnmarked (suc n) v named =
      split (pop_last v.rand_iterator) (λ w k. next_unsorted_loop-GivesUnmarked n w k)
    where
      split :
          (popped : Option (List Oid × Oid))
          → ((w : RevWalk) → IsNamed w → GivesUnmarked (next_unsorted_loop odb_read rounds n w))
          → GivesUnmarked (
              (elim popped as (λ _. Action RevWalk Oid) [
                | none ↦ fail iteration_over
                | some (q, commit) ↦ (do
                  modify (λ u. record u { rand_iterator = q })
                  unless_hidden odb_read rounds commit (next_unsorted_loop odb_read rounds n))
              ])
                v)
      split none again = λ id e. cc
      split (some (q, commit)) again =
          unless_hidden-GivesUnmarked commit _ (record v { rand_iterator = q }) named
            (again (record v { rand_iterator = q }) named)

  take_next-GivesUnmarked :
      (v : RevWalk)
      → IsNamed v
      → (v.get_next ≡ next_unsorted) ⊎ (v.get_next ≡ next_time_sort)
      → GivesUnmarked (take_next odb_read rounds v)
  unfolding take_next take_unsorted take_time_sort
  take_next-GivesUnmarked v named order = branch v.get_next order
    where
      branch :
          (n : GetNext)
          → (n ≡ next_unsorted) ⊎ (n ≡ next_time_sort)
          → GivesUnmarked (elim n as (λ _. RevWalk × Outcome GitError Oid) [
            | next_unsorted ↦ take_unsorted odb_read rounds v
            | next_time_sort ↦ take_time_sort odb_read rounds v
            | next_topology_sort ↦ take_topology_sort v
            | next_reverse ↦ take_reverse v
          ])
      branch next_unsorted e = next_unsorted_loop-GivesUnmarked _ v named
      branch next_time_sort e = next_time_sort_loop-GivesUnmarked v.time_iterator v named
      branch next_topology_sort (inl e) = cc
      branch next_topology_sort (inr e) = cc
      branch next_reverse (inl e) = cc
      branch next_reverse (inr e) = cc

-- Where a walk is under way in the unsorted order or in the order of time, and its nodes have their ids,
-- a commit that Next gives is not marked as hidden afterwards: neither it nor the reading of its parents
-- marks it, and a marked commit in the queue is passed over.
pub next-IsUnmarked :
    (odb_read : OdbRead) (rounds : ℕ) (v : RevWalk) (id : Oid)
    → v.walking ≡ true
    → IsNamed v
    → (v.get_next ≡ next_unsorted) ⊎ (v.get_next ≡ next_time_sort)
    → (next odb_read rounds v).1 ≡ ok id
    → (node_at (next odb_read rounds v).0.commits id).uninteresting ≡ false
unfolding next
next-IsUnmarked odb_read rounds v id walking named order gave =
    let step : next odb_read rounds v ≡ reset_at_end (take_next odb_read rounds v) =
      unfold continue in rw walking refl in
    let same = reset_at_end-ok (take_next odb_read rounds v) id (sym (ap (λ r. r.1) step) ∙ gave) in
    subst (λ r. (node_at r.0.commits id).uninteresting ≡ false) (sym (step ∙ same))
      (take_next-GivesUnmarked odb_read rounds v named order id
        (sym (ap (λ r. r.1) (step ∙ same)) ∙ gave)).unmarked

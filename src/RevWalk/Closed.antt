-- ===== src/RevWalk/Closed.antt =====
-- The operations of a walk in revwalk.go keep to a set of commits that holds their parents.
use git4go.Common.{
  ℕ, zero, suc, bit_and, ◌≡◌, refl, sym, subst, ◌∙◌, true, if◌then◌else◌, not, List, [], ◌∷◌, ◌==◌,
  All, All-append, Outcome, ok, err, panic, stuck, GitError, is_error_code, iter_over, increment,
}
use git4go.Common.Actions.{
  Action, lift, continue-ok, continue-eq-ok, Leaves, continue-Leaves, if-Leaves, get-Leaves,
  if-apply-Leaves, Gives, continue-Gives, Leaves-Gives,
}
use git4go.Oid.{Oid}
use git4go.RevWalk.State.{
  sort_topological, sort_reverse, GetNext, RevWalk, OdbRead, next_unsorted, next_time_sort,
  next_topology_sort, next_reverse,
}
use git4go.RevWalk.Iterators.{take_time_sort, take_unsorted}
use git4go.RevWalk.Walk.{
  take_topology_sort, take_reverse, until_over, take_next, for_each_next, process_input,
  prepare_topology, prepare_reverse, prepare_walk, next,
}
use git4go.RevWalk.Within.{IsClosed, Within, stays}
use git4go.RevWalk.Marked.{premark_uninteresting-Within}
use git4go.RevWalk.Resets.{reset_at_end-ok}
use git4go.RevWalk.Taken.{process_commit-Within, take_time_sort-Takes, take_unsorted-Takes}
use git4go.RevWalk.Orders.{
  count_child-Within, with_topology, with_reverse, with_next, next_topology_sort_loop-Takes,
  take_reverse-Takes,
}

module _ (P D : Oid → Type 0) (odb_read : OdbRead) (closed : IsClosed odb_read P) (rounds : ℕ) where
  take_next-Takes :
      (v : RevWalk) → Within P D v → Gives (Within P D) P (take_next odb_read rounds v)
  unfolding take_next take_topology_sort
  take_next-Takes v h = split v.get_next
    where
      split :
          (n : GetNext)
          → Gives (Within P D) P (elim n as (λ _. RevWalk × Outcome GitError Oid) [
            | next_unsorted ↦ take_unsorted odb_read rounds v
            | next_time_sort ↦ take_time_sort odb_read rounds v
            | next_topology_sort ↦ take_topology_sort v
            | next_reverse ↦ take_reverse v
          ])
      split next_unsorted = take_unsorted-Takes P D odb_read closed rounds v h
      split next_time_sort = take_time_sort-Takes P D odb_read closed rounds v h
      split next_topology_sort = next_topology_sort_loop-Takes P D _ v h
      split next_reverse = take_reverse-Takes P D v h

  for_each_next-Gives :
      (turns : ℕ) (body : Oid → Action RevWalk (Unit {0})) (v : RevWalk)
      → ((next : Oid) (w : RevWalk) → P next → Within P D w → Leaves (Within P D) (body next w))
      → Within P D v
      → Gives (Within P D) (λ (a : Unit {0}). Unit {0}) (for_each_next odb_read rounds turns body v)
  unfolding for_each_next
  for_each_next-Gives zero body v each h = record { leaves = h; gives = λ a eq. tt }
  for_each_next-Gives (suc turns) body v each h =
      continue-Gives (take_next-Takes v h) (λ next w p k.
        continue-Gives (Leaves-Gives (each next w p k))
          (λ a w' u k'. for_each_next-Gives turns body w' each k'))

  for_each_next-Within :
      (turns : ℕ) (body : Oid → Action RevWalk (Unit {0})) (v : RevWalk)
      → ((next : Oid) (w : RevWalk) → P next → Within P D w → Leaves (Within P D) (body next w))
      → Within P D v
      → Leaves (Within P D) (for_each_next odb_read rounds turns body v)
  for_each_next-Within turns body v each h = record {
    holds = (for_each_next-Gives turns body v each h).leaves;
  }

  until_over-Within :
      (r : RevWalk × Outcome GitError (Unit {0}))
      → Leaves (Within P D) r
      → Leaves (Within P D) (until_over r)
  unfolding until_over
  until_over-Within (v, ok a) h = stays P D h.holds
  until_over-Within (v, err e) h =
      if-Leaves (is_error_code e iter_over) (stays P D h.holds) (stays P D h.holds)
  until_over-Within (v, panic) h = stays P D h.holds
  until_over-Within (v, stuck) h = stays P D h.holds

  process_input-Within :
      (input : List Oid) (v : RevWalk)
      → All D input
      → Within P D v
      → Leaves (Within P D) (process_input odb_read rounds input v)
  unfolding process_input
  process_input-Within [] v ps h = stays P D h
  process_input-Within (commit ∷ input) v ps h = get-Leaves v _ (
      continue-Leaves
        (process_commit-Within P D odb_read closed rounds commit _ v (λ e. h.shown commit e ps.0) h)
        (λ a w k. process_input-Within input w ps.1 k))

  prepare_topology-Within :
      (v : RevWalk) → Within P D v → Leaves (Within P D) (prepare_topology odb_read rounds v)
  unfolding prepare_topology
  prepare_topology-Within v h =
      continue-Leaves
        (until_over-Within _ (
          for_each_next-Within rounds _ v
            (λ next w p k. get-Leaves w _ (
              continue-Leaves (count_child-Within P D increment _ w k) (λ a w' k'.
                stays P D (with_topology P D w' _ k' (All-append P _ _ k'.topology (p, tt))))))
            h))
        (λ a w k. stays P D (with_next P D w next_topology_sort w.walking k))

  prepare_reverse-Within :
      (v : RevWalk) → Within P D v → Leaves (Within P D) (prepare_reverse odb_read rounds v)
  unfolding prepare_reverse
  prepare_reverse-Within v h =
      continue-Leaves
        (until_over-Within _ (
          for_each_next-Within rounds _ v
            (λ next w p k. stays P D (with_reverse P D w _ k (All-append P _ _ k.reversed (p, tt))))
            h))
        (λ a w k. stays P D (with_next P D w next_reverse w.walking k))

  prepare_walk-Within :
      (v : RevWalk) → Within P D v → Leaves (Within P D) (prepare_walk odb_read rounds v)
  unfolding prepare_walk
  prepare_walk-Within v h = get-Leaves v _ (
      if-apply-Leaves (not v.did_push) _ _ v (stays P D h) (
        continue-Leaves
          (if-apply-Leaves v.did_hide _ _ v
            (premark_uninteresting-Within P D odb_read closed rounds v h) (stays P D h))
          (λ a w k. continue-Leaves (process_input-Within v.user_input w h.given k) (λ a' w' k'.
            continue-Leaves
              (if-apply-Leaves (bit_and v.sorting sort_topological == sort_topological) _ _ w'
                (prepare_topology-Within w' k') (stays P D k'))
              (λ a'' w'' k''.
                continue-Leaves
                  (if-apply-Leaves (bit_and v.sorting sort_reverse == sort_reverse) _ _ w''
                    (prepare_reverse-Within w'' k'') (stays P D k''))
                  (λ a''' u l. stays P D (with_next P D u u.get_next true l)))))))

  -- Where Next gives an id, the id has the property and the walk stays within its bounds.
  pub next-Within :
      (v : RevWalk) (id : Oid)
      → Within P D v
      → (next odb_read rounds v).1 ≡ ok id
      → P id × Within P D (next odb_read rounds v).0
  unfolding next
  next-Within v id h gave =
      let prepared : Leaves (Within P D)
          ((if v.walking then lift (ok tt) else prepare_walk odb_read rounds) v) =
        if-apply-Leaves v.walking _ _ v (stays P D h) (prepare_walk-Within v h) in
      let begin = continue-ok (v, ok v) _ refl in
      let (a, ready, rest) =
        continue-eq-ok ((if v.walking then lift (ok tt) else prepare_walk odb_read rounds) v) _
          (subst (λ r. r.1 ≡ ok id) begin gave) in
      let w = ((if v.walking then lift (ok tt) else prepare_walk odb_read rounds) v).0 in
      let taken = take_next-Takes w prepared.holds in
      let same = reset_at_end-ok (take_next odb_read rounds w) id rest in
      (
        taken.gives id (subst (λ r. r.1 ≡ ok id) same rest),
        subst (λ r. Within P D r.0) (sym (begin ∙ continue-ok _ _ ready ∙ same)) taken.leaves,
      )

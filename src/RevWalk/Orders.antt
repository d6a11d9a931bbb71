-- ===== src/RevWalk/Orders.antt =====
-- The topological and the reverse order of revwalk.go stay within the bounds of a walk.
use git4go.Common.{
  ℕ, zero, suc, ◌≡◌, refl, subst, Bool, true, ◌&&◌, Option, none, some, List, [], ◌∷◌,
  if◌then◌else◌, if_both, take, All, All-append, All-take, Outcome, ok-injective, ok, err, GitError,
  ℤ,
}
use git4go.Common.Actions.{
  Action, ◌>>◌, lift, modify, fail, Leaves, continue-Leaves, get-Leaves, if-apply-Leaves, Gives,
  continue-Gives, get-Gives, if-apply-Gives, Leaves-Gives,
}
use git4go.Oid.{Oid}
use git4go.RevWalk.Node.{node_at}
use git4go.RevWalk.State.{GetNext, RevWalk, modify_node}
use git4go.RevWalk.Mark.{pop_last}
use git4go.RevWalk.Iterators.{iteration_over}
use git4go.RevWalk.Walk.{
  count_child, is_positive, is_zero_degree, release_parents, next_topology_sort_loop, take_reverse,
  next,
}
use git4go.RevWalk.Within.{Within, stays, modify_node-Within}
use git4go.RevWalk.Taken.{pop_last-All}

module _ (P D : Oid → Type 0) where
  pub count_child-Within :
      (change : ℤ → ℤ) (parents : List Oid) (v : RevWalk)
      → Within P D v
      → Leaves (Within P D) (count_child change parents v)
  unfolding count_child
  count_child-Within change [] v h = stays P D h
  count_child-Within change (parent ∷ parents) v h =
      continue-Leaves (modify_node-Within P D parent _ v (λ node. (refl, refl, λ e. cc)) h)
        (λ a w k. count_child-Within change parents w k)

  -- A commit more in the topology iterator.
  pub with_topology :
      (v : RevWalk) (q : List Oid)
      → Within P D v
      → All P q
      → Within P D (record v { topology_iterator = q })
  with_topology v q h ps = record {
    named = h.named;
    lineage = h.lineage;
    given = h.given;
    shown = h.shown;
    rand = h.rand;
    time = h.time;
    topology = ps;
    reversed = h.reversed;
  }

  pub with_reverse :
      (v : RevWalk) (q : List Oid)
      → Within P D v
      → All P q
      → Within P D (record v { reverse_iterator = q })
  with_reverse v q h ps = record {
    named = h.named;
    lineage = h.lineage;
    given = h.given;
    shown = h.shown;
    rand = h.rand;
    time = h.time;
    topology = h.topology;
    reversed = ps;
  }

  -- A change of the walk's other fields.
  pub with_next :
      (v : RevWalk) (n : GetNext) (walking : Bool)
      → Within P D v
      → Within P D (record v { get_next = n; walking = walking })
  with_next v n walking h = record {
    named = h.named;
    lineage = h.lineage;
    given = h.given;
    shown = h.shown;
    rand = h.rand;
    time = h.time;
    topology = h.topology;
    reversed = h.reversed;
  }

  release_parents-Within :
      (parents : List Oid) (v : RevWalk)
      → All P parents
      → Within P D v
      → Leaves (Within P D) (release_parents parents v)
  unfolding release_parents
  release_parents-Within [] v ps h = stays P D h
  release_parents-Within (parent ∷ parents) v ps h =
      continue-Leaves (modify_node-Within P D parent _ v (λ node. (refl, refl, λ e. cc)) h)
        (λ a w k. get-Leaves w _ (
          continue-Leaves
            (if-apply-Leaves
              (is_zero_degree (node_at w.commits parent).in_degree
                && (node_at w.commits parent).topology_delay)
              _ _ w
              (continue-Leaves (modify_node-Within P D parent _ w (λ node. (refl, refl, λ e. cc)) k)
                (λ a' w' k'.
                  stays P D (with_topology w' _ k' (All-append P _ _ k'.topology (ps.0, tt)))))
              (stays P D k))
            (λ a' w' k'. release_parents-Within parents w' ps.1 k')))

  pub next_topology_sort_loop-Takes :
      (n : ℕ) (v : RevWalk) → Within P D v → Gives (Within P D) P (next_topology_sort_loop n v)
  unfolding next_topology_sort_loop
  next_topology_sort_loop-Takes zero v h = record { leaves = h; gives = λ a eq. cc }
  next_topology_sort_loop-Takes (suc n) v h =
      get-Gives v _
        (split v h (pop_last v.topology_iterator) refl (λ w k. next_topology_sort_loop-Takes n w k))
    where
      split :
          (w : RevWalk)
          → Within P D w
          → (popped : Option (List Oid × Oid)) → pop_last w.topology_iterator ≡ popped
          → ((u : RevWalk) → Within P D u → Gives (Within P D) P (next_topology_sort_loop n u))
          → Gives (Within P D) P (
              (elim popped as (λ _. Action RevWalk Oid) [
                | none ↦ fail iteration_over
                | some (q, next) ↦ (do
                  modify (λ u. record u { topology_iterator = q })
                  if is_positive (node_at w.commits next).in_degree
                      then (do
                        modify_node next (λ node. record node { topology_delay = true })
                        next_topology_sort_loop n)
                      else (do
                        release_parents (
                            if w.first_parent
                            then take 1 (node_at w.commits next).parents
                            else (node_at w.commits next).parents)
                        lift (ok next)))
              ])
                w)
      split w k none eq again = record { leaves = k; gives = λ a eq'. cc }
      split w k (some (q, next)) eq again =
          let (front, last) = pop_last-All P w.topology_iterator q next k.topology eq in
          continue-Gives (Leaves-Gives (stays P D (with_topology w q k front))) (λ a u t k'.
            if-apply-Gives (is_positive (node_at w.commits next).in_degree) _ _ u
              (continue-Gives
                (Leaves-Gives (modify_node-Within P D next _ u (λ node. (refl, refl, λ e. cc)) k'))
                (λ a' u' t' k''. again u' k''))
              (continue-Gives
                (Leaves-Gives (
                  release_parents-Within _ u
                    (if_both (All P) w.first_parent (All-take P 1 _ (k.lineage next last))
                      (k.lineage next last))
                    k'))
                (λ a' u' t' k''. record {
                  leaves = k'';
                  gives = λ b eq'. subst P (ok-injective eq') last;
                })))

  pub take_reverse-Takes : (v : RevWalk) → Within P D v → Gives (Within P D) P (take_reverse v)
  unfolding take_reverse
  take_reverse-Takes v h = split (pop_last v.reverse_iterator) refl
    where
      split :
          (popped : Option (List Oid × Oid))
          → pop_last v.reverse_iterator ≡ popped
          → Gives (Within P D) P (elim popped as (λ _. RevWalk × Outcome GitError Oid) [
            | none ↦ (v, err iteration_over)
            | some (q, next) ↦ (record v { reverse_iterator = q }, ok next)
          ])
      split none eq = record { leaves = h; gives = λ a eq'. cc }
      split (some (q, next)) eq =
          let (front, last) = pop_last-All P v.reverse_iterator q next h.reversed eq in
          record {
            leaves = with_reverse v q h front;
            gives = λ b eq'. subst P (ok-injective eq') last;
          }

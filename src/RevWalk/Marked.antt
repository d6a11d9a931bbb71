-- ===== src/RevWalk/Marked.antt =====
-- The marks of hidden commits in revwalk.go leave a walk within its bounds.
use git4go.Common.{
  ℕ, zero, suc, refl, Bool, Option, none, some, List, [], ◌∷◌, ◌++◌, if◌then◌else◌, ok,
}
use git4go.Common.Actions.{Action, lift, Leaves, continue-Leaves, get-Leaves, if-apply-Leaves}
use git4go.Oid.{Oid}
use git4go.RevWalk.Node.{node_at, interesting, interesting_arr}
use git4go.RevWalk.State.{RevWalk, OdbRead}
use git4go.RevWalk.Mark.{
  interesting_parents, pop_last, pop_first, mark_uninteresting_loop, mark_uninteresting,
  premark_parents, premark_loop, premark_input, premark_uninteresting,
}
use git4go.RevWalk.Within.{IsClosed, Within, stays, modify_node-Within, commit_list_parse-Within}

module _ (P D : Oid → Type 0) (odb_read : OdbRead) (closed : IsClosed odb_read P) where
  mark_uninteresting_loop-Within :
      (rounds : ℕ) (pending : List Oid) (commit : Oid) (v : RevWalk)
      → Within P D v
      → Leaves (Within P D) (mark_uninteresting_loop odb_read rounds pending commit v)
  unfolding mark_uninteresting_loop
  mark_uninteresting_loop-Within zero pending commit v h = stays P D h
  mark_uninteresting_loop-Within (suc rounds) pending commit v h =
      continue-Leaves (modify_node-Within P D commit _ v (λ node. (refl, refl, λ e. cc)) h)
        (λ a w k.
          continue-Leaves (commit_list_parse-Within P D odb_read closed commit w k) (λ a' w' k'.
            get-Leaves w' _ (
              step w' k' (λ front last. mark_uninteresting_loop-Within rounds front last w' k')
                (pop_last (
                  pending ++ interesting_parents w'.commits (node_at w'.commits commit).parents)))))
    where
      step :
          (w : RevWalk)
          → Within P D w
          → ((front : List Oid) (last : Oid)
              → Leaves (Within P D) (mark_uninteresting_loop odb_read rounds front last w))
          → (popped : Option (List Oid × Oid))
          → Leaves (Within P D) (
              (elim popped as (λ _. Action RevWalk (Unit {0})) [
                | none ↦ lift (ok tt)
                | some (front, last) ↦
                    let more = mark_uninteresting_loop odb_read rounds front last in
                    if interesting_arr w.commits front then lift (ok tt) else more
              ])
                w)
      step w k again none = stays P D k
      step w k again (some (front, last)) =
          if-apply-Leaves (interesting_arr w.commits front) _ _ w (stays P D k) (again front last)

  premark_parents-Within :
      (hidden : Bool) (parents q : List Oid) (v : RevWalk)
      → Within P D v
      → Leaves (Within P D) (premark_parents odb_read hidden parents q v)
  unfolding premark_parents
  premark_parents-Within hidden [] q v h = stays P D h
  premark_parents-Within hidden (parent ∷ parents) q v h =
      continue-Leaves (commit_list_parse-Within P D odb_read closed parent v h) (λ a w k.
        continue-Leaves
          (if-apply-Leaves hidden _ _ w
            (modify_node-Within P D parent _ w (λ node. (refl, refl, λ e. cc)) k) (stays P D k))
          (λ a' w' k'. get-Leaves w' _ (premark_parents-Within hidden parents _ w' k')))

  pop_first-Within :
      (q : List Oid) (body : Oid → List Oid → Action RevWalk (Unit {0})) (v : RevWalk)
      → Within P D v
      → ((commit : Oid) (rest : List Oid) → Leaves (Within P D) (body commit rest v))
      → Leaves (Within P D) (pop_first q body v)
  unfolding pop_first
  pop_first-Within [] body v h each = stays P D h
  pop_first-Within (commit ∷ rest) body v h each = each commit rest

  premark_loop-Within :
      (rounds : ℕ) (q : List Oid) (v : RevWalk)
      → Within P D v
      → Leaves (Within P D) (premark_loop odb_read rounds q v)
  unfolding premark_loop
  premark_loop-Within zero q v h = stays P D h
  premark_loop-Within (suc rounds) q v h = get-Leaves v _ (
      if-apply-Leaves (interesting v.commits q) _ _ v
        (pop_first-Within q _ v h (λ commit rest.
          continue-Leaves (premark_parents-Within _ _ rest v h)
            (λ q' w k. premark_loop-Within rounds q' w k)))
        (stays P D h))

  premark_input-Within :
      (input q : List Oid) (v : RevWalk)
      → Within P D v
      → Leaves (Within P D) (premark_input odb_read input q v)
  unfolding premark_input
  premark_input-Within [] q v h = stays P D h
  premark_input-Within (commit ∷ input) q v h =
      continue-Leaves (commit_list_parse-Within P D odb_read closed commit v h)
        (λ a w k. get-Leaves w _ (premark_input-Within input _ w k))

  pub premark_uninteresting-Within :
      (rounds : ℕ) (v : RevWalk)
      → Within P D v
      → Leaves (Within P D) (premark_uninteresting odb_read rounds v)
  unfolding premark_uninteresting
  premark_uninteresting-Within rounds v h = get-Leaves v _ (
      continue-Leaves (premark_input-Within v.user_input [] v h)
        (λ q w k. premark_loop-Within rounds q w k))

  pub mark_uninteresting-Within :
      (rounds : ℕ) (commit : Oid) (v : RevWalk)
      → Within P D v
      → Leaves (Within P D) (mark_uninteresting odb_read rounds commit v)
  unfolding mark_uninteresting
  mark_uninteresting-Within rounds commit v h = mark_uninteresting_loop-Within rounds [] commit v h

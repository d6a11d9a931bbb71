-- ===== src/RevWalk/Taken.antt =====
-- The commits that the iterators of revwalk.go take out of a walk are within its bounds.
use git4go.Common.{
  ℕ, zero, suc, ◌≡◌, refl, subst, Bool, true, false, if◌then◌else◌, Option, none, some, List, [],
  ◌∷◌, ◌++◌, if_both, All, All-append, All-take, Outcome, ok-injective, ok, err, GitError,
}
use git4go.Common.Actions.{
  Action, ◌>>◌, lift, modify, fail, Leaves, continue-Leaves, get-Leaves, if-apply-Leaves, Gives,
  continue-Gives, get-Gives, if-apply-Gives, Leaves-Gives,
}
use git4go.Common.Sorting.{sort_by-All}
use git4go.Oid.{Oid}
use git4go.RevWalk.Node.{node_at, insert_by_time}
use git4go.RevWalk.State.{Enqueue, RevWalk, OdbRead, enqueue_unsorted, enqueue_time_sort}
use git4go.RevWalk.Mark.{pop_last, push_front}
use git4go.RevWalk.Iterators.{
  iteration_over, enqueue_commit, process_commit, process_commits, process_commit_parents,
  unless_hidden, next_time_sort_loop, take_time_sort, next_unsorted_loop, take_unsorted,
}
use git4go.RevWalk.Within.{IsClosed, Within, stays, modify_node-Within, commit_list_parse-Within}
use git4go.RevWalk.Marked.{mark_uninteresting-Within}

abbrev Popped : (Oid → Type 0) → Option (List Oid × Oid) → Type 0
Popped P none = Unit {0}
Popped P (some (front, last)) = All P front × P last

push_front-Popped :
    (P : Oid → Type 0) (n : Oid) (popped : Option (List Oid × Oid))
    → P n
    → Popped P popped
    → Popped P (push_front n popped)
unfolding push_front
push_front-Popped P n none p h = (tt, p)
push_front-Popped P n (some (front, last)) p h = ((p, h.0), h.1)

pop_last-Popped : (P : Oid → Type 0) (q : List Oid) → All P q → Popped P (pop_last q)
unfolding pop_last
pop_last-Popped P [] h = tt
pop_last-Popped P (n ∷ q) h = push_front-Popped P n (pop_last q) h.0 (pop_last-Popped P q h.1)

pub pop_last-All :
    (P : Oid → Type 0) (q front : List Oid) (last : Oid)
    → All P q
    → pop_last q ≡ some (front, last)
    → All P front × P last
pop_last-All P q front last h e = subst (Popped P) e (pop_last-Popped P q h)

module _ (P D : Oid → Type 0) where
  enqueue_commit-Within :
      (commit : Oid) (v : RevWalk)
      → P commit
      → Within P D v
      → Leaves (Within P D) (enqueue_commit commit v)
  unfolding enqueue_commit insert_by_time
  enqueue_commit-Within commit v p h = split v.enqueue
    where
      split :
          (order : Enqueue)
          → Leaves (Within P D) (elim order as (λ _. RevWalk × Outcome GitError (Unit {0})) [
            | enqueue_unsorted ↦
                (record v { rand_iterator = v.rand_iterator ++ (commit ∷ []) }, ok tt)
            | enqueue_time_sort ↦ (
              record v { time_iterator = insert_by_time v.commits v.time_iterator commit },
              ok tt,
            )
          ])
      split enqueue_unsorted = stays P D (record {
        named = h.named;
        lineage = h.lineage;
        given = h.given;
        shown = h.shown;
        rand = All-append P _ _ h.rand (p, tt);
        time = h.time;
        topology = h.topology;
        reversed = h.reversed;
      })
      split enqueue_time_sort = stays P D (record {
        named = h.named;
        lineage = h.lineage;
        given = h.given;
        shown = h.shown;
        rand = h.rand;
        time = sort_by-All P _ _ (All-append P _ _ h.time (p, tt));
        topology = h.topology;
        reversed = h.reversed;
      })

  module _ (odb_read : OdbRead) (closed : IsClosed odb_read P) (rounds : ℕ) where
    pub process_commit-Within :
        (commit : Oid) (hide : Bool) (v : RevWalk)
        → (hide ≡ false → P commit)
        → Within P D v
        → Leaves (Within P D) (process_commit odb_read rounds commit hide v)
    unfolding process_commit
    process_commit-Within commit hide v p h =
        continue-Leaves
          (if-apply-Leaves hide _ _ v
            (mark_uninteresting-Within P D odb_read closed rounds commit v h) (stays P D h))
          (λ a w k. get-Leaves w _ (
            if-apply-Leaves (node_at w.commits commit).seen _ _ w (stays P D k) (
              continue-Leaves (modify_node-Within P D commit _ w (λ node. (refl, refl, λ e. cc)) k)
                (λ a' w' k'.
                  continue-Leaves (commit_list_parse-Within P D odb_read closed commit w' k')
                    (λ a'' w'' k''. enqueue_shown hide p w'' k'')))))
      where
        enqueue_shown :
            (hidden : Bool)
            → (hidden ≡ false → P commit)
            → (u : RevWalk) → Within P D u
            → Leaves (Within P D) ((if hidden then lift (ok tt) else enqueue_commit commit) u)
        enqueue_shown true q u k = stays P D k
        enqueue_shown false q u k = enqueue_commit-Within commit u (q refl) k

    process_commits-Within :
        (commits : List Oid) (hide : Bool) (v : RevWalk)
        → (hide ≡ false → All P commits)
        → Within P D v
        → Leaves (Within P D) (process_commits odb_read rounds commits hide v)
    unfolding process_commits
    process_commits-Within [] hide v ps h = stays P D h
    process_commits-Within (commit ∷ commits) hide v ps h =
        continue-Leaves (process_commit-Within commit hide v (λ e. (ps e).0) h)
          (λ a w k. process_commits-Within commits hide w (λ e. (ps e).1) k)

    process_commit_parents-Within :
        (commit : Oid) (v : RevWalk)
        → P commit
        → Within P D v
        → Leaves (Within P D) (process_commit_parents odb_read rounds commit v)
    unfolding process_commit_parents
    process_commit_parents-Within commit v p h = get-Leaves v _ (
        process_commits-Within _ _ v
          (λ e.
            if_both (All P) v.first_parent (All-take P 1 _ (h.lineage commit p))
              (h.lineage commit p))
          h)

    -- What an iterator gives.
    abbrev pub Takes : RevWalk × Outcome GitError Oid → Type 0
    Takes r = Gives (Within P D) P r

    over : (v : RevWalk) → Within P D v → Takes (v, err iteration_over)
    over v h = record { leaves = h; gives = λ a eq. cc }

    unless_hidden-Takes :
        (next : Oid) (more : Action RevWalk Oid) (v : RevWalk)
        → P next
        → Within P D v
        → Takes (more v)
        → Takes (unless_hidden odb_read rounds next more v)
    unfolding unless_hidden
    unless_hidden-Takes next more v p h rest = get-Gives v _ (
        if-apply-Gives (node_at v.commits next).uninteresting _ _ v rest (
          continue-Gives (Leaves-Gives (process_commit_parents-Within next v p h))
            (λ a w u k. record { leaves = k; gives = λ b eq. subst P (ok-injective eq) p })))

    next_time_sort_loop-Takes :
        (q : List Oid) (v : RevWalk)
        → All P q
        → Within P D v
        → Takes (next_time_sort_loop odb_read rounds q v)
    unfolding next_time_sort_loop
    next_time_sort_loop-Takes [] v ps h = over v h
    next_time_sort_loop-Takes (next ∷ q) v ps h =
        continue-Gives
          (Leaves-Gives (
            stays P D (record {
              named = h.named;
              lineage = h.lineage;
              given = h.given;
              shown = h.shown;
              rand = h.rand;
              time = ps.1;
              topology = h.topology;
              reversed = h.reversed;
            })))
          (λ a w u k. unless_hidden-Takes next _ w ps.0 k (next_time_sort_loop-Takes q w ps.1 k))

    pub take_time_sort-Takes :
        (v : RevWalk) → Within P D v → Takes (take_time_sort odb_read rounds v)
    unfolding take_time_sort
    take_time_sort-Takes v h = next_time_sort_loop-Takes v.time_iterator v h.time h

    next_unsorted_loop-Takes :
        (n : ℕ) (v : RevWalk) → Within P D v → Takes (next_unsorted_loop odb_read rounds n v)
    unfolding next_unsorted_loop
    next_unsorted_loop-Takes zero v h = over v h
    next_unsorted_loop-Takes (suc n) v h =
        get-Gives v _
          (split v h (pop_last v.rand_iterator) refl (λ w k. next_unsorted_loop-Takes n w k))
      where
        split :
            (w : RevWalk)
            → Within P D w
            → (popped : Option (List Oid × Oid)) → pop_last w.rand_iterator ≡ popped
            → ((u : RevWalk) → Within P D u → Takes (next_unsorted_loop odb_read rounds n u))
            → Takes (
                (elim popped as (λ _. Action RevWalk Oid) [
                  | none ↦ fail iteration_over
                  | some (q, next) ↦ (do
                    modify (λ u. record u { rand_iterator = q })
                    unless_hidden odb_read rounds next (next_unsorted_loop odb_read rounds n))
                ])
                  w)
        split w k none eq again = over w k
        split w k (some (q, next)) eq again =
            let (front, last) = pop_last-All P w.rand_iterator q next k.rand eq in
            continue-Gives
              (Leaves-Gives (
                stays P D (record {
                  named = k.named;
                  lineage = k.lineage;
                  given = k.given;
                  shown = k.shown;
                  rand = front;
                  time = k.time;
                  topology = k.topology;
                  reversed = k.reversed;
                })))
              (λ a u t k'. unless_hidden-Takes next _ u last k' (again u k'))

    pub take_unsorted-Takes : (v : RevWalk) → Within P D v → Takes (take_unsorted odb_read rounds v)
    unfolding take_unsorted
    take_unsorted-Takes v h = next_unsorted_loop-Takes _ v h

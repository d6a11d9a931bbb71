-- ===== src/RevWalk/Pushed.antt =====
-- Pushing and hiding in revwalk.go prepare a walk.
use git4go.Common.{
  ◌≡◌, refl, Bool, true, false, some, List, [], if◌then◌else◌, if_both, Outcome, ok, err, panic,
  stuck, GitError, bytes_equal, or_else, bytes_equal_sound,
}
use git4go.Common.Actions.{Leaves, continue-Leaves, get-Leaves, if-apply-Leaves}
use git4go.Oid.{Oid}
use git4go.RevWalk.Node.{CommitListNode, new_node, node_at, put_node}
use git4go.RevWalk.State.{RevWalk, new_walk, commit_lookup, modify_node}
use git4go.RevWalk.Walk.{push_commit_id, push_peeled, push_commit}
use git4go.RevWalk.Reachable.{IsNew}

fresh : {A : Type 0} {r : RevWalk × Outcome GitError A} → IsNew r.0 → Leaves IsNew r
fresh h = record { holds = h }

put_node-IsNew :
    (v : RevWalk) (node : CommitListNode)
    → node.parents ≡ []
    → IsNew v
    → IsNew (record v { commits = put_node v.commits node })
unfolding put_node node_at
put_node-IsNew v node empty h = record {
  named = λ oid. named (bytes_equal node.oid oid) oid (bytes_equal_sound node.oid oid);
  no_parents = λ oid. no_parents (bytes_equal node.oid oid) oid;
  no_rand = h.no_rand;
  no_time = h.no_time;
  no_topology = h.no_topology;
  no_reverse = h.no_reverse;
}
  where
    named :
        (b : Bool) (oid : Oid)
        → (b ≡ true → node.oid ≡ oid)
        → (or_else (if b then some node else v.commits oid) (new_node oid)).oid ≡ oid
    named true oid same = same refl
    named false oid same = h.named oid

    no_parents :
        (b : Bool) (oid : Oid)
        → (or_else (if b then some node else v.commits oid) (new_node oid)).parents ≡ []
    no_parents true oid = empty
    no_parents false oid = h.no_parents oid

pub new_walk-IsNew : IsNew new_walk
unfolding new_walk node_at new_node
new_walk-IsNew = record {
  named = λ oid. refl;
  no_parents = λ oid. refl;
  no_rand = refl;
  no_time = refl;
  no_topology = refl;
  no_reverse = refl;
}

with_flags :
    (v : RevWalk) (did_hide did_push : Bool) (input : List Oid)
    → IsNew v
    → IsNew (record v { did_hide = did_hide; did_push = did_push; user_input = input })
with_flags v did_hide did_push input h = record {
  named = h.named;
  no_parents = h.no_parents;
  no_rand = h.no_rand;
  no_time = h.no_time;
  no_topology = h.no_topology;
  no_reverse = h.no_reverse;
}

push_commit_id-IsNew :
    (commit : Oid) (hidden : Bool) (v : RevWalk)
    → IsNew v
    → Leaves IsNew (push_commit_id commit hidden v)
unfolding push_commit_id commit_lookup
push_commit_id-IsNew commit hidden v h =
    continue-Leaves (fresh (put_node-IsNew v (node_at v.commits commit) (h.no_parents commit) h))
      (λ a w k. get-Leaves w _ (
        if-apply-Leaves (node_at w.commits commit).uninteresting _ _ w (fresh k) (
          continue-Leaves
            (fresh (
              if_both IsNew hidden (with_flags w true w.did_push w.user_input k)
                (with_flags w w.did_hide true w.user_input k)))
            (λ a' w' k'.
              continue-Leaves (mark w' k')
                (λ a'' w'' k''. fresh (with_flags w'' w''.did_hide w''.did_push _ k''))))))
  where
    mark :
        (w : RevWalk)
        → IsNew w
        → Leaves IsNew (modify_node commit (λ node. record node { uninteresting = hidden }) w)
    mark w k =
        unfold modify_node in
        fresh (
          put_node-IsNew w (record (node_at w.commits commit) { uninteresting = hidden })
            (k.no_parents commit) k)

-- Push and Hide, with any result, leave a walk that has not begun as one that has not begun.
pub push_commit-IsNew :
    (lookup peel : Oid → Outcome GitError Oid) (oid : Oid) (hidden from_glob : Bool) (v : RevWalk)
    → IsNew v
    → IsNew (push_commit lookup peel oid hidden from_glob v).0
unfolding push_commit
push_commit-IsNew lookup peel oid hidden from_glob v h =
    (continue-Leaves (fresh h) (λ object w k. peeled (peel object) w k)).holds
  where
    peeled :
        (m : Outcome GitError Oid) (w : RevWalk)
        → IsNew w
        → Leaves IsNew (push_peeled m hidden from_glob w)
    peeled (ok commit) w k = unfold push_peeled in push_commit_id-IsNew commit hidden w k
    peeled (err e) w k = unfold push_peeled in if-apply-Leaves from_glob _ _ w (fresh k) (fresh k)
    peeled panic w k = unfold push_peeled in fresh k
    peeled stuck w k = unfold push_peeled in fresh k

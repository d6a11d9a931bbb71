-- ===== src/RevWalk/Reachable.antt =====
-- What Next of revwalk.go gives comes from the commits that were pushed.
use git4go.Common.{ℕ, suc, ◌≡◌, refl, sym, subst, false, some, List, [], ◌∷◌, get_elem?, All, ok}
use git4go.Oid.{Oid}
use git4go.Tree.Entries.{object_commit}
use git4go.RevWalk.Node.{node_at}
use git4go.RevWalk.Parse.{parse_parents}
use git4go.RevWalk.State.{RevWalk, OdbRead}
use git4go.RevWalk.Walk.{next}
use git4go.RevWalk.Within.{IsClosed, Within}
use git4go.RevWalk.Closed.{next-Within}

-- The commits that a walk has been given and that are not hidden, and those that the database lists as
-- the parents of such a commit, of its parents, and so on.
pub data Reachable (odb_read : OdbRead) (v : RevWalk) : Oid → Type 0 where
  pushed :
      (i : ℕ) (commit : Oid)
      → get_elem? v.user_input i ≡ some commit
      → (node_at v.commits commit).uninteresting ≡ false
      → Reachable odb_read v commit
  parent :
      (commit : Oid) (bytes : List ℕ) (ids : List Oid) (offset i : ℕ) (id : Oid)
      → Reachable odb_read v commit
      → odb_read commit ≡ ok (object_commit, bytes)
      → parse_parents bytes ≡ ok (ids, offset)
      → get_elem? ids i ≡ some id
      → Reachable odb_read v id

All-get_elem? :
    (P : Oid → Type 0) (l : List Oid) → ((i : ℕ) (x : Oid) → get_elem? l i ≡ some x → P x) → All P l
All-get_elem? P [] each = tt
All-get_elem? P (x ∷ l) each = (each 0 x refl, All-get_elem? P l (λ i y h. each (suc i) y h))

-- A walk that has been given commits and has not begun.
pub record IsNew (v : RevWalk) : Type 0 where
  pub named : (oid : Oid) → (node_at v.commits oid).oid ≡ oid
  pub no_parents : (oid : Oid) → (node_at v.commits oid).parents ≡ []
  pub no_rand : v.rand_iterator ≡ []
  pub no_time : v.time_iterator ≡ []
  pub no_topology : v.topology_iterator ≡ []
  pub no_reverse : v.reverse_iterator ≡ []

-- Calls of Next that give ids, one after the other.
pub data Walks (odb_read : OdbRead) (rounds : ℕ) : RevWalk → List Oid → RevWalk → Type 0 where
  at_start : (v : RevWalk) → Walks odb_read rounds v [] v
  more :
      (v w : RevWalk) (ids : List Oid) (id : Oid)
      → (next odb_read rounds v).1 ≡ ok id
      → Walks odb_read rounds (next odb_read rounds v).0 ids w
      → Walks odb_read rounds v (id ∷ ids) w

module _ (P D : Oid → Type 0) (odb_read : OdbRead) (closed : IsClosed odb_read P) (rounds : ℕ) where
  Walks-Within :
      {v w : RevWalk} {ids : List Oid} → Walks odb_read rounds v ids w → Within P D v → All P ids
  Walks-Within (at_start v) h = tt
  Walks-Within (more v w ids id gave rest) h =
      let taken = next-Within P D odb_read closed rounds v id h gave in
      (taken.0, Walks-Within rest taken.1)

pub Reachable-IsClosed :
    (odb_read : OdbRead) (v : RevWalk) → IsClosed odb_read (Reachable odb_read v)
Reachable-IsClosed odb_read v commit bytes ids offset h stored parsed =
    All-get_elem? (Reachable odb_read v) ids
      (λ i id here. parent commit bytes ids offset i id h stored parsed here)

abbrev pub Given : RevWalk → Oid → Type 0
Given v commit = (i : ℕ) × (get_elem? v.user_input i ≡ some commit)

-- A walk that has not begun is within the bounds of its commits.
pub IsNew-Within :
    (odb_read : OdbRead) (v : RevWalk) → IsNew v → Within (Reachable odb_read v) (Given v) v
IsNew-Within odb_read v fresh = record {
  named = fresh.named;
  lineage = λ oid p. subst (All (Reachable odb_read v)) (sym (fresh.no_parents oid)) tt;
  given = All-get_elem? (Given v) v.user_input (λ i commit here. (i, here));
  shown = λ oid e d. pushed d.0 oid d.1 e;
  rand = subst (All (Reachable odb_read v)) (sym fresh.no_rand) tt;
  time = subst (All (Reachable odb_read v)) (sym fresh.no_time) tt;
  topology = subst (All (Reachable odb_read v)) (sym fresh.no_topology) tt;
  reversed = subst (All (Reachable odb_read v)) (sym fresh.no_reverse) tt;
}

-- Whatever the orders are, each id that a walk's calls of Next give, from its beginning on, is a commit
-- that was given to it and is not hidden, or is reached from one by the parents in the database: what
-- only hidden commits lead to is not given.
pub Walks-Reachable :
    (odb_read : OdbRead) (rounds : ℕ) (v w : RevWalk) (ids : List Oid)
    → IsNew v
    → Walks odb_read rounds v ids w
    → All (Reachable odb_read v) ids
Walks-Reachable odb_read rounds v w ids fresh walked =
    Walks-Within (Reachable odb_read v) (Given v) odb_read (Reachable-IsClosed odb_read v) rounds
      walked (IsNew-Within odb_read v fresh)

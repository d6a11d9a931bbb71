-- ===== src/RevWalk/Within.antt =====
-- The steps of a walk of revwalk.go stay among the commits that the pushed ones lead to.
use git4go.Common.{
  ℕ, ◌≡◌, refl, sym, ap, ◌∙◌, subst, Bool, true, false, some, List, [], ◌∷◌, ◌++◌, if◌then◌else◌,
  All, All-append, Outcome, ok, GitError, message, bytes_equal, or_else, bytes_equal_sound,
}
use git4go.Common.Actions.{
  fail, Leaves, continue-Leaves, continue-eq-Leaves, get-Leaves, if-apply-Leaves,
}
use git4go.Oid.{Oid}
use git4go.Tree.Entries.{ObjectType, object_commit, object_tree, object_blob, object_tag}
use git4go.RevWalk.Node.{CommitListNode, new_node, node_at, put_node}
use git4go.RevWalk.Parse.{parse_parents}
use git4go.RevWalk.State.{
  RevWalk, commit_lookup, lookup_all, modify_node, commit_quick_parse, OdbRead, is_commit,
  commit_list_parse,
}

-- The parents of a commit in the database have a property that the commit has.
abbrev pub IsClosed : OdbRead → (Oid → Type 0) → Type 0
IsClosed odb_read P =
    (commit : Oid) (bytes : List ℕ) (ids : List Oid) (offset : ℕ)
    → P commit
    → odb_read commit ≡ ok (object_commit, bytes)
    → parse_parents bytes ≡ ok (ids, offset)
    → All P ids

-- All commits in the walk's queues have the property P, and with each commit the parents that it knows.
-- The user's commits are among some, D, of which those that are not marked have the property.
pub record Within (P D : Oid → Type 0) (v : RevWalk) : Type 0 where
  pub named : (oid : Oid) → (node_at v.commits oid).oid ≡ oid
  pub lineage : (oid : Oid) → P oid → All P (node_at v.commits oid).parents
  pub given : All D v.user_input
  pub shown : (oid : Oid) → (node_at v.commits oid).uninteresting ≡ false → D oid → P oid
  pub rand : All P v.rand_iterator
  pub time : All P v.time_iterator
  pub topology : All P v.topology_iterator
  pub reversed : All P v.reverse_iterator

module _ (P D : Oid → Type 0) where
  pub stays :
      {A : Type 0} {r : RevWalk × Outcome GitError A} → Within P D r.0 → Leaves (Within P D) r
  stays h = record { holds = h }

  -- A node in the place of another keeps the property if its own parents have it.
  pub put_node-Within :
      (v : RevWalk) (node : CommitListNode)
      → Within P D v
      → (P node.oid → All P node.parents)
      → (node.uninteresting ≡ false → D node.oid → P node.oid)
      → Within P D (record v { commits = put_node v.commits node })
  unfolding put_node node_at
  put_node-Within v node h own shows = record {
    named = λ oid. named (bytes_equal node.oid oid) oid (bytes_equal_sound node.oid oid);
    lineage = λ oid p. lineage (bytes_equal node.oid oid) oid p (bytes_equal_sound node.oid oid);
    given = h.given;
    shown = λ oid. shown (bytes_equal node.oid oid) oid (bytes_equal_sound node.oid oid);
    rand = h.rand;
    time = h.time;
    topology = h.topology;
    reversed = h.reversed;
  }
    where
      named :
          (b : Bool) (oid : Oid)
          → (b ≡ true → node.oid ≡ oid)
          → (or_else (if b then some node else v.commits oid) (new_node oid)).oid ≡ oid
      named true oid same = same refl
      named false oid same = h.named oid

      lineage :
          (b : Bool) (oid : Oid)
          → P oid
          → (b ≡ true → node.oid ≡ oid)
          → All P (or_else (if b then some node else v.commits oid) (new_node oid)).parents
      lineage true oid p same = own (subst P (sym (same refl)) p)
      lineage false oid p same = h.lineage oid p

      shown :
          (b : Bool) (oid : Oid)
          → (b ≡ true → node.oid ≡ oid)
          → (or_else (if b then some node else v.commits oid) (new_node oid)).uninteresting ≡ false
          → D oid
          → P oid
      shown true oid same e d = subst P (same refl) (shows e (subst D (sym (same refl)) d))
      shown false oid same e d = h.shown oid e d

  -- A change of a node that leaves its id, its parents and the mark of a hidden commit.
  pub modify_node-Within :
      (oid : Oid) (f : CommitListNode → CommitListNode) (v : RevWalk)
      → ((node : CommitListNode)
          → ((f node).oid ≡ node.oid)
            × ((f node).parents ≡ node.parents)
            × ((f node).uninteresting ≡ false → node.uninteresting ≡ false))
      → Within P D v
      → Leaves (Within P D) (modify_node oid f v)
  unfolding modify_node
  modify_node-Within oid f v same h =
      let node = node_at v.commits oid in
      stays (
        put_node-Within v (f node) h
          (λ p.
            subst (All P) (sym (same node).1)
              (h.lineage oid (subst P ((same node).0 ∙ h.named oid) p)))
          (λ e d.
            subst P (sym ((same node).0 ∙ h.named oid))
              (h.shown oid ((same node).2 e) (subst D ((same node).0 ∙ h.named oid) d))))

  lookup_all-Within : (v : RevWalk) (ids : List Oid) → Within P D v → Within P D (lookup_all v ids)
  unfolding lookup_all commit_lookup
  lookup_all-Within v [] h = h
  lookup_all-Within v (oid ∷ ids) h = lookup_all-Within (commit_lookup v oid) ids (
      put_node-Within v (node_at v.commits oid) h
        (λ p.
          subst (λ o. P o → All P (node_at v.commits oid).parents) (sym (h.named oid))
            (h.lineage oid) p)
        (λ e d. subst P (sym (h.named oid)) (h.shown oid e (subst D (h.named oid) d))))

  commit_quick_parse-Within :
      (commit : Oid) (bytes : List ℕ) (v : RevWalk)
      → ((ids : List Oid) (offset : ℕ)
          → parse_parents bytes ≡ ok (ids, offset)
          → P commit
          → All P ids)
      → Within P D v
      → Leaves (Within P D) (commit_quick_parse commit bytes v)
  unfolding commit_quick_parse
  commit_quick_parse-Within commit bytes v known h =
      continue-eq-Leaves (v, parse_parents bytes) _ h
        (λ found eq. continue-Leaves (stays (lookup_all-Within v found.0 h)) (λ a w k.
          continue-Leaves (add_parents found.0 found.1 eq w k) (λ a' w' k'.
            continue-Leaves (stays k') (λ time w'' k''.
              modify_node-Within commit _ w'' (λ node. (refl, refl, λ e. cc)) k''))))
    where
      add_parents :
          (ids : List Oid) (offset : ℕ)
          → parse_parents bytes ≡ ok (ids, offset)
          → (w : RevWalk) → Within P D w
          → Leaves
              (Within P D)
              (modify_node commit (λ node. record node { parents = node.parents ++ ids }) w)
      add_parents ids offset eq w k =
          unfold modify_node in
          let node = node_at w.commits commit in
          stays (
            put_node-Within w (record node { parents = node.parents ++ ids }) k
              (λ p.
                let p' = subst P (k.named commit) p in
                All-append P node.parents ids (k.lineage commit p') (known ids offset eq p'))
              (λ e d.
                subst P (sym (k.named commit)) (k.shown commit e (subst D (k.named commit) d))))

  module _ (odb_read : OdbRead) (closed : IsClosed odb_read P) where
    commit_type : (t : ObjectType) → is_commit t ≡ true → t ≡ object_commit
    unfolding is_commit
    commit_type object_commit h = refl
    commit_type object_tree h = cc
    commit_type object_blob h = cc
    commit_type object_tag h = cc

    pub commit_list_parse-Within :
        (commit : Oid) (v : RevWalk)
        → Within P D v
        → Leaves (Within P D) (commit_list_parse odb_read commit v)
    unfolding commit_list_parse
    commit_list_parse-Within commit v h = get-Leaves v _ (
        if-apply-Leaves (node_at v.commits commit).parsed _ _ v (stays h) (
          continue-eq-Leaves (v, odb_read commit) _ h
            (λ found eq. split found.0 found.1 eq (is_commit found.0) refl)))
      where
        split :
            (t : ObjectType) (bytes : List ℕ)
            → odb_read commit ≡ ok (t, bytes)
            → (b : Bool) → is_commit t ≡ b
            → Leaves (Within P D) (
                (if b
                    then commit_quick_parse commit bytes
                    else fail (message "Object is no commit object"))
                  v)
        split t bytes eq true e =
            commit_quick_parse-Within commit bytes v
              (λ ids offset parsed p.
                closed commit bytes ids offset p (eq ∙ ap (λ o. ok (o, bytes)) (commit_type t e))
                  parsed)
              h
        split t bytes eq false e = stays h

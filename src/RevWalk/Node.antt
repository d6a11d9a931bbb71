-- ===== src/RevWalk/Node.antt =====
-- commitlist.go: what a walk knows of a commit, and the lists of commits.
use git4go.Common.{
  ℕ, bit_and, Bool, true, false, not, Option, some, List, [], ◌∷◌, ◌++◌, ltb, ◌==◌, if◌then◌else◌,
  bytes_equal, or_else, ℤ, pos,
}
use git4go.Common.Sorting.{sort_by}
use git4go.Oid.{Oid}

abbrev pub stale : ℕ
stale = 8

-- A node stands in its walk's map under its id, by which the other nodes point to it.
pub record CommitListNode : Type 0 where
  pub oid : Oid
  pub time : ℕ
  pub seen : Bool
  pub uninteresting : Bool
  pub topology_delay : Bool
  pub parsed : Bool
  pub in_degree : ℤ
  pub flags : ℕ
  pub parents : List Oid

-- The node that commitLookup makes.
unfoldable pub new_node : Oid → CommitListNode
new_node oid = record {
  oid = oid;
  time = 0;
  seen = false;
  uninteresting = false;
  topology_delay = false;
  parsed = false;
  in_degree = pos 0;
  flags = 0;
  parents = [];
}

-- The map of commits.
abbrev pub Commits : Type 0
Commits = Oid → Option CommitListNode

-- The node behind a pointer. Every pointer of a walk is in its map.
unfoldable pub node_at : Commits → Oid → CommitListNode
unfolding new_node
node_at commits oid = or_else (commits oid) (new_node oid)

-- The map with a node in the place of its id.
unfoldable pub put_node : Commits → CommitListNode → Commits
unfolding bytes_equal
put_node commits node oid = if bytes_equal node.oid oid then some node else commits oid

-- commitListNodes, the lists of pointers.
abbrev pub CommitListNodes : Type 0
CommitListNodes = List Oid

module _ (commits : Commits) where
  unfoldable pub interesting : CommitListNodes → Bool
  unfolding node_at
  interesting [] = false
  interesting (commit ∷ q) =
      let rest = interesting q in
      if bit_and (node_at commits commit).flags stale == 0 then true else rest

  unfoldable pub interesting_arr : CommitListNodes → Bool
  unfolding node_at
  interesting_arr [] = false
  interesting_arr (n ∷ q) =
      let rest = interesting_arr q in if not (node_at commits n).uninteresting then true else rest

  -- Less: the later commit is first.
  unfoldable pub later : Oid → Oid → Bool
  unfolding node_at
  later a b = ltb (node_at commits b).time (node_at commits a).time

  unfoldable pub insert_by_time : CommitListNodes → Oid → CommitListNodes
  unfolding later sort_by
  insert_by_time q commit = sort_by later (q ++ (commit ∷ []))

unfoldable pub contains : CommitListNodes → Oid → Bool
unfolding bytes_equal
contains [] node = false
contains (commit ∷ q) node =
    let rest = contains q node in if bytes_equal commit node then true else rest

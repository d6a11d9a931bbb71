-- ===== src/RevWalk/State.antt =====
-- The state of a walk of revwalk.go, its commits and their parsing.
use git4go.Common.{
  ℕ, bit_and, Bool, true, false, not, Option, none, some, List, [], ◌∷◌, ◌++◌, ◌==◌, if◌then◌else◌,
  Outcome, ok, GitError, message, pos,
}
use git4go.Common.Actions.{Action, ◌>>=◌, ◌>>◌, lift, get, modify, fail}
use git4go.Oid.{Oid}
use git4go.Tree.Entries.{ObjectType, object_commit, object_tree, object_blob, object_tag}
use git4go.RevWalk.Node.{CommitListNode, Commits, node_at, put_node, CommitListNodes}
use git4go.RevWalk.Parse.{parse_parents, parse_time}

abbrev pub sort_topological : ℕ
sort_topological = 2

abbrev pub sort_time : ℕ
sort_time = 4

abbrev pub sort_reverse : ℕ
sort_reverse = 8

-- The functions that getNext can be, of which the first two have an enqueue of their own.
pub data GetNext : Type 0 where
  next_unsorted next_time_sort next_topology_sort next_reverse : GetNext

pub data Enqueue : Type 0 where
  enqueue_unsorted enqueue_time_sort : Enqueue

pub record RevWalk : Type 0 where
  pub commits : Commits
  pub topology_iterator : CommitListNodes
  pub rand_iterator : CommitListNodes
  pub reverse_iterator : CommitListNodes
  pub time_iterator : CommitListNodes
  pub user_input : CommitListNodes
  pub get_next : GetNext
  pub enqueue : Enqueue
  pub walking : Bool
  pub first_parent : Bool
  pub did_hide : Bool
  pub did_push : Bool
  pub sorting : ℕ

-- Repository.Walk.
unfoldable pub new_walk : RevWalk
new_walk = record {
  commits = λ oid. none;
  topology_iterator = [];
  rand_iterator = [];
  reverse_iterator = [];
  time_iterator = [];
  user_input = [];
  get_next = next_unsorted;
  enqueue = enqueue_unsorted;
  walking = false;
  first_parent = false;
  did_hide = false;
  did_push = false;
  sorting = 0;
}

-- What Reset does to a node.
unfoldable pub reset_node : CommitListNode → CommitListNode
reset_node node = record node {
  seen = false;
  in_degree = pos 0;
  topology_delay = false;
  uninteresting = false;
  flags = 0;
}

unfoldable pub map_node :
    (CommitListNode → CommitListNode) → Option CommitListNode → Option CommitListNode
map_node f none = none
map_node f (some node) = some (f node)

-- Reset leaves the topology iterator and didHide as they are.
unfoldable pub reset : RevWalk → RevWalk
reset v = record v {
  commits = λ oid. map_node reset_node (v.commits oid);
  time_iterator = [];
  rand_iterator = [];
  reverse_iterator = [];
  user_input = [];
  first_parent = false;
  walking = false;
  did_push = false;
}

unfoldable pub set_sorting : RevWalk → (sm : ℕ) → RevWalk
set_sorting v sm =
    let w = (if v.walking then reset v else v) in
    if not (bit_and sm sort_time == 0)
    then record w { sorting = sm; get_next = next_time_sort; enqueue = enqueue_time_sort }
    else record w { sorting = sm; get_next = next_unsorted; enqueue = enqueue_unsorted }

-- commitLookup: the node of the id is in the map afterwards.
unfoldable pub commit_lookup : RevWalk → Oid → RevWalk
commit_lookup v oid = record v { commits = put_node v.commits (node_at v.commits oid) }

unfoldable pub lookup_all : RevWalk → List Oid → RevWalk
lookup_all v [] = v
lookup_all v (oid ∷ oids) = lookup_all (commit_lookup v oid) oids

-- An assignment to fields of the node behind a pointer.
unfoldable pub modify_node : Oid → (CommitListNode → CommitListNode) → Action RevWalk (Unit {0})
modify_node oid f v = (record v { commits = put_node v.commits (f (node_at v.commits oid)) }, ok tt)

-- commitQuickParse: the parents stay where the time cannot be read.
unfoldable pub commit_quick_parse : (commit : Oid) (bytes : List ℕ) → Action RevWalk (Unit {0})
commit_quick_parse commit bytes = do
  (ids, offset) ← lift (parse_parents bytes)
  modify (λ v. lookup_all v ids)
  modify_node commit (λ node. record node { parents = node.parents ++ ids })
  time ← lift (parse_time bytes offset)
  modify_node commit (λ node. record node { time = time; parsed = true })

-- The Read of the object database.
abbrev pub OdbRead : Type 0
OdbRead = Oid → Outcome GitError (ObjectType × List ℕ)

unfoldable pub is_commit : ObjectType → Bool
is_commit object_commit = true
is_commit object_tree = false
is_commit object_blob = false
is_commit object_tag = false

unfoldable pub commit_list_parse : OdbRead → (commit : Oid) → Action RevWalk (Unit {0})
commit_list_parse odb_read commit = do
  v ← get
  if (node_at v.commits commit).parsed then lift (ok tt) else (do
    (object_type, bytes) ← lift (odb_read commit)
    if is_commit object_type
        then commit_quick_parse commit bytes
        else fail (message "Object is no commit object"))

-- ===== src/RevWalk/Examples.antt =====
-- Runs of revwalk.go.
use git4go.Common.{
  ℕ, ◌≡◌, refl, true, false, inl, List, [], ◌∷◌, if◌then◌else◌, replicate, All, Outcome, ok, err,
  codes, GitError, is_error_code, iter_over, git_error, bytes_equal,
}
use git4go.Common.Actions.{continue}
use git4go.Oid.{Oid}
use git4go.Tree.Entries.{object_commit}
use git4go.RevWalk.Node.{new_node, node_at, put_node}
use git4go.RevWalk.Parse.{parse_parents, parse_time}
use git4go.RevWalk.State.{
  RevWalk, new_walk, next_unsorted, reset, commit_lookup, lookup_all, modify_node,
  commit_quick_parse, OdbRead, is_commit, commit_list_parse,
}
use git4go.RevWalk.Mark.{push_front, pop_last}
use git4go.RevWalk.Iterators.{
  enqueue_commit, process_commit, process_commits, process_commit_parents, unless_hidden,
  next_unsorted_loop, take_unsorted,
}
use git4go.RevWalk.Walk.{
  reset_at_end, take_next, process_input, prepare_walk, next, push_commit_id, push_peeled,
  push_commit,
}
use git4go.RevWalk.Reachable.{
  Reachable, IsNew, Walks, Walks-Reachable, at_start, more, Given, Reachable-IsClosed, IsNew-Within,
}
use git4go.RevWalk.Closed.{next-Within}
use git4go.RevWalk.Unmarked.{next-IsUnmarked}
use git4go.RevWalk.Pushed.{new_walk-IsNew, push_commit-IsNew}

abbrev child_id : Oid
child_id = replicate 20 0x11

abbrev parent_id : Oid
parent_id = replicate 20 0x22

-- The bytes of two commits, of which the first has the second as its parent.
abbrev child_bytes : List ℕ
child_bytes =
    codes
      "tree 3333333333333333333333333333333333333333\nparent 2222222222222222222222222222222222222222\nauthor a\ncommitter c 20 +0\n"

abbrev parent_bytes : List ℕ
parent_bytes = codes "tree 3333333333333333333333333333333333333333\nauthor a\ncommitter c 10 +0\n"

abbrev two_commits : OdbRead
two_commits oid =
    if bytes_equal oid child_id
    then ok (object_commit, child_bytes)
    else ok (object_commit, parent_bytes)

abbrev itself : Oid → Outcome GitError Oid
itself oid = ok oid

abbrev pushed : RevWalk
pushed = (push_commit itself itself child_id false false new_walk).0

-- Tests.
parse_run : parse_parents child_bytes ≡ ok (parent_id ∷ [], 94)
unfolding parse_parents
parse_run = refl

time_run : parse_time child_bytes 94 ≡ ok 20
unfolding parse_time
time_run = refl

first_run : (next two_commits 5 pushed).1 ≡ ok child_id
unfolding next prepare_walk take_next reset_at_end process_input process_commit push_commit
    push_peeled push_commit_id commit_lookup modify_node node_at put_node new_node new_walk
    commit_list_parse commit_quick_parse parse_parents parse_time lookup_all is_commit
    enqueue_commit take_unsorted next_unsorted_loop pop_last push_front unless_hidden
    process_commit_parents process_commits is_error_code reset continue bytes_equal
first_run = refl

abbrev after_first : RevWalk
after_first = (next two_commits 5 pushed).0

second_run : (next two_commits 5 after_first).1 ≡ ok parent_id
unfolding next prepare_walk take_next reset_at_end process_input process_commit push_commit
    push_peeled push_commit_id commit_lookup modify_node node_at put_node new_node new_walk
    commit_list_parse commit_quick_parse parse_parents parse_time lookup_all is_commit
    enqueue_commit take_unsorted next_unsorted_loop pop_last push_front unless_hidden
    process_commit_parents process_commits is_error_code reset continue bytes_equal
second_run = refl

third_run : (next two_commits 5 (next two_commits 5 after_first).0).1 ≡ err (git_error iter_over)
unfolding next prepare_walk take_next reset_at_end process_input process_commit push_commit
    push_peeled push_commit_id commit_lookup modify_node node_at put_node new_node new_walk
    commit_list_parse commit_quick_parse parse_parents parse_time lookup_all is_commit
    enqueue_commit take_unsorted next_unsorted_loop pop_last push_front unless_hidden
    process_commit_parents process_commits is_error_code reset continue bytes_equal
third_run = refl

pushed-IsNew : IsNew pushed
pushed-IsNew = push_commit-IsNew itself itself child_id false false new_walk new_walk-IsNew

walked : Walks two_commits 5 pushed (child_id ∷ parent_id ∷ []) (next two_commits 5 after_first).0
walked =
    more pushed _ _ child_id first_run
      (more after_first _ _ parent_id second_run (at_start (next two_commits 5 after_first).0))

-- Witnesses.
Walks-Reachable_example : All (Reachable two_commits pushed) (child_id ∷ parent_id ∷ [])
Walks-Reachable_example =
    Walks-Reachable two_commits 5 pushed (next two_commits 5 after_first).0
      (child_id ∷ parent_id ∷ []) pushed-IsNew walked

after_first-named : (oid : Oid) → (node_at after_first.commits oid).oid ≡ oid
after_first-named =
    (next-Within (Reachable two_commits pushed) (Given pushed) two_commits
      (Reachable-IsClosed two_commits pushed) 5 pushed child_id
      (IsNew-Within two_commits pushed pushed-IsNew) first_run).1.named

after_first_state : (after_first.walking ≡ true) × (after_first.get_next ≡ next_unsorted)
unfolding next prepare_walk take_next reset_at_end process_input process_commit push_commit
    push_peeled push_commit_id commit_lookup modify_node node_at put_node new_node new_walk
    commit_list_parse commit_quick_parse parse_parents parse_time lookup_all is_commit
    enqueue_commit take_unsorted next_unsorted_loop pop_last push_front unless_hidden
    process_commit_parents process_commits is_error_code reset continue bytes_equal
after_first_state = (refl, refl)

next-IsUnmarked_example :
    (node_at (next two_commits 5 after_first).0.commits parent_id).uninteresting ≡ false
next-IsUnmarked_example =
    next-IsUnmarked two_commits 5 after_first parent_id after_first_state.0 after_first-named
      (inl after_first_state.1) second_run

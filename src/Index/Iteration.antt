-- ===== src/Index/Iteration.antt =====
-- The conflicts that index.go finds among sorted entries.
use git4go.Common.{
  ℕ, ◌+◌, ◌≡◌, refl, sym, ap, ap₂, ◌∙◌, Bool, true, false, Option, none, some, List, [], ◌∷◌, ◌++◌,
  append-nil, append_assoc, arith, ◌==◌, if◌then◌else◌, length, drop, All, length-append,
  drop-append_self, Outcome, ok, err, GitError, iter_over, git_error, bytes_equal, bytes_equal_self,
}
use git4go.Index.Entry.{stage_ancestor, stage_ours, stage_theirs, IndexEntry, stage, is_conflict}
use git4go.Index.Store.{Index}
use git4go.Index.Conflicts.{
  IndexConflict, no_conflict, add_stage, other_path, conflict_loop, get_conflict_by_index,
  IndexConflictIterator, next_loop, next,
}
use git4go.Index.Flags.{stage-lt}

-- The last entry at a stage.
pub last_at : (s : ℕ) → List IndexEntry → Option IndexEntry
last_at s [] = none
last_at s (entry ∷ entries) = elim (last_at s entries) [
  | some found ↦ some found
  | none ↦ if stage entry == s then some entry else none
]

pub count_conflicts : List IndexEntry → ℕ
count_conflicts [] = 0
count_conflicts (entry ∷ entries) = (if is_conflict entry then 1 else 0) + count_conflicts entries

-- The conflict that the entries of one path make up.
pub conflict_of : List IndexEntry → IndexConflict
conflict_of group = record {
  ancestor = last_at stage_ancestor group;
  our = last_at stage_ours group;
  their = last_at stage_theirs group;
}

-- The entries that follow are of another path.
abbrev pub BeginsOther : List ℕ → List IndexEntry → Type 0
BeginsOther path [] = Unit {0}
BeginsOther path (entry ∷ entries) = bytes_equal entry.path path ≡ false

abbrev pub HasPath : List ℕ → IndexEntry → Type 0
HasPath path entry = entry.path ≡ path

or_old : Option IndexEntry → Option IndexEntry → Option IndexEntry
or_old none old = old
or_old (some found) old = some found

-- What a group adds to a result.
collected : List IndexEntry → IndexConflict × ℕ → IndexConflict × ℕ
collected group (result, n) = (
  record {
    ancestor = or_old (last_at stage_ancestor group) result.ancestor;
    our = or_old (last_at stage_ours group) result.our;
    their = or_old (last_at stage_theirs group) result.their;
  },
  n + count_conflicts group,
)

or_old-cons :
    (found : Option IndexEntry) (b : Bool) (entry : IndexEntry) (old : Option IndexEntry)
    → or_old (elim found [ some found ↦ some found | none ↦ if b then some entry else none ]) old
      ≡ or_old found (if b then some entry else old)
unfolding or_old
or_old-cons (some found) b entry old = refl
or_old-cons none true entry old = refl
or_old-cons none false entry old = refl

collected-add_stage :
    (entry : IndexEntry) (group : List IndexEntry) (result : IndexConflict × ℕ)
    → collected group (add_stage entry result) ≡ collected (entry ∷ group) result
unfolding collected add_stage last_at count_conflicts is_conflict
collected-add_stage entry group (result, n) =
    rw (or_old-cons (last_at 1 group) (stage entry == 1) entry result.ancestor) (
      rw (or_old-cons (last_at 2 group) (stage entry == 2) entry result.our) (
        rw (or_old-cons (last_at 3 group) (stage entry == 3) entry result.their)
          (ground (arith, stage-lt entry))))

-- The loop takes the entries of the path, and stops behind them.
conflict_loop_group :
    (path : List ℕ) (group rest : List IndexEntry) (result : IndexConflict × ℕ)
    → bytes_equal path [] ≡ false
    → All (HasPath path) group
    → BeginsOther path rest
    → conflict_loop path (group ++ rest) result ≡ collected group result
unfolding conflict_loop other_path
conflict_loop_group path [] [] result named same other =
    unfold collected count_conflicts last_at or_old in ground arith
conflict_loop_group path [] (entry ∷ rest) result named same other =
    rw (named, other) (unfold collected count_conflicts last_at or_old in ground arith)
conflict_loop_group path (entry ∷ group) rest result named same other =
    simp (named, same.0, bytes_equal_self)
      (conflict_loop_group path group rest (add_stage entry result) named same.1 other
        ∙ collected-add_stage entry group result)

-- From the beginning of a path's entries on.
conflict_loop_start :
    (path : List ℕ) (entry : IndexEntry) (group rest : List IndexEntry)
    → bytes_equal path [] ≡ false
    → All (HasPath path) (entry ∷ group)
    → BeginsOther path rest
    → conflict_loop [] ((entry ∷ group) ++ rest) (no_conflict, 0)
      ≡ (conflict_of (entry ∷ group), count_conflicts (entry ∷ group))
unfolding conflict_loop other_path or_old collected conflict_of
conflict_loop_start path entry group rest named same other = simp same.0 (
    conflict_loop_group path group rest (add_stage entry (no_conflict, 0)) named same.1 other
    ∙ collected-add_stage entry group (no_conflict, 0)
    ∙ whole (entry ∷ group))
  where
    or_old_none : (found : Option IndexEntry) → or_old found none ≡ found
    or_old_none (some found) = refl
    or_old_none none = refl

    whole :
        (l : List IndexEntry) → collected l (no_conflict, 0) ≡ (conflict_of l, count_conflicts l)
    whole l = ap₂ (λ (c : IndexConflict) (n : ℕ). (c, n)) fields (omega arith)
      where
        fields : (collected l (no_conflict, 0)).0 ≡ conflict_of l
        fields =
            rw (or_old_none (last_at 1 l), or_old_none (last_at 2 l), or_old_none (last_at 3 l))
              refl

-- Where an index has all its entries of a path in a row, getConflictByIndex at the first of them gives
-- the last of them at each of the stages 1 to 3, and how many have such a stage.
pub get_conflict_by_index_group :
    (v : Index) (front group rest : List IndexEntry) (entry : IndexEntry) (path : List ℕ)
    → v.entries ≡ front ++ ((entry ∷ group) ++ rest)
    → bytes_equal path [] ≡ false
    → All (HasPath path) (entry ∷ group)
    → BeginsOther path rest
    → get_conflict_by_index v (length front)
      ≡ ok (conflict_of (entry ∷ group), count_conflicts (entry ∷ group))
unfolding get_conflict_by_index
get_conflict_by_index_group v front group rest entry path whole named same other =
    simp (whole, drop-append_self, conflict_loop_start path entry group rest named same other)
      (ground (arith, length-append front ((entry ∷ group) ++ rest)))

abbrev pub AtStage0 : IndexEntry → Type 0
AtStage0 entry = is_conflict entry ≡ false

abbrev pub InConflict : IndexEntry → Type 0
InConflict entry = is_conflict entry ≡ true

count_conflicts-All :
    (group : List IndexEntry) → All InConflict group → count_conflicts group ≡ length group
unfolding count_conflicts
count_conflicts-All [] h = refl
count_conflicts-All (entry ∷ group) h = rw h.0 (omega (arith, count_conflicts-All group h.1))

-- The loop passes over entries at stage 0.
next_loop_skipped :
    (v : Index) (cursor : ℕ) (skipped entries : List IndexEntry)
    → All AtStage0 skipped
    → next_loop v cursor (skipped ++ entries) ≡ next_loop v (cursor + length skipped) entries
unfolding next_loop
next_loop_skipped v cursor [] entries h = ap (λ k. next_loop v k entries) (omega arith)
next_loop_skipped v cursor (entry ∷ skipped) entries h = rw h.0 (
    next_loop_skipped v (cursor + 1) skipped entries h.1
    ∙ ap (λ k. next_loop v k entries) (omega arith))

next_loop_conflict :
    (v : Index) (front group rest : List IndexEntry) (entry : IndexEntry) (path : List ℕ)
    → v.entries ≡ front ++ ((entry ∷ group) ++ rest)
    → bytes_equal path [] ≡ false
    → All (HasPath path) (entry ∷ group)
    → All InConflict (entry ∷ group)
    → BeginsOther path rest
    → next_loop v (length front) ((entry ∷ group) ++ rest)
      ≡ (length front + length (entry ∷ group), ok (conflict_of (entry ∷ group)))
unfolding next_loop
next_loop_conflict v front group rest entry path whole named same conflicts other = rw conflicts.0 (
    rw (get_conflict_by_index_group v front group rest entry path whole named same other) (
      ap (λ (n : ℕ). (length front + n, ok (conflict_of (entry ∷ group))))
        (count_conflicts-All (entry ∷ group) conflicts)))

-- Next passes over entries at stage 0 and gives the conflict of the path that follows; the cursor is
-- then behind all entries of that path, which are in a row and at stages from 1 on.
pub next-conflict_of :
    (iter : IndexConflictIterator) (front skipped group rest : List IndexEntry) (entry : IndexEntry)
    (path : List ℕ)
    → iter.index.entries ≡ front ++ (skipped ++ ((entry ∷ group) ++ rest))
    → iter.cursor ≡ length front
    → All AtStage0 skipped
    → bytes_equal path [] ≡ false
    → All (HasPath path) (entry ∷ group)
    → All InConflict (entry ∷ group)
    → BeginsOther path rest
    → next iter ≡ (
      record iter { cursor = length front + length skipped + length (entry ∷ group) },
      ok (conflict_of (entry ∷ group)),
    )
unfolding next
next-conflict_of iter front skipped group rest entry path whole at passed named same conflicts
      other =
    ap (λ (p : ℕ × Outcome GitError IndexConflict). (record iter { cursor = p.0 }, p.1))
      (ap₂ (next_loop iter.index) at (ap₂ drop at whole ∙ drop-append_self front _)
        ∙ next_loop_skipped iter.index (length front) skipped _ passed
        ∙ ap (λ k. next_loop iter.index k ((entry ∷ group) ++ rest))
            (sym (length-append front skipped))
        ∙ next_loop_conflict iter.index (front ++ skipped) group rest entry path
            (whole ∙ sym (append_assoc front skipped _)) named same conflicts other
        ∙ ap (λ (n : ℕ). (n + length (entry ∷ group), ok (conflict_of (entry ∷ group))))
            (length-append front skipped))

-- Where no entry from the cursor on is at a stage other than 0, Next says that the iteration is over and
-- leaves the cursor at the end.
pub next-iter_over :
    (iter : IndexConflictIterator) (front rest : List IndexEntry)
    → iter.index.entries ≡ front ++ rest
    → iter.cursor ≡ length front
    → All AtStage0 rest
    → next iter ≡ (record iter { cursor = length iter.index.entries }, err (git_error iter_over))
unfolding next
next-iter_over iter front rest whole at passed =
    ap (λ (p : ℕ × Outcome GitError IndexConflict). (record iter { cursor = p.0 }, p.1))
      (ap₂ (next_loop iter.index) at (ap₂ drop at whole ∙ drop-append_self front rest)
        ∙ ap (next_loop iter.index (length front)) (sym (append-nil rest))
        ∙ next_loop_skipped iter.index (length front) rest [] passed
        ∙ unfold next_loop in
          ap (λ (n : ℕ). (n, err (git_error iter_over)))
            (sym (length-append front rest) ∙ ap length (sym whole)))

-- ===== src/RevWalk/Resets.antt =====
-- The end of Next in revwalk.go.
use git4go.Common.{
  ◌≡◌, ◌≢◌, refl, Bool, true, false, if◌then◌else◌, Outcome, ok, err, panic, stuck, GitError,
  is_error_code, iter_over,
}
use git4go.Oid.{Oid}
use git4go.RevWalk.State.{RevWalk, reset}
use git4go.RevWalk.Walk.{reset_at_end}

-- An iteration that is not over leaves the walk as it is.
pub reset_at_end-ok :
    (r : RevWalk × Outcome GitError Oid) (id : Oid)
    → (reset_at_end r).1 ≡ ok id
    → reset_at_end r ≡ r
unfolding reset_at_end
reset_at_end-ok (v, ok a) id h = refl
reset_at_end-ok (v, err e) id h = absurd (failed (is_error_code e iter_over) h)
  where
    failed :
        (b : Bool)
        → (if◌then◌else◌ {A = RevWalk × Outcome GitError Oid} b (reset v, err e) (v, err e)).1
          ≢ ok id
    failed true = λ q. cc
    failed false = λ q. cc
reset_at_end-ok (v, panic) id h = refl
reset_at_end-ok (v, stuck) id h = refl

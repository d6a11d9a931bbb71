-- ===== src/Fnmatch/Examples.antt =====
-- Runs of fnmatch.go.
use git4go.Common.{
  ◌≡◌, refl, ◌≢◌, true, false, ◌∷◌, replicate, ok, panic, stuck, codes, bytes_equal,
}
use git4go.Fnmatch.Fold.{fnm_path_name, fnm_case_fold}
use git4go.Fnmatch.Match.{fn_match}
use git4go.Fnmatch.Ends.{fn_match-ne-stuck}
use git4go.Fnmatch.Plain.{fn_match_plain, fn_match_stars}

-- Tests.
question_run : fn_match (codes "a?c") (codes "abc") 0 ≡ ok true
unfolding fn_match
question_run = refl

star_run : fn_match (codes "*.go") (codes "oid.go") 0 ≡ ok true
unfolding fn_match
star_run = refl

folded_run : fn_match (codes "ABC") (codes "abc") fnm_case_fold ≡ ok true
unfolding fn_match
folded_run = refl

slash_run : fn_match (codes "a*c") (codes "a/c") fnm_path_name ≡ ok false
unfolding fn_match
slash_run = refl

-- The character that the brackets match is not passed over.
brackets_run : fn_match (codes "[ab]") (codes "a") 0 ≡ ok false
unfolding fn_match
brackets_run = refl

-- Witnesses.
fn_match_plain_example :
    fn_match (codes "ab") (codes "abc") 0 ≡ ok (bytes_equal (codes "ab") (codes "abc"))
fn_match_plain_example =
    fn_match_plain (codes "ab") (codes "abc")
      ((refl, refl, refl, refl), ((refl, refl, refl, refl), tt))

fn_match_stars_example : fn_match (42 ∷ 42 ∷ replicate 1 42) (codes "a") 0 ≡ panic
fn_match_stars_example = fn_match_stars 1 (codes "a") 0

fn_match-ne-stuck_example : fn_match (codes "[a-c]*") (codes "b/d") fnm_path_name ≢ stuck
fn_match-ne-stuck_example = fn_match-ne-stuck (codes "[a-c]*") (codes "b/d") fnm_path_name

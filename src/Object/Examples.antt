-- ===== src/Object/Examples.antt =====
-- A signature and a commit with two parents, read by signature.go and commit.go.
use git4go.Common.{
  ◌≡◌, refl, false, some, [], ◌∷◌, ◌++◌, arith, ok, codes, ℤ, ◌+ℤ◌, pos, panic, bytes_equal,
  bytes_compare, slice_range, negate, times, quotient, remainder, replicate,
}
use git4go.RefDb.{trim_space, trim_left}
use git4go.RevWalk.Parse.{all_digits, decimal_value, is_digit}
use git4go.Object.Signature.{
  signed_digits, parse_int64, parse_signature, scan_line, within_line, read_line, name_and_email,
  when_at, is_zone,
}
use git4go.Object.Signature.Text.{Signed, IsSigned, signed_text}
use git4go.Object.Signature.RoundTrip.{signature_of, parse_signature-zone_text}
use git4go.Object.Commit.{Commit, new_commit, parent, nth_gen_ancestor}
use git4go.Object.Commit.Ancestors.{nth_gen_ancestor-new_commit}
use git4go.Object.Commit.RoundTrip.{new_commit-commit_text}
use git4go.Object.Commit.Text.{Written, IsWritten, commit_text}

-- A machine in a zone two hours ahead.
abbrev two_hours : ℤ → ℤ
two_hours seconds = pos 7200

abbrev ann : Signed
ann = record {
  name = codes "Ann B";
  email = codes "a@b";
  first = 49;
  digits = codes "23";
  zone = codes "+0100";
}

ann-IsSigned : IsSigned ann
unfolding trim_space trim_left
ann-IsSigned = record {
  plain_name = omega arith;
  plain_email = omega arith;
  plain_first = omega arith;
  plain_digits = omega arith;
  plain_zone = omega arith;
  trim_name = refl;
  trim_email = refl;
  trim_zone = refl;
}

ann_seconds : parse_int64 (codes "123") ≡ (pos 123, false)
unfolding parse_int64 signed_digits all_digits decimal_value is_digit
ann_seconds = refl

-- The time of a line is moved by the machine's zone: the second 123 becomes the second 3723.
ann_time :
    when_at two_hours (pos 123) (parse_int64 (codes "+0100")).0
    ≡ record { seconds = pos 3723; zone = some (pos 3600) }
unfolding when_at is_zone quotient remainder times ◌+ℤ◌ negate parse_int64 signed_digits all_digits
    decimal_value is_digit
ann_time = refl

parse_signature-zone_text_example :
    parse_signature two_hours
      (record {
        elems = codes "x" ++ (codes "author " ++ (signed_text ann ++ (10 ∷ codes "y")));
        spare = [];
      })
      1
      (codes "author ")
    ≡ ok (
      record {
        name = codes "Ann B";
        email = codes "a@b";
        when = record { seconds = pos 3723; zone = some (pos 3600) };
      },
      30,
    )
unfolding ◌+ℤ◌ negate
parse_signature-zone_text_example =
    parse_signature-zone_text two_hours ann (codes "x") (codes "author ") (codes "y") [] (pos 123)
      false 1 0 ann-IsSigned (omega arith) ann_seconds refl (omega arith) (omega arith)

abbrev written : Written
written = record {
  tree = replicate 20 17;
  parent_ids = replicate 20 34 ∷ (replicate 20 51 ∷ []);
  author = ann;
  committer = ann;
  body = codes "Add a file";
}

written-IsWritten : IsWritten written
written-IsWritten = record {
  tree_is = (refl, omega arith);
  parents_are = ((refl, omega arith), ((refl, omega arith), tt));
  author_is = ann-IsSigned;
  committer_is = ann-IsSigned;
}

abbrev commit : Commit
commit = record {
  oid = replicate 20 68;
  message = 10 ∷ codes "Add a file";
  tree_id = some (replicate 20 17);
  author = signature_of two_hours ann (pos 123);
  committer = signature_of two_hours ann (pos 123);
  parents = [];
}

new_commit-commit_text_example :
    new_commit two_hours (replicate 20 68) (record { elems = commit_text written; spare = [] })
    ≡ ok commit
new_commit-commit_text_example =
    new_commit-commit_text two_hours (replicate 20 68) written [] (pos 123) (pos 123)
      written-IsWritten ann_seconds ann_seconds

nth_gen_ancestor-new_commit_example : nth_gen_ancestor (λ id. some commit) 2 commit ≡ panic
nth_gen_ancestor-new_commit_example =
    nth_gen_ancestor-new_commit (λ id. some commit) 1 two_hours (replicate 20 68)
      (record { elems = commit_text written; spare = [] }) commit
      (new_commit-commit_text two_hours (replicate 20 68) written [] (pos 123) (pos 123)
        written-IsWritten ann_seconds ann_seconds)

-- The first ancestor of a commit with a parent is that parent.
ancestor_run :
    nth_gen_ancestor (λ id. some commit) 1 (record commit { parents = replicate 20 34 ∷ [] })
    ≡ ok commit
unfolding nth_gen_ancestor parent
ancestor_run = refl

-- Without a name there is no byte between the prefix and the e-mail, which is a panic.
parse_signature_no_name :
    parse_signature two_hours
      (record { elems = codes "author <a@b> 123 +0100\n"; spare = [] })
      0
      (codes "author ")
    ≡ panic
unfolding parse_signature scan_line within_line slice_range bytes_equal bytes_compare read_line
    name_and_email
parse_signature_no_name = refl

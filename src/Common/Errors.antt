-- ===== src/Common/Errors.antt =====
-- Go's errors: one made by errors.New with its message, one made by MakeGitError of git.go with its
-- code, and the two kinds that the standard library returns, whose texts are not modelled.
use Prim.Native.String.{String}
use mathlib.Core.Path.{◌≡◌}
use mathlib.Core.Bool.{Bool, true, false}
use mathlib.Core.Option.{Option, none, some}
use git4go.Common.Outcomes.{Outcome, ok, err}

-- The codes of git.go.
pub data ErrorCode : Type 0 where
  not_found bare_repository directory iter_over : ErrorCode

pub data GitError : Type 0 where
  message : String → GitError
  git_error : ErrorCode → GitError
  from_hex : GitError
  from_strconv : GitError

-- `if err != nil { return nil, err }`.
abbrev pub or_error {ℓ κ} : {A : Type ℓ} {E : Type κ} → Option A → E → Outcome E A
or_error none e = err e
or_error (some a) e = ok a

pub or_error-eq-ok {ℓ κ} :
    {A : Type ℓ} {E : Type κ} (o : Option A) (e : E) {a : A} → or_error o e ≡ ok a → o ≡ some a
or_error-eq-ok none e h = cc
or_error-eq-ok (some b) e h = cc

-- IsErrorCode of git.go, for an error that is not nil.
unfoldable pub is_error_code : GitError → ErrorCode → Bool
is_error_code (git_error not_found) not_found = true
is_error_code (git_error bare_repository) bare_repository = true
is_error_code (git_error directory) directory = true
is_error_code (git_error iter_over) iter_over = true
is_error_code e code = false

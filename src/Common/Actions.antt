-- ===== src/Common/Actions.antt =====
-- A Go method that changes its receiver: the state that it leaves, also where it fails, and its
-- outcome.
use mathlib.Core.Bool.{Bool, true, false}
use mathlib.Core.Path.{◌≡◌, refl, ap}
use git4go.Common.Tests.{if◌then◌else◌}
use git4go.Common.Outcomes.{Outcome, ok, err, panic, stuck, ok-injective}
use git4go.Common.Errors.{GitError}

abbrev pub Action : Type 0 → Type 0 → Type 0
Action S A = S → S × Outcome GitError A

-- What follows a call, from the state that the call leaves.
unfoldable pub continue :
    {S A B : Type 0} → S × Outcome GitError A → (A → Action S B) → S × Outcome GitError B
continue (s, ok a) next = next a s
continue (s, err e) next = (s, err e)
continue (s, panic) next = (s, panic)
continue (s, stuck) next = (s, stuck)

infixl 5 ◌>>=◌ ◌>>◌
abbrev pub ◌>>=◌ : {S A B : Type 0} → Action S A → (A → Action S B) → Action S B
◌>>=◌ first next s = continue (first s) next

abbrev pub ◌>>◌ : {S A B : Type 0} → Action S A → Action S B → Action S B
◌>>◌ first second s = continue (first s) (λ _. second)

-- A result that leaves the state as it is.
abbrev pub lift : {S A : Type 0} → Outcome GitError A → Action S A
lift m s = (s, m)

-- The receiver, an assignment to its fields, and `return`.
abbrev pub get : {S : Type 0} → Action S S
get s = (s, ok s)

abbrev pub modify : {S : Type 0} → (S → S) → Action S (Unit {0})
modify f s = (f s, ok tt)

abbrev pub fail : {S A : Type 0} → GitError → Action S A
fail e s = (s, err e)

module _ {S A B : Type 0} where
  -- What a call is followed by, where its outcome is known.
  pub continue-ok :
      (r : S × Outcome GitError A) (next : A → Action S B) {a : A}
      → r.1 ≡ ok a
      → continue r next ≡ next a r.0
  unfolding continue
  continue-ok (s, ok b) next e = ap (λ c. next c s) (ok-injective e)
  continue-ok (s, err b) next e = cc
  continue-ok (s, panic) next e = cc
  continue-ok (s, stuck) next e = cc

  pub continue-panic :
      (r : S × Outcome GitError A) (next : A → Action S B)
      → r.1 ≡ panic
      → continue r next ≡ (r.0, panic)
  unfolding continue
  continue-panic (s, panic) next e = refl
  continue-panic (s, ok b) next e = cc
  continue-panic (s, err b) next e = cc
  continue-panic (s, stuck) next e = cc

  -- A chain that succeeds did so step by step.
  pub continue-eq-ok :
      (r : S × Outcome GitError A) (next : A → Action S B) {b : B}
      → (continue r next).1 ≡ ok b
      → (a : A) × (r.1 ≡ ok a) × ((next a r.0).1 ≡ ok b)
  unfolding continue
  continue-eq-ok (s, ok a) next e = (a, refl, e)
  continue-eq-ok (s, err a) next e = cc
  continue-eq-ok (s, panic) next e = cc
  continue-eq-ok (s, stuck) next e = cc

-- A property of the state that holds after a call, however the call ends.
pub record Leaves {S A : Type 0} (P : S → Type 0) (r : S × Outcome GitError A) : Type 0 where
  pub holds : P r.0

module _ {S A B : Type 0} {P : S → Type 0} where
  pub continue-Leaves :
      {r : S × Outcome GitError A} {next : A → Action S B}
      → Leaves P r
      → ((a : A) (s : S) → P s → Leaves P (next a s))
      → Leaves P (continue r next)
  unfolding continue
  continue-Leaves {r = r} {next = next} h rest = record { holds = after r h.holds }
    where
      after : (r : S × Outcome GitError A) → P r.0 → P (continue r next).0
      after (s, ok a) p = (rest a s p).holds
      after (s, err a) p = p
      after (s, panic) p = p
      after (s, stuck) p = p

pub if-Leaves :
    {S A : Type 0} {P : S → Type 0} (b : Bool) {x y : S × Outcome GitError A}
    → Leaves P x
    → Leaves P y
    → Leaves P (if b then x else y)
if-Leaves true h k = h
if-Leaves false h k = k

-- The same, with the equation that the first call ends by.
pub continue-eq-Leaves :
    {S A B : Type 0} {P : S → Type 0} (r : S × Outcome GitError A) (next : A → Action S B)
    → P r.0
    → ((a : A) → r.1 ≡ ok a → Leaves P (next a r.0))
    → Leaves P (continue r next)
unfolding continue
continue-eq-Leaves (s, ok a) next h rest = rest a refl
continue-eq-Leaves (s, err e) next h rest = record { holds = h }
continue-eq-Leaves (s, panic) next h rest = record { holds = h }
continue-eq-Leaves (s, stuck) next h rest = record { holds = h }

-- Behind a look at the state.
pub get-Leaves :
    {S B : Type 0} {P : S → Type 0} (s : S) (next : S → Action S B)
    → Leaves P (next s s)
    → Leaves P (continue (s, ok s) next)
unfolding continue
get-Leaves s next h = h

-- The same for a branch between two actions.
pub if-apply-Leaves :
    {S A : Type 0} {P : S → Type 0} (b : Bool) (x y : Action S A) (s : S)
    → Leaves P (x s)
    → Leaves P (y s)
    → Leaves P ((if b then x else y) s)
if-apply-Leaves true x y s h k = h
if-apply-Leaves false x y s h k = k

-- A call that leaves a property of the state and gives a value with a property of its own.
pub record Gives {S A : Type 0} (P : S → Type 0) (Q : A → Type 0) (r : S × Outcome GitError A)
    : Type 0 where
  pub leaves : P r.0
  pub gives : (a : A) → r.1 ≡ ok a → Q a

module _ {S A B : Type 0} {P : S → Type 0} {Q : B → Type 0} where
  pub continue-Gives :
      {R : A → Type 0} {r : S × Outcome GitError A} {next : A → Action S B}
      → Gives P R r
      → ((a : A) (s : S) → R a → P s → Gives P Q (next a s))
      → Gives P Q (continue r next)
  unfolding continue
  continue-Gives {R = R} {r = r} {next = next} h rest = after r h
    where
      after : (r : S × Outcome GitError A) → Gives P R r → Gives P Q (continue r next)
      after (s, ok a) h = rest a s (h.gives a refl) h.leaves
      after (s, err e) h = record { leaves = h.leaves; gives = λ a eq. cc }
      after (s, panic) h = record { leaves = h.leaves; gives = λ a eq. cc }
      after (s, stuck) h = record { leaves = h.leaves; gives = λ a eq. cc }

module _ {S B : Type 0} {P : S → Type 0} {Q : B → Type 0} where
  pub get-Gives :
      (s : S) (next : S → Action S B) → Gives P Q (next s s) → Gives P Q (continue (s, ok s) next)
  unfolding continue
  get-Gives s next h = h

  pub if-apply-Gives :
      (b : Bool) (x y : Action S B) (s : S)
      → Gives P Q (x s)
      → Gives P Q (y s)
      → Gives P Q ((if b then x else y) s)
  if-apply-Gives true x y s h k = h
  if-apply-Gives false x y s h k = k

-- A call whose value is of no account.
pub Leaves-Gives :
    {S A : Type 0} {P : S → Type 0} {r : S × Outcome GitError A}
    → Leaves P r
    → Gives P (λ (a : A). Unit {0}) r
Leaves-Gives h = record { leaves = h.holds; gives = λ a eq. tt }

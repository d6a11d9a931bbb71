-- ===== src/Common/Tests.antt =====
-- Boolean tests on the native numbers and the split on a computed Boolean.
use Prim.Native.Nat.{ℕ, zero, suc, ◌≤◌, ◌<◌, compare, Ordering}
use mathlib.Core.Path.{◌≡◌, refl, subst}
use mathlib.Core.Logic.{◌⊎◌, inl, inr, ◌↔◌, ◌≢◌}
use mathlib.Core.Bool.{Bool, true, false, ◌&&◌, ◌||◌}
use native.Mathlib.Omega.{arith}
use native.Mathlib.Decide.{dec_lt}

abbrev pub ltb : ℕ → ℕ → Bool
ltb a b = elim (compare a b) [ Ordering.lt ↦ true | _ ↦ false ]

abbrev pub leb : ℕ → ℕ → Bool
leb a b = elim (compare a b) [ Ordering.gt ↦ false | _ ↦ true ]

infix 50 ◌==◌
abbrev pub ◌==◌ : ℕ → ℕ → Bool
a == b = elim (compare a b) [ Ordering.eq ↦ true | _ ↦ false ]

infix 1 if◌then◌else◌
abbrev pub if◌then◌else◌ {ℓ} : {A : Type ℓ} → Bool → A → A → A
if true then x else y = x
if false then x else y = y

pub Bool-cases : (b : Bool) → (b ≡ true) ⊎ (b ≡ false)
Bool-cases true = inl refl
Bool-cases false = inr refl

pub or_cases : (a b : Bool) → a || b ≡ true → (a ≡ true) ⊎ (b ≡ true)
or_cases true b h = inl refl
or_cases false b h = inr h

pub ==_iff : (a b : ℕ) → (a == b ≡ true) ↔ (a ≡ b)
==_iff a b = (λ h. ground arith, λ h. ground arith)

pub ltb→lt : (a b : ℕ) → ltb a b ≡ true → a < b
ltb→lt a b h = ground arith

pub lt→ltb : (a b : ℕ) → a < b → ltb a b ≡ true
lt→ltb a b h = ground arith

pub not_ltb→le : (a b : ℕ) → ltb a b ≡ false → b ≤ a
not_ltb→le a b h = ground arith

pub le→not_ltb : (a b : ℕ) → b ≤ a → ltb a b ≡ false
le→not_ltb a b h = ground arith

pub ne_test : (a b : ℕ) → a ≢ b → (a == b) ≡ false
ne_test a b h = ground arith

pub ruleset tests = (arith, ltb→lt, not_ltb→le)

-- Does a test hold of every number below a bound?
unfoldable pub holds_below : (test : ℕ → Bool) (bound : ℕ) → Bool
holds_below test (suc bound) = holds_below test bound && test bound
holds_below test zero = true

both : (p q : Bool) → p && q ≡ true → (p ≡ true) × (q ≡ true)
both true true h = (refl, refl)
both true false h = cc
both false q h = cc

pub holds_below_at :
    (test : ℕ → Bool) {bound : ℕ}
    → holds_below test bound ≡ true
    → (x : ℕ) → x < bound
    → test x ≡ true
unfolding holds_below
holds_below_at test {bound = zero} h x inside = absurd (omega arith)
holds_below_at test {bound = suc bound} h x inside =
    let (before, last) = both _ _ h in
    elim (dec_lt x bound) [
      | yes k ↦ holds_below_at test before x k
      | no k ↦ subst (λ (t : ℕ). test t ≡ true) (omega arith) last
    ]

-- What holds of both branches holds of the whole.
pub if_both {ℓ κ} :
    {A : Type ℓ} (P : A → Type κ) (b : Bool) {x y : A} → P x → P y → P (if b then x else y)
if_both P true p q = p
if_both P false p q = q

-- Two tests that do not both hold may be made in either order.
pub if_swap {ℓ} :
    {A : Type ℓ} (p q : Bool) (a b c : A)
    → p && q ≡ false
    → (if p then a else if q then b else c) ≡ (if q then b else if p then a else c)
if_swap true true a b c h = cc
if_swap true false a b c h = refl
if_swap false true a b c h = refl
if_swap false false a b c h = refl

pub if_split {ℓ κ} :
    {A : Type ℓ} (P : A → Type κ) (b : Bool) {x y : A}
    → (b ≡ true → P x)
    → (b ≡ false → P y)
    → P (if b then x else y)
if_split P true p q = p refl
if_split P false p q = q refl

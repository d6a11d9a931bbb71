-- ===== src/Common/Outcomes.antt =====
-- What a Go call can do: return a value, return an error, or panic. `stuck` is no Go behaviour: a
-- loop of the model ran out of fuel.
use mathlib.Core.Path.{◌≡◌, refl, subst}
use mathlib.Core.Logic.{◌≢◌}

pub data Outcome {ℓ κ} (E : Type κ) (A : Type ℓ) : Type (ℓ ⊔ κ) where
  ok : A → Outcome E A
  err : E → Outcome E A
  panic : Outcome E A
  stuck : Outcome E A

infixl 5 ◌>>=◌
abbrev pub ◌>>=◌ {κ ι ℓ} :
    {A : Type ℓ} {E : Type ι} {B : Type κ} → Outcome E A → (A → Outcome E B) → Outcome E B
stuck >>= next = stuck
panic >>= next = panic
err why >>= next = err why
ok value >>= next = next value

module _ {ℓ κ ι} {E : Type ι} {A : Type ℓ} {B : Type κ} where
  -- A chain that succeeds did so step by step.
  pub >>=-eq-ok :
      (m : Outcome E A) (next : A → Outcome E B) {b : B}
      → (m >>= next) ≡ ok b
      → (a : A) × (m ≡ ok a) × (next a ≡ ok b)
  >>=-eq-ok stuck next eq = cc
  >>=-eq-ok panic next eq = cc
  >>=-eq-ok (err why) next eq = cc
  >>=-eq-ok (ok value) next eq = (value, refl, eq)

  -- A chain is stuck only where one of its steps is.
  pub >>=-ne-stuck :
      (m : Outcome E A) (next : A → Outcome E B)
      → m ≢ stuck
      → ((a : A) → m ≡ ok a → next a ≢ stuck)
      → (m >>= next) ≢ stuck
  >>=-ne-stuck stuck next first rest = absurd (first refl)
  >>=-ne-stuck panic next first rest = λ p. cc
  >>=-ne-stuck (err why) next first rest = λ p. cc
  >>=-ne-stuck (ok value) next first rest = rest value refl

pub ok-injective {ℓ κ} :
    {E : Type κ} {A : Type ℓ} {a b : A} → ◌≡◌ {A = Outcome E A} (ok a) (ok b) → a ≡ b
ok-injective h = cc

-- A call that ends, with a value of which `P` holds if it has one.
abbrev pub Ends {ℓ κ} : {E : Type κ} {A : Type ℓ} → (A → Type 0) → Outcome E A → Type 0
Ends P (ok value) = P value
Ends P (err why) = Unit {0}
Ends P panic = Unit {0}
Ends P stuck = ⊥

module _ {ℓ κ ι} {E : Type ι} {A : Type ℓ} {B : Type κ} where
  pub >>=-Ends :
      (P : A → Type 0) (Q : B → Type 0) (m : Outcome E A) (next : A → Outcome E B)
      → Ends P m
      → ((a : A) → P a → Ends Q (next a))
      → Ends Q (m >>= next)
  >>=-Ends P Q (ok a) next first rest = rest a first
  >>=-Ends P Q (err why) next first rest = tt
  >>=-Ends P Q panic next first rest = tt
  >>=-Ends P Q stuck next first rest = first

pub Ends-ne-stuck {ℓ κ} :
    {E : Type κ} {A : Type ℓ} (P : A → Type 0) (m : Outcome E A) → Ends P m → m ≢ stuck
Ends-ne-stuck P m h stays = subst (Ends P) stays h

pub Ends-weaken {ℓ κ} :
    {E : Type κ} {A : Type ℓ} (P Q : A → Type 0) (m : Outcome E A)
    → ((a : A) → P a → Q a)
    → Ends P m
    → Ends Q m
Ends-weaken P Q (ok a) f h = f a h
Ends-weaken P Q (err why) f h = tt
Ends-weaken P Q panic f h = tt
Ends-weaken P Q stuck f h = h

-- A call that gives no value.
abbrev pub Fails {ℓ κ} : {E : Type κ} {A : Type ℓ} → Outcome E A → Type (ℓ ⊔ κ)
Fails {A} m = (a : A) → m ≢ ok a

module _ {ℓ κ ι} {E : Type ι} {A : Type ℓ} {B : Type κ} where
  pub >>=-Fails :
      (m : Outcome E A) (next : A → Outcome E B) → ((a : A) → Fails (next a)) → Fails (m >>= next)
  >>=-Fails m next rest b h = let (a, first, then_ok) = >>=-eq-ok m next h in rest a b then_ok

  pub Fails->>= : (m : Outcome E A) (next : A → Outcome E B) → Fails m → Fails (m >>= next)
  Fails->>= m next first b h = let (a, first_ok, then_ok) = >>=-eq-ok m next h in first a first_ok

pub err-Fails {ℓ κ} : {E : Type κ} {A : Type ℓ} (e : E) → Fails {E = E} {A = A} (err e)
err-Fails e a h = cc

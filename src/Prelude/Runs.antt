-- ===== src/Prelude/Runs.antt =====
-- What a run of the code may come to. `fault` is an access outside the buffer or an unsigned
-- subtraction below zero, which the code does not survive in any defined way; `stuck` is a loop
-- that the model's fuel did not let end.
use mathlib.Core.Path.{◌≡◌, refl, subst}

pub data Outcome {ℓ} (A : Type ℓ) : Type ℓ where
  ok : A → Outcome A
  fault : Outcome A
  stuck : Outcome A

infixl 5 ◌>>=◌ ◌>>◌
abbrev pub ◌>>=◌ {ℓ κ} : {A : Type ℓ} {B : Type κ} → Outcome A → (A → Outcome B) → Outcome B
ok a >>= f = f a
fault >>= f = fault
stuck >>= f = stuck

abbrev pub ◌>>◌ {ℓ} : {B : Type ℓ} → Outcome (Unit {0}) → Outcome B → Outcome B
m >> k = m >>= λ _. k

-- The run returns, and its value has the property.
pub data Returns {ℓ κ} {A : Type ℓ} (P : A → Type κ) : Outcome A → Type (ℓ ⊔ κ) where
  returns : {a : A} → P a → Returns P (ok a)

module _ {ℓ κ} {A : Type ℓ} where
  pub Returns-eq_ok : {P : A → Type κ} {r : Outcome A} → Returns P r → (a : A) × (r ≡ ok a) × P a
  Returns-eq_ok (returns {a} h) = (a, refl, h)

  pub Returns-of_eq : {P : A → Type κ} {r : Outcome A} (a : A) → r ≡ ok a → P a → Returns P r
  Returns-of_eq a e h = rw e (returns h)

  pub Returns-weaken :
      {P Q : A → Type κ} {r : Outcome A} → ((a : A) → P a → Q a) → Returns P r → Returns Q r
  Returns-weaken f (returns {a} h) = returns (f a h)

pub Returns->>= {ℓ κ μ ν} :
    {A : Type ℓ} {B : Type κ} {P : A → Type μ} {Q : B → Type ν} {m : Outcome A} {f : A → Outcome B}
    → Returns P m
    → ((a : A) → P a → Returns Q (f a))
    → Returns Q (m >>= f)
Returns->>= (returns {a} h) k = k a h

-- Inversion of a run that returns.
pub >>=-eq_ok {ℓ κ} :
    {A : Type ℓ} {B : Type κ} (m : Outcome A) (f : A → Outcome B) {b : B}
    → m >>= f ≡ ok b
    → (a : A) × (m ≡ ok a) × (f a ≡ ok b)
>>=-eq_ok (ok a) f e = (a, refl, e)
>>=-eq_ok fault f e = cc
>>=-eq_ok stuck f e = cc

ok-injective {ℓ} : {A : Type ℓ} {x y : A} → ok x ≡ ok y → x ≡ y
ok-injective p = cc

pub Returns-at {ℓ κ} :
    {A : Type ℓ} {P : A → Type κ} {r : Outcome A} {a : A} → Returns P r → r ≡ ok a → P a
Returns-at {P} (returns h) e = subst P (ok-injective e) h

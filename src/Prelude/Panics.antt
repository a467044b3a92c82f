-- ===== src/Prelude/Panics.antt =====
-- A computation that returns or panics. A panic unwinds, so no state comes back with it.
use mathlib.Core.Path.{◌≡◌, refl}
use mathlib.Core.Logic.{◌⊎◌, inl, inr}
use mathlib.Core.Option.{Option, none, some}

pub data Outcome {ℓ} (A : Type ℓ) : Type ℓ where
  returns : A → Outcome A
  panics : Outcome A

infixl 5 ◌>>=◌
abbrev pub ◌>>=◌ {ℓ κ} : {A : Type ℓ} {B : Type κ} → Outcome A → (A → Outcome B) → Outcome B
returns a >>= f = f a
panics >>= f = panics

-- Indexing a slice or a map, and `unwrap` and `expect`: a missing value panics.
abbrev pub unwrap {ℓ} : {A : Type ℓ} → Option A → Outcome A
unwrap none = panics
unwrap (some a) = returns a

-- A bind that returned had a first part that returned.
pub >>=-eq-returns {ℓ κ} :
    {A : Type ℓ} {B : Type κ} (m : Outcome A) (f : A → Outcome B) {b : B}
    → (m >>= f) ≡ returns b
    → (a : A) × (m ≡ returns a) × (f a ≡ returns b)
>>=-eq-returns (returns a) f h = (a, refl, h)
>>=-eq-returns panics f h = cc

pub returns-injective {ℓ} : {A : Type ℓ} {a b : A} → returns a ≡ returns b → a ≡ b
returns-injective h = cc

pub Outcome-cases {ℓ} : {A : Type ℓ} (m : Outcome A) → (m ≡ panics) ⊎ ((a : A) × (m ≡ returns a))
Outcome-cases (returns a) = inr (a, refl)
Outcome-cases panics = inl refl

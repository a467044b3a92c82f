-- ===== src/Results.antt =====
-- Calls that fail or panic: a `Result` of the source inside an `Outcome`.
pub mod Actions
use pdao_simperby.Prelude.{
  ◌≡◌, refl, ◌⊎◌, inl, inr, Outcome, returns, panics, Option, none, some, List, [], ◌∷◌, arith,
}

pub data Result {ℓ} (E A : Type ℓ) : Type ℓ where
  ok : A → Result E A
  err : E → Result E A

abbrev pub Call {ℓ} : Type ℓ → Type ℓ → Type ℓ
Call E A = Outcome (Result E A)

module _ {ℓ} {E A : Type ℓ} where
  abbrev pub pure : A → Call E A
  pure a = returns (ok a)

  abbrev pub raise : E → Call E A
  raise e = returns (err e)

  abbrev pub lift : Result E A → Call E A
  lift r = returns r

  -- Code that panics but has no error.
  abbrev pub completes : Outcome A → Call E A
  completes (returns a) = returns (ok a)
  completes panics = panics

module _ {ℓ} {E A B : Type ℓ} where
  infixl 5 ◌>>=◌
  abbrev pub ◌>>=◌ : Call E A → (A → Call E B) → Call E B
  returns (ok a) >>= f = f a
  returns (err e) >>= f = returns (err e)
  panics >>= f = panics

  -- Inversion of a chain that succeeds.
  pub >>=-eq-ok :
      (m : Call E A) (f : A → Call E B) {b : B}
      → (m >>= f) ≡ returns (ok b)
      → (a : A) × (m ≡ returns (ok a)) × (f a ≡ returns (ok b))
  >>=-eq-ok (returns (ok a)) f h = (a, refl, h)
  >>=-eq-ok (returns (err e)) f h = cc
  >>=-eq-ok panics f h = cc

-- `map_err`.
abbrev pub map_err {ℓ} : {D E A : Type ℓ} → (D → E) → Result D A → Result E A
map_err f (ok a) = ok a
map_err f (err e) = err (f e)

abbrev pub call_map_err {ℓ} : {D E A : Type ℓ} → (D → E) → Call D A → Call E A
call_map_err f (returns r) = returns (map_err f r)
call_map_err f panics = panics

-- `map` and `collect`: the first error, or all the results.
unfoldable pub traverse {ℓ} : {E A B : Type ℓ} → (A → Result E B) → List A → Result E (List B)
traverse f [] = ok []
traverse f (x ∷ xs) = elim (f x) [
  | err e ↦ err e
  | ok y ↦ elim (traverse f xs) [ err e ↦ err e | ok ys ↦ ok (y ∷ ys) ]
]

-- `ok_or_else`.
abbrev pub ok_or {ℓ} : {E A : Type ℓ} → Option A → E → Result E A
ok_or none e = err e
ok_or (some a) e = ok a

pub traverse-cons {ℓ} :
    {E A B : Type ℓ} (f : A → Result E B) (x : A) (xs : List A) {y : B} {ys : List B}
    → f x ≡ ok y
    → traverse f xs ≡ ok ys
    → traverse f (x ∷ xs) ≡ ok (y ∷ ys)
unfolding traverse
traverse-cons f x xs h k = ground (arith, h, k)

pub Result-cases {ℓ} :
    {E A : Type ℓ} (r : Result E A) → ((e : E) × (r ≡ err e)) ⊎ ((a : A) × (r ≡ ok a))
Result-cases (ok a) = inr (a, refl)
Result-cases (err e) = inl (e, refl)

-- ===== src/Results/Actions.antt =====
-- Actions on a state that fail or panic. The state comes back beside an error too, since what was
-- written stays written.
use pdao_simperby.Prelude.{◌≡◌, refl, Outcome, returns, panics}
use pdao_simperby.Results.{Result, ok, err, Call}

abbrev pub Action {ℓ} : Type ℓ → Type ℓ → Type ℓ → Type ℓ
Action E S A = S → Outcome (Result E A × S)

module _ {ℓ} {E S A : Type ℓ} where
  abbrev pub pure : A → Action E S A
  pure a s = returns (ok a, s)

  abbrev pub raise : E → Action E S A
  raise e s = returns (err e, s)

  -- A call that reads the state.
  abbrev pub after_call : Call E A → S → Outcome (Result E A × S)
  after_call (returns r) s = returns (r, s)
  after_call panics s = panics

  abbrev pub reads : (S → Call E A) → Action E S A
  reads f s = after_call (f s) s

module _ {ℓ} {E S A B : Type ℓ} where
  abbrev pub continue : Outcome (Result E A × S) → (A → Action E S B) → Outcome (Result E B × S)
  continue (returns (ok a, s)) f = f a s
  continue (returns (err e, s)) f = returns (err e, s)
  continue panics f = panics

  infixl 5 ◌>>=◌ ◌>>◌
  abbrev pub ◌>>=◌ : Action E S A → (A → Action E S B) → Action E S B
  ◌>>=◌ m f s = continue (m s) f

  abbrev pub ◌>>◌ : Action E S A → Action E S B → Action E S B
  m >> n = m >>= λ _. n

  -- Inversion of a chain that succeeds.
  pub continue-eq-ok :
      (o : Outcome (Result E A × S)) (f : A → Action E S B) {b : B} {t : S}
      → continue o f ≡ returns (ok b, t)
      → (a : A) × (u : S) × (o ≡ returns (ok a, u)) × (f a u ≡ returns (ok b, t))
  continue-eq-ok (returns (ok a, s)) f h = (a, s, refl, h)
  continue-eq-ok (returns (err e, s)) f h = cc
  continue-eq-ok panics f h = cc

module _ {ℓ} {E S A : Type ℓ} where
  -- Inversion of a call that reads: the state is as it was.
  pub after_call-eq-ok :
      (c : Call E A) (s : S) {a : A} {t : S}
      → after_call c s ≡ returns (ok a, t)
      → (c ≡ returns (ok a)) × (s ≡ t)
  after_call-eq-ok (returns (ok a)) s h = (cc, cc)
  after_call-eq-ok (returns (err e)) s h = cc
  after_call-eq-ok panics s h = cc

-- ===== src/Repository/Lock.antt =====
-- repository/src/raw/mod.rs: the mutex around the repository, whose content is taken out for each call
-- and put back after it. A call that panics does not put it back.
use pdao_simperby.Prelude.{
  ◌≡◌, refl, Option, none, some, List, [], ◌∷◌, Outcome, returns, panics, map, Outcome-cases, inl,
  inr, ap,
}

-- What the mutex holds.
abbrev pub Cell : Type 0 → Type 0
Cell I = Option I

module _ {I A : Type 0} where
  -- The answer and the content put back.
  abbrev pub put_back : Outcome (A × I) → Outcome A × Cell I
  put_back panics = (panics, none)
  put_back (returns (r, inner)) = (returns r, some inner)

  -- The inner repository as it was.
  abbrev pub unchanged : I → Outcome A → Outcome (A × I)
  unchanged inner panics = panics
  unchanged inner (returns r) = returns (r, inner)

  unfoldable pub helper_0_mut : (I → Outcome (A × I)) → Cell I → Outcome A × Cell I
  helper_0_mut f none = (panics, none)
  helper_0_mut f (some inner) = put_back (f inner)

  unfoldable pub helper_0 : (I → Outcome A) → Cell I → Outcome A × Cell I
  helper_0 f none = (panics, none)
  helper_0 f (some inner) = put_back (unchanged inner (f inner))

module _ {I A T1 : Type 0} where
  unfoldable pub helper_1_mut : (T1 → I → Outcome (A × I)) → T1 → Cell I → Outcome A × Cell I
  helper_1_mut f a1 none = (panics, none)
  helper_1_mut f a1 (some inner) = put_back (f a1 inner)

  unfoldable pub helper_1 : (T1 → I → Outcome A) → T1 → Cell I → Outcome A × Cell I
  helper_1 f a1 none = (panics, none)
  helper_1 f a1 (some inner) = put_back (unchanged inner (f a1 inner))

module _ {I A T1 T2 : Type 0} where
  unfoldable pub helper_2_mut :
      (T1 → T2 → I → Outcome (A × I)) → T1 → T2 → Cell I → Outcome A × Cell I
  helper_2_mut f a1 a2 none = (panics, none)
  helper_2_mut f a1 a2 (some inner) = put_back (f a1 a2 inner)

  unfoldable pub helper_2 : (T1 → T2 → I → Outcome A) → T1 → T2 → Cell I → Outcome A × Cell I
  helper_2 f a1 a2 none = (panics, none)
  helper_2 f a1 a2 (some inner) = put_back (unchanged inner (f a1 a2 inner))

-- One call of the repository, by the helper that it goes through.
pub data Request (I A : Type 0) : Type 1 where
  query : (I → Outcome A) → Request I A
  change : (I → Outcome (A × I)) → Request I A
  query_1 : {T1 : Type 0} → (T1 → I → Outcome A) → T1 → Request I A
  change_1 : {T1 : Type 0} → (T1 → I → Outcome (A × I)) → T1 → Request I A
  query_2 : {T1 T2 : Type 0} → (T1 → T2 → I → Outcome A) → T1 → T2 → Request I A
  change_2 : {T1 T2 : Type 0} → (T1 → T2 → I → Outcome (A × I)) → T1 → T2 → Request I A

module _ {I A : Type 0} where
  unfoldable pub serve : Request I A → Cell I → Outcome A × Cell I
  unfolding helper_0 helper_0_mut helper_1 helper_1_mut helper_2 helper_2_mut
  serve (query f) cell = helper_0 f cell
  serve (change f) cell = helper_0_mut f cell
  serve (query_1 f a1) cell = helper_1 f a1 cell
  serve (change_1 f a1) cell = helper_1_mut f a1 cell
  serve (query_2 f a1 a2) cell = helper_2 f a1 a2 cell
  serve (change_2 f a1 a2) cell = helper_2_mut f a1 a2 cell

  -- The answers to one request after another.
  unfoldable pub serve_all : List (Request I A) → Cell I → List (Outcome A)
  unfolding serve
  serve_all [] cell = []
  serve_all (q ∷ qs) cell = let (answer, next) = serve q cell in answer ∷ serve_all qs next

  -- What the request does to the bare repository.
  abbrev pub effect : Request I A → I → Outcome (A × I)
  effect (query f) inner = unchanged inner (f inner)
  effect (change f) inner = f inner
  effect (query_1 f a1) inner = unchanged inner (f a1 inner)
  effect (change_1 f a1) inner = f a1 inner
  effect (query_2 f a1 a2) inner = unchanged inner (f a1 a2 inner)
  effect (change_2 f a1 a2) inner = f a1 a2 inner

  -- The reference: the requests on the bare repository, up to the first panic; then only panics.
  pub until_panic : List (Request I A) → I → List (Outcome A)
  until_panic [] inner = []
  until_panic (q ∷ qs) inner = elim (effect q inner) [
    | panics ↦ panics ∷ map (λ _. panics) qs
    | returns (r, next) ↦ returns r ∷ until_panic qs next
  ]

  serve-some : (q : Request I A) (inner : I) → serve q (some inner) ≡ put_back (effect q inner)
  unfolding serve
  serve-some (query f) inner = refl
  serve-some (change f) inner = refl
  serve-some (query_1 f a1) inner = refl
  serve-some (change_1 f a1) inner = refl
  serve-some (query_2 f a1 a2) inner = refl
  serve-some (change_2 f a1 a2) inner = refl

  serve-none : (q : Request I A) → serve q none ≡ (panics, none)
  unfolding serve
  serve-none (query f) = refl
  serve-none (change f) = refl
  serve-none (query_1 f a1) = refl
  serve-none (change_1 f a1) = refl
  serve-none (query_2 f a1 a2) = refl
  serve-none (change_2 f a1 a2) = refl

  serve_all-none : (qs : List (Request I A)) → serve_all qs none ≡ map (λ _. panics) qs
  unfolding serve_all
  serve_all-none [] = refl
  serve_all-none (q ∷ qs) = rw (serve-none q) (ap (λ rs. panics ∷ rs) (serve_all-none qs))

  -- A repository answers each request as the bare repository does, up to the first that panics; that
  -- one and all later requests panic, whatever they are.
  pub serve_all-eq-until_panic :
      (qs : List (Request I A)) (inner : I) → serve_all qs (some inner) ≡ until_panic qs inner
  unfolding serve_all until_panic
  serve_all-eq-until_panic [] inner = refl
  serve_all-eq-until_panic (q ∷ qs) inner = elim (Outcome-cases (effect q inner)) [
    | inl p ↦ rw (serve-some q inner, until_panic, p) (ap (λ rs. panics ∷ rs) (serve_all-none qs))
    | inr ((r, next), p) ↦
        rw (serve-some q inner, until_panic, p)
          (ap (λ rs. returns r ∷ rs) (serve_all-eq-until_panic qs next))
  ]

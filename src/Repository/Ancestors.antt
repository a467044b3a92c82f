-- ===== src/Repository/Ancestors.antt =====
-- repository/src/raw/implementation.rs: what `list_ancestors` answers by the number of the ancestors.
use pdao_simperby.Prelude.{
  panics, zero, suc, [], ◌∷◌, some, returns, inl, inr, refl, ◌≡◌, ℕ, List, length, ◌++◌, ◌<◌, arith,
  ◌⊎◌, ◌≤◌, Bool-cases, ap, ltb,
}
use pdao_simperby.Repository.Queries.{
  first_of, check_first, take_ancestors, list_ancestors, but_first, walked,
}
use pdao_simperby.Results.{Result, ok, err, traverse, Result-cases}
use pdao_simperby.Repository.Git.{Git, CommitHash, Oid, GitCommit, RawError, hash_of_oid}

-- As many commits as are there are given; with fewer, `&oids[0..n]` panics.
pub IsFirst : {A : Type 0} → ℕ → List A → List A → Type 0
IsFirst n xs ys = (length ys ≡ n) × (rest : List _) × (xs ≡ ys ++ rest)

first_of-cases :
    {A : Type 0} (n : ℕ) (xs : List A)
    → ((length xs < n) × (first_of n xs ≡ panics))
      ⊎ ((ys : List A) × (first_of n xs ≡ returns ys) × IsFirst n xs ys)
unfolding first_of IsFirst
first_of-cases zero xs = inr ([], refl, (refl, xs, refl))
first_of-cases (suc n) [] = inl (ground arith, refl)
first_of-cases (suc n) (x ∷ xs) = elim (first_of-cases n xs) [
  | inl (few, p) ↦ inl (ground arith, ground (arith, p))
  | inr (ys, p, (count, rest, e)) ↦
      inr (x ∷ ys, ground (arith, p), (ground arith, rest, ap (λ zs. x ∷ zs) e))
]

module _ {E R : Type 0} (git : Git E R) where
  -- None of the first commits has several parents.
  pub IsLinear : ℕ → List Oid → R → Type 0
  IsLinear zero oids s = Unit {0}
  IsLinear (suc n) [] s = Unit {0}
  IsLinear (suc n) (oid ∷ oids) s =
      ((commit : GitCommit) × (git.find_commit oid s ≡ ok commit) × (length commit.parents ≤ 1))
      × IsLinear n oids s

  check_first-ok :
      (n : ℕ) (oids : List Oid) (s : R) → IsLinear n oids s → check_first git n oids s ≡ ok tt
  unfolding check_first IsLinear
  check_first-ok zero oids s h = refl
  check_first-ok (suc n) [] s h = refl
  check_first-ok (suc n) (oid ∷ oids) s ((commit, found, single), rest) =
      ground (arith, found, check_first-ok n oids s rest)

  check_first-IsLinear :
      (n : ℕ) (oids : List Oid) (s : R) {u : Unit {0}}
      → check_first git n oids s ≡ ok u
      → IsLinear n oids s
  unfolding check_first IsLinear
  check_first-IsLinear zero oids s h = tt
  check_first-IsLinear (suc n) [] s h = tt
  check_first-IsLinear (suc n) (oid ∷ oids) s h = elim (Result-cases (git.find_commit oid s)) [
    | inl (e, p) ↦ absurd (ground (arith, p, h))
    | inr (commit, p) ↦ elim (Bool-cases (ltb 1 (length commit.parents))) [
      | inl q ↦ absurd (ground (arith, p, q, h))
      | inr q ↦ ((commit, p, ground arith), check_first-IsLinear n oids s (ground (arith, p, q, h)))
    ]
  ]

  take_ancestors-cases :
      (n : ℕ) (oids : List Oid) (s : R)
      → (¬ IsLinear n oids s
          × (e : RawError E) × (take_ancestors git (some n) oids s ≡ returns (err e)))
        ⊎ (IsLinear n oids s × (length oids < n) × (take_ancestors git (some n) oids s ≡ panics))
        ⊎ (IsLinear n oids s
            × (ys : List Oid) × IsFirst n oids ys
            × (take_ancestors git (some n) oids s ≡ returns (ok ys)))
  unfolding take_ancestors
  take_ancestors-cases n oids s = elim (Result-cases (check_first git n oids s)) [
    | inl (e, p) ↦ inl (λ l. absurd (ground (arith, check_first-ok n oids s l, p)), e, rw p refl)
    | inr (u, p) ↦ inr (elim (first_of-cases n oids) [
      | inl (few, q) ↦ inl (check_first-IsLinear n oids s p, few, rw (p, q) refl)
      | inr (ys, q, first) ↦ inr (check_first-IsLinear n oids s p, ys, first, rw (p, q) refl)
    ])
  ]

  -- With a maximum of `n`, where git walks from the commit to its ancestors: a merge commit among the first
  -- `n` of them is an error; otherwise fewer than `n` ancestors make the call panic, and with `n` or more it
  -- gives the hashes of the first `n`.
  pub list_ancestors_cases :
      (commit_hash : CommitHash) (n : ℕ) (s : R) (oid start : Oid) (walk : List (Result E Oid))
      (oids : List Oid)
      → git.oid_from_bytes commit_hash.hash ≡ ok oid
      → git.walk_from oid s ≡ ok walk
      → traverse (walked git) walk ≡ ok (start ∷ oids)
      → (¬ IsLinear n oids s
          × (e : RawError E) × (list_ancestors git commit_hash (some n) s ≡ returns (err e)))
        ⊎ (IsLinear n oids s
            × (length oids < n)
            × (list_ancestors git commit_hash (some n) s ≡ panics))
        ⊎ (IsLinear n oids s
            × (ys : List Oid) × IsFirst n oids ys
            × (list_ancestors git commit_hash (some n) s ≡ returns (traverse hash_of_oid ys)))
  unfolding list_ancestors but_first
  list_ancestors_cases c n s oid start walk oids named found walks =
      elim (take_ancestors-cases n oids s) [
        | inl (merge, e, p) ↦ inl (merge, e, rw (named, found, walks, p) refl)
        | inr (inl (linear, few, p)) ↦ inr (inl (linear, few, rw (named, found, walks, p) refl))
        | inr (inr (linear, ys, first, p)) ↦
            inr (inr (linear, ys, first, rw (named, found, walks, p) refl))
      ]

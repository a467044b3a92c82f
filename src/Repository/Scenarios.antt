-- ===== src/Repository/Scenarios.antt =====
-- Concrete runs for repository/src/raw: the mutex, and a git of two commits whose branches are a map.
use pdao_simperby.Prelude.{[], ◌∷◌, some, returns, panics, ℕ, refl, ◌≡◌, List, ◌+◌, ◌⊎◌, ◌<◌}
use pdao_simperby.Results.{ok, err, traverse}
use pdao_simperby.Repository.Git.{Oid, RawError, hash_of_oid}
use pdao_simperby.Repository.Lock.{
  query, change_1, serve_all, Request, serve, until_panic, helper_0, serve_all-eq-until_panic,
  helper_1_mut,
}
use pdao_simperby.Repository.Queries.{
  first_of, walked, list_ancestors, but_first, take_ancestors, check_first,
}
use pdao_simperby.Repository.Ancestors.{IsLinear, IsFirst, list_ancestors_cases}
use pdao_simperby.Common.Bytes.{bytes_eq}
use pdao_simperby.Repository.Fixtures.{two_objects, tip_oid, tip, root_oid, no_refs, root_commit}

-- A counter that is read, increased, panics and is read again.
abbrev counter_calls : List (Request ℕ ℕ)
counter_calls =
    query (λ n. returns n)
    ∷ change_1 (λ k n. returns (n, n + k)) 2
    ∷ query (λ n. returns n)
    ∷ query (λ n. panics)
    ∷ query (λ n. returns n)
    ∷ []

counter_answers :
    serve_all counter_calls (some 5) ≡ returns 5 ∷ returns 5 ∷ returns 7 ∷ panics ∷ panics ∷ []
unfolding serve_all serve helper_0 helper_1_mut
counter_answers = refl

serve_all-eq-until_panic_example : serve_all counter_calls (some 5) ≡ until_panic counter_calls 5
serve_all-eq-until_panic_example = serve_all-eq-until_panic counter_calls 5

tip_walk :
    traverse (walked two_objects) (ok tip_oid ∷ ok root_oid ∷ []) ≡ ok (tip_oid ∷ root_oid ∷ [])
unfolding traverse walked
tip_walk = refl

-- The commit has one ancestor: one is given, and two make the call panic.
one_ancestor : list_ancestors two_objects tip (some 1) no_refs ≡ returns (ok (root_commit ∷ []))
unfolding list_ancestors traverse walked but_first take_ancestors check_first first_of hash_of_oid
    bytes_eq
one_ancestor = refl

two_ancestors : list_ancestors two_objects tip (some 2) no_refs ≡ panics
unfolding list_ancestors traverse walked but_first take_ancestors check_first first_of hash_of_oid
    bytes_eq
two_ancestors = refl

list_ancestors_cases_example :
    (¬ IsLinear two_objects 2 (root_oid ∷ []) no_refs
      × (e : RawError ℕ) × (list_ancestors two_objects tip (some 2) no_refs ≡ returns (err e)))
    ⊎ (IsLinear two_objects 2 (root_oid ∷ []) no_refs
        × (1 < 2)
        × (list_ancestors two_objects tip (some 2) no_refs ≡ panics))
    ⊎ (IsLinear two_objects 2 (root_oid ∷ []) no_refs
        × (ys : List Oid) × IsFirst 2 (root_oid ∷ []) ys
        × (list_ancestors two_objects tip (some 2) no_refs ≡ returns (traverse hash_of_oid ys)))
list_ancestors_cases_example =
    list_ancestors_cases two_objects tip 2 no_refs tip_oid tip_oid (ok tip_oid ∷ ok root_oid ∷ [])
      (root_oid ∷ []) refl refl tip_walk

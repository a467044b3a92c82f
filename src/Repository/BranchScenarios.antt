-- ===== src/Repository/BranchScenarios.antt =====
-- Concrete branches for the theorem on the branches of repository/src/raw/implementation.rs.
use pdao_simperby.Prelude.{
  [], ◌∷◌, true, false, none, some, returns, refl, ◌≡◌, ◌≢◌, Bool, length, ◌||◌, Bool-cases, inl,
  sym, inr, arith, Option, ap, List, subst, ◌∙◌,
}
use pdao_simperby.Results.{ok}
use pdao_simperby.Repository.Branches.{
  create_op, move_op, delete_op, BranchView, BranchOp, BranchLaws, set_branch, Changed, run_ops,
  run_map, run_op,
}
use pdao_simperby.Repository.Fixtures.{
  two_objects, Refs, oid_of, tip_oid, root_oid, no_refs, tip, root_commit, main_branch, set_ref,
}
use pdao_simperby.Repository.Git.{Oid, Branch, GitCommit}
use pdao_simperby.Common.Bytes.{bytes_eq, eq_of_bytes_eq}
use pdao_simperby.Repository.BranchMap.{AllNamed, Locates, run_ops-refines}
use pdao_simperby.Repository.Updates.{create_branch, move_branch, delete_branch}

abbrev at_ref : Option Bool → Option Oid
at_ref none = none
at_ref (some k) = some (oid_of k)

at_ref-some :
    (r : Option Bool) (o : Oid) → at_ref r ≡ some o → (k : Bool) × (r ≡ some k) × (oid_of k ≡ o)
at_ref-some none o h = cc
at_ref-some (some k) o h = (k, refl, cc)

at_ref-none : (r : Option Bool) → at_ref r ≡ none → r ≡ none
at_ref-none none h = refl
at_ref-none (some k) h = cc

at_ref-taken : (r : Option Bool) → at_ref r ≢ none → (k : Bool) × (r ≡ some k)
at_ref-taken none h = absurd (h refl)
at_ref-taken (some k) h = (k, refl)

abbrev refs_view : BranchView Refs
refs_view = record {
  target = λ s b. at_ref (s b);
  current = λ s. main_branch;
  is_commit = λ s o. bytes_eq o tip_oid || bytes_eq o root_oid;
  is_name = λ b. true;
}

named_oid :
    (o : Oid) → (bytes_eq o tip_oid || bytes_eq o root_oid) ≡ true → oid_of (bytes_eq o tip_oid) ≡ o
named_oid o h = elim (Bool-cases (bytes_eq o tip_oid)) [
  | inl p ↦ rw p (sym (eq_of_bytes_eq o tip_oid p))
  | inr p ↦ rw p (sym (eq_of_bytes_eq o root_oid (ground (arith, p, h))))
]

oid_of-length : (k : Bool) → length (oid_of k) ≡ 20
oid_of-length true = refl
oid_of-length false = refl

set_ref-target :
    (b x : Branch) (r : Option Bool) (s : Refs)
    → at_ref (set_ref b r s x) ≡ set_branch b (at_ref r) (refs_view.target s) x
set_ref-target b x r s = elim (Bool-cases (bytes_eq x b)) [ inl p ↦ rw p refl | inr p ↦ rw p refl ]

found :
    (o : Oid) (s : Refs)
    → refs_view.is_commit s o ≡ true
    → (c : GitCommit) × (two_objects.find_commit o s ≡ ok c) × (c.id ≡ o)
found o s h = elim (Bool-cases (bytes_eq o tip_oid)) [
  | inl p ↦ (record { id = o; parents = root_oid ∷ [] }, rw p refl, refl)
  | inr p ↦ (record { id = o; parents = [] }, ground (arith, p, h), refl)
]

points_at :
    (o : Oid) (b : Branch) (s : Refs)
    → refs_view.is_commit s o ≡ true
    → Changed refs_view s b (some o) (set_ref b (some (bytes_eq o tip_oid)) s)
points_at o b s there =
    let named = named_oid o there in
    (
      (λ x.
          subst
            (λ v.
              at_ref (set_ref b (some (bytes_eq o tip_oid)) s x)
              ≡ set_branch b (some v) (refs_view.target s) x)
            named (set_ref-target b x (some (bytes_eq o tip_oid)) s)),
      refl,
      λ o'. refl,
    )

refs_laws : BranchLaws two_objects refs_view
refs_laws = record {
  target-length =
      λ s b o h. let (k, p, q) = at_ref-some (s b) o h in ap length (sym q) ∙ oid_of-length k;
  oid_from_bytes-ok = λ o h. rw h refl;
  find_commit-ok = λ s o h. found o s h;
  find_branch-ok = λ s b o h. let (k, p, q) = at_ref-some (s b) o h in rw (p, q) refl;
  find_branch-err = λ s b h. (4, rw (at_ref-none (s b) h) refl);
  head-ok = λ s. (none, refl);
  branch-ok = λ s b c allowed free there. (
    set_ref b (some (bytes_eq c.id tip_oid)) s,
    rw (at_ref-none (s b) free) refl,
    points_at c.id b s there,
  );
  branch-err = λ s b c taken. let (k, p) = at_ref-taken (s b) taken in (3, rw p refl);
  set_target-ok =
      λ s b o taken there. (set_ref b (some (bytes_eq o tip_oid)) s, refl, points_at o b s there);
  delete-ok = λ s b taken other.
      (set_ref b none s, refl, ((λ x. set_ref-target b x none s), refl, λ o. refl));
}

-- A branch is created at the root, created again in vain, moved to the tip, and cannot be deleted while it
-- is checked out.
abbrev main_calls : List BranchOp
main_calls =
    create_op main_branch root_commit
    ∷ create_op main_branch tip
    ∷ move_op main_branch tip
    ∷ delete_op main_branch
    ∷ []

main_calls-AllNamed : AllNamed two_objects refs_view refs_laws no_refs main_calls
unfolding bytes_eq
main_calls-AllNamed = ((refl, refl, refl), ((refl, refl, refl), ((refl, refl), (tt, tt))))

run_ops-refines_example :
    (answers : List Bool) × (last : Branch → Option Oid) × (t : Refs) × (run_map main_branch
        main_calls
        (refs_view.target no_refs)
      ≡ (answers, last))
    × (run_ops two_objects main_calls no_refs ≡ returns (answers, t))
    × ((b : Branch) → Locates two_objects refs_view refs_laws b t (last b))
run_ops-refines_example =
    run_ops-refines two_objects refs_view refs_laws main_calls no_refs main_calls-AllNamed

run_answers :
    (t : Refs) × (run_ops two_objects main_calls no_refs
      ≡ returns (true ∷ false ∷ true ∷ false ∷ [], t))
unfolding run_ops run_op create_branch move_branch delete_branch bytes_eq
run_answers = (_, refl)

-- ===== src/Repository/BranchMap.antt =====
-- repository/src/raw/implementation.rs: the branches follow the map, one operation after another.
use pdao_simperby.Repository.Queries.{locate_branch}
use pdao_simperby.Prelude.{[], ◌∷◌, sym, fun_ext}
use pdao_simperby.Repository.Updates.{create_branch, move_branch, delete_branch}
use pdao_simperby.Prelude.{
  none, some, returns, ◌≡◌, Bool, not, is_none, Option-cases, inl, ap, ◌∙◌, inr, arith, refl,
  Option, subst, Bool-cases, List, ◌∷◌,
}
use pdao_simperby.Results.{Result, ok, err}
use pdao_simperby.Repository.Branches.{
  create_op, move_op, delete_op, BranchView, BranchLaws, BranchOp, run_op, next_map, step_map,
  IsNamed, Changed, set_branch, is_ok, run_ops, run_map,
}
use pdao_simperby.Repository.Git.{
  Git, Branch, RawError, Oid, CommitHash, git2_error, invalid_repository, hash_of_oid,
}
use pdao_simperby.Common.Bytes.{bytes_eq}

module _ {E R : Type 0} (git : Git E R) (view : BranchView R) (laws : BranchLaws git view) where
  -- What the operation did.
  Follows : R → BranchOp → R → Type 0
  Follows s op t =
      ((x : Branch) → view.target t x ≡ next_map (view.current s) op (view.target s) x)
      × (view.current t ≡ view.current s)
      × ((o : Oid) → view.is_commit t o ≡ view.is_commit s o)

  Runs : BranchOp → R → Type 0
  Runs op s =
      (answer : Result (RawError E) (Unit {0})) × (t : R) × (run_op git op s ≡ returns (answer, t))
      × (is_ok answer ≡ not (is_none (step_map (view.current s) op (view.target s))))
      × Follows s op t

  run-accepted :
      (s t : R) (op : BranchOp) (b : Branch) (v : Option Oid)
      → step_map (view.current s) op (view.target s) ≡ some (set_branch b v (view.target s))
      → run_op git op s ≡ returns (ok tt, t)
      → Changed view s b v t
      → Runs op s
  unfolding Runs Follows next_map
  run-accepted s t op b v p run (targets, same, commits) =
      (ok tt, t, run, rw p refl, (λ x. rw (next_map, p) (targets x), same, commits))

  run-refused :
      (s : R) (op : BranchOp) (e : RawError E)
      → step_map (view.current s) op (view.target s) ≡ none
      → run_op git op s ≡ returns (err e, s)
      → Runs op s
  unfolding Runs Follows next_map
  run-refused s op e p run =
      (err e, s, run, rw p refl, (λ x. rw (next_map, p) refl, refl, λ o. refl))

  run_create :
      (s : R) (b : Branch) (c : CommitHash)
      → IsNamed view s (create_op b c)
      → Runs (create_op b c) s
  unfolding run_op create_branch step_map
  run_create s b c (allowed, long, there) =
      let (commit, found, same) = laws.find_commit-ok s c.hash there in
      elim (Option-cases (view.target s b)) [
        | inl p ↦
            let (t, made, changed) =
              laws.branch-ok s b commit allowed p (ap (view.is_commit s) same ∙ there) in
            run-accepted s t (create_op b c) b (some c.hash) (rw (step_map, p) refl)
              (rw (laws.oid_from_bytes-ok c.hash long, found, made) refl)
              (subst (λ o. Changed view s b (some o) t) same changed)
        | inr (o, p) ↦
            let (e, refused) = laws.branch-err s b commit (λ q. absurd (ground (arith, p, q))) in
            run-refused s (create_op b c) (git2_error e) (rw (step_map, p) refl)
              (rw (laws.oid_from_bytes-ok c.hash long, found, refused) refl)
      ]

  run_move :
      (s : R) (b : Branch) (c : CommitHash) → IsNamed view s (move_op b c) → Runs (move_op b c) s
  unfolding run_op move_branch step_map
  run_move s b c (long, there) = elim (Option-cases (view.target s b)) [
    | inl p ↦
        let (e, refused) = laws.find_branch-err s b p in
        run-refused s (move_op b c) (git2_error e) (rw (step_map, p) refl) (rw refused refl)
    | inr (o, p) ↦
        let (t, moved, changed) =
          laws.set_target-ok s b c.hash (λ q. absurd (ground (arith, p, q))) there in
        run-accepted s t (move_op b c) b (some c.hash) (rw (step_map, p) refl)
          (rw (laws.find_branch-ok s b o p, laws.oid_from_bytes-ok c.hash long, moved) refl) changed
  ]

  run_delete : (s : R) (b : Branch) → Runs (delete_op b) s
  unfolding run_op delete_branch step_map
  run_delete s b =
      let (h, found_head) = laws.head-ok s in
      elim (Option-cases (view.target s b)) [
        | inl p ↦
            let (e, refused) = laws.find_branch-err s b p in
            run-refused s (delete_op b) (git2_error e) (rw (step_map, p) refl) (rw refused refl)
        | inr (o, p) ↦ elim (Bool-cases (bytes_eq (view.current s) b)) [
          | inl q ↦
              run-refused s (delete_op b)
                (invalid_repository "given branch is currently checkout branch")
                (rw (step_map, p, q) refl) (rw (laws.find_branch-ok s b o p, found_head, q) refl)
          | inr q ↦
              let (t, deleted, changed) =
                laws.delete-ok s b (λ r. absurd (ground (arith, p, r))) q in
              run-accepted s t (delete_op b) b none (rw (step_map, p, q) refl)
                (rw (laws.find_branch-ok s b o p, found_head, q, deleted) refl) changed
        ]
      ]

  run_one : (s : R) (op : BranchOp) → IsNamed view s op → Runs op s
  run_one s (create_op b c) h = run_create s b c h
  run_one s (move_op b c) h = run_move s b c h
  run_one s (delete_op b) h = run_delete s b

  -- Every operation names a commit that there is.
  abbrev pub AllNamed : R → List BranchOp → Type 0
  AllNamed s [] = Unit {0}
  AllNamed s (op ∷ ops) = IsNamed view s op × AllNamed s ops

  IsNamed-on :
      (s t : R) (op : BranchOp)
      → ((o : Oid) → view.is_commit t o ≡ view.is_commit s o)
      → IsNamed view s op
      → IsNamed view t op
  IsNamed-on s t (create_op b c) same (allowed, long, there) = (allowed, long, same c.hash ∙ there)
  IsNamed-on s t (move_op b c) same (long, there) = (long, same c.hash ∙ there)
  IsNamed-on s t (delete_op b) same h = tt

  AllNamed-on :
      (s t : R) (ops : List BranchOp)
      → ((o : Oid) → view.is_commit t o ≡ view.is_commit s o)
      → AllNamed s ops
      → AllNamed t ops
  AllNamed-on s t [] same h = tt
  AllNamed-on s t (op ∷ ops) same (h, hs) = (IsNamed-on s t op same h, AllNamed-on s t ops same hs)

  run_ops-run_map :
      (ops : List BranchOp) (s : R)
      → AllNamed s ops
      → (answers : List Bool) × (t : R) × (run_ops git ops s ≡ returns (answers, t))
        × (run_map (view.current s) ops (view.target s) ≡ (answers, view.target t))
  unfolding run_ops run_map Runs Follows
  run_ops-run_map [] s h = ([], s, refl, refl)
  run_ops-run_map (op ∷ ops) s (h, hs) =
      let (answer, t, run, accepted, (targets, current, commits)) = run_one s op h in
      let (answers, u, rest, follows) = run_ops-run_map ops t (AllNamed-on s t ops commits hs) in
      let follows_on =
        ap (λ m. run_map (view.current s) ops m) (sym (fun_ext targets))
        ∙ ap (λ c. run_map c ops (view.target t)) (sym current)
        ∙ follows in
      (is_ok answer ∷ answers, u, rw (run, rest) refl, rw (follows_on, accepted) refl)

  -- What `locate_branch` answers for the commit that the map has.
  abbrev pub Locates : Branch → R → Option Oid → Type 0
  Locates b s none = (e : RawError E) × (locate_branch git b s ≡ returns (err e))
  Locates b s (some o) = locate_branch git b s ≡ returns (ok (record { hash = o }))

  locate_branch-Locates : (b : Branch) (s : R) → Locates b s (view.target s b)
  unfolding locate_branch hash_of_oid
  locate_branch-Locates b s = elim (Option-cases (view.target s b)) [
    | inl p ↦ let (e, refused) = laws.find_branch-err s b p in rw p (git2_error e, rw refused refl)
    | inr (o, p) ↦ rw p (rw (laws.find_branch-ok s b o p, laws.target-length s b o p) refl)
  ]

  -- Where git keeps the branches as `BranchLaws` says, over any sequence of operations on branches that name
  -- commits of the repository, each succeeds or fails as on a map from names to commits: a new name is created, one that exists is moved or, unless it
  -- is checked out, deleted, and any other request is refused. Afterwards `locate_branch` finds what the
  -- map has.
  pub run_ops-refines :
      (ops : List BranchOp) (s : R)
      → AllNamed s ops
      → (answers : List Bool) × (last : Branch → Option Oid) × (t : R) × (run_map
            (view.current s)
            ops
            (view.target s)
          ≡ (answers, last))
        × (run_ops git ops s ≡ returns (answers, t))
        × ((b : Branch) → Locates b t (last b))
  run_ops-refines ops s h =
      let (answers, t, runs, follows) = run_ops-run_map ops s h in
      (answers, view.target t, t, follows, runs, λ b. locate_branch-Locates b t)

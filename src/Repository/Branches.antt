-- ===== src/Repository/Branches.antt =====
-- repository/src/raw/implementation.rs: creating, moving and deleting branches, against a map from names to
-- commits. What libgit2 documents of branches is a parameter.
use pdao_simperby.Prelude.{
  none, some, true, false, returns, [], ◌∷◌, ◌≡◌, ◌≢◌, List, Option, length, Outcome, if◌then◌else◌,
  Bool, not, is_none,
}
use pdao_simperby.Prelude.{◌>>=◌}
use pdao_simperby.Results.Actions.{Action}
use pdao_simperby.Results.{ok, err, Result}
use pdao_simperby.Repository.Git.{Git, Oid, Branch, CommitHash, RawError, GitCommit}
use pdao_simperby.Repository.Updates.{create_branch, move_branch, delete_branch}
use pdao_simperby.Common.Bytes.{bytes_eq}

-- A map with one name set anew.
abbrev pub set_branch : Branch → Option Oid → (Branch → Option Oid) → Branch → Option Oid
set_branch b v m x = if bytes_eq x b then v else m x

-- The commit of a branch, the branch that is checked out, which objects are commits, and which names are
-- allowed.
pub record BranchView (R : Type 0) : Type 0 where
  pub target : R → Branch → Option Oid
  pub current : R → Branch
  pub is_commit : R → Oid → Bool
  pub is_name : Branch → Bool

-- Only the named branch changes.
abbrev pub Changed : {R : Type 0} → BranchView R → R → Branch → Option Oid → R → Type 0
Changed view s b v t =
    ((x : Branch) → view.target t x ≡ set_branch b v (view.target s) x)
    × (view.current t ≡ view.current s)
    × ((o : Oid) → view.is_commit t o ≡ view.is_commit s o)

-- A call that succeeds changes only the branch named, and one that fails changes nothing.
pub record BranchLaws {E R : Type 0} (git : Git E R) (view : BranchView R) : Type 0 where
  pub target-length : (s : R) (b : Branch) (o : Oid) → view.target s b ≡ some o → length o ≡ 20
  pub oid_from_bytes-ok : (o : Oid) → length o ≡ 20 → git.oid_from_bytes o ≡ ok o
  pub find_commit-ok :
      (s : R) (o : Oid)
      → view.is_commit s o ≡ true
      → (c : GitCommit) × (git.find_commit o s ≡ ok c) × (c.id ≡ o)
  pub find_branch-ok :
      (s : R) (b : Branch) (o : Oid) → view.target s b ≡ some o → git.find_branch b s ≡ ok (some o)
  pub find_branch-err :
      (s : R) (b : Branch) → view.target s b ≡ none → (e : E) × (git.find_branch b s ≡ err e)
  pub head-ok :
      (s : R)
      → (o : Option Oid) × (git.head s
          ≡ ok (record { shorthand = some (view.current s); target = o }))
  pub branch-ok :
      (s : R) (b : Branch) (c : GitCommit)
      → view.is_name b ≡ true
      → view.target s b ≡ none
      → view.is_commit s c.id ≡ true
      → (t : R) × (git.branch b c false s ≡ returns (ok tt, t)) × Changed view s b (some c.id) t
  pub branch-err :
      (s : R) (b : Branch) (c : GitCommit)
      → view.target s b ≢ none
      → (e : E) × (git.branch b c false s ≡ returns (err e, s))
  pub set_target-ok :
      (s : R) (b : Branch) (o : Oid)
      → view.target s b ≢ none
      → view.is_commit s o ≡ true
      → (t : R) × (git.set_target b o s ≡ returns (ok tt, t)) × Changed view s b (some o) t
  pub delete-ok :
      (s : R) (b : Branch)
      → view.target s b ≢ none
      → bytes_eq (view.current s) b ≡ false
      → (t : R) × (git.delete b s ≡ returns (ok tt, t)) × Changed view s b none t

abbrev pub is_ok : {E A : Type 0} → Result E A → Bool
is_ok (ok a) = true
is_ok (err e) = false

-- One operation on branches.
pub data BranchOp : Type 0 where
  create_op : Branch → CommitHash → BranchOp
  move_op : Branch → CommitHash → BranchOp
  delete_op : Branch → BranchOp

module _ {E R : Type 0} (git : Git E R) where
  unfoldable pub run_op : BranchOp → Action (RawError E) R (Unit {0})
  unfolding create_branch move_branch delete_branch
  run_op (create_op b c) = create_branch git b c
  run_op (move_op b c) = move_branch git b c
  run_op (delete_op b) = delete_branch git b

  -- Which operations succeed, and the repository after all of them.
  unfoldable pub run_ops : List BranchOp → R → Outcome (List Bool × R)
  unfolding run_op
  run_ops [] s = returns ([], s)
  run_ops (op ∷ ops) s = run_op op s >>= λ (answer, t).
      run_ops ops t >>= λ (answers, u). returns (is_ok answer ∷ answers, u)

-- What the operation makes of the map; refused, it is `none`.
unfoldable pub step_map : Branch → BranchOp → (Branch → Option Oid) → Option (Branch → Option Oid)
step_map current (create_op b c) m = elim (m b) [
  | none ↦ some (set_branch b (some c.hash) m)
  | some o ↦ none
]
step_map current (move_op b c) m = elim (m b) [
  | none ↦ none
  | some o ↦ some (set_branch b (some c.hash) m)
]
step_map current (delete_op b) m = elim (m b) [
  | none ↦ none
  | some o ↦ if bytes_eq current b then none else some (set_branch b none m)
]

-- The map afterwards.
unfoldable pub next_map : Branch → BranchOp → (Branch → Option Oid) → Branch → Option Oid
unfolding step_map
next_map current op m = elim (step_map current op m) [ none ↦ m | some next ↦ next ]

unfoldable pub run_map :
    Branch → List BranchOp → (Branch → Option Oid) → List Bool × (Branch → Option Oid)
unfolding next_map
run_map current [] m = ([], m)
run_map current (op ∷ ops) m =
    let (answers, last) = run_map current ops (next_map current op m) in
    (not (is_none (step_map current op m)) ∷ answers, last)

-- The operation names a commit that there is, and a branch to create by an allowed name.
abbrev pub IsNamed : {R : Type 0} → BranchView R → R → BranchOp → Type 0
IsNamed view s (create_op b c) =
    (view.is_name b ≡ true) × (length c.hash ≡ 20) × (view.is_commit s c.hash ≡ true)
IsNamed view s (move_op b c) = (length c.hash ≡ 20) × (view.is_commit s c.hash ≡ true)
IsNamed view s (delete_op b) = Unit {0}

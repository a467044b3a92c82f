-- ===== src/Repository/Updates.antt =====
-- repository/src/raw/implementation.rs: what changes the repository.
use pdao_simperby.Prelude.{
  Option, [], ◌∷◌, ◌++◌, Outcome, returns, panics, true, false, if◌then◌else◌,
}
use pdao_simperby.Results.{Result, ok, err, map_err, ok_or}
use pdao_simperby.Results.Actions.{Action, pure, raise, reads, ◌>>=◌, ◌>>◌}
use pdao_simperby.Common.Bytes.{Bytes, bytes_eq}
use pdao_simperby.Repository.Git.{
  Git, Branch, Tag, CommitHash, RawError, SemanticCommit, git2_error, invalid_repository, unknown,
  git2, hash_of_oid,
}
use pdao_simperby.Repository.Queries.{get_head}

-- `refs/heads/`, `user.name`, `name`, `user.email` and `email` in ASCII.
abbrev pub refs_heads : Bytes
refs_heads = 114 ∷ 101 ∷ 102 ∷ 115 ∷ 47 ∷ 104 ∷ 101 ∷ 97 ∷ 100 ∷ 115 ∷ 47 ∷ []

abbrev user_name : Bytes
user_name = 117 ∷ 115 ∷ 101 ∷ 114 ∷ 46 ∷ 110 ∷ 97 ∷ 109 ∷ 101 ∷ []

abbrev name_value : Bytes
name_value = 110 ∷ 97 ∷ 109 ∷ 101 ∷ []

abbrev user_email : Bytes
user_email = 117 ∷ 115 ∷ 101 ∷ 114 ∷ 46 ∷ 101 ∷ 109 ∷ 97 ∷ 105 ∷ 108 ∷ []

abbrev email_value : Bytes
email_value = 101 ∷ 109 ∷ 97 ∷ 105 ∷ 108 ∷ []

module _ {E R : Type 0} where
  -- The errors of git2.
  abbrev pub converted :
      {A : Type 0} → Outcome (Result E A × R) → Outcome (Result (RawError E) A × R)
  converted (returns (r, s)) = returns (map_err git2_error r, s)
  converted panics = panics

  abbrev pub calls : {A : Type 0} → Action E R A → Action (RawError E) R A
  calls m s = converted (m s)

  -- `unwrap`: an error panics.
  abbrev pub unwrapped :
      {A : Type 0} → Outcome (Result E A × R) → Outcome (Result (RawError E) A × R)
  unwrapped (returns (ok a, s)) = returns (ok a, s)
  unwrapped (returns (err e, s)) = panics
  unwrapped panics = panics

  abbrev pub unwraps : {A : Type 0} → Action E R A → Action (RawError E) R A
  unwraps m s = unwrapped (m s)

module _ {E R : Type 0} (git : Git E R) where
  -- The repository, its configuration and the initial empty commit.
  unfoldable pub create_repository : Bytes → Bytes → Branch → Action (RawError E) R (Unit {0})
  create_repository directory init_commit_message init_commit_branch = do
    calls (git.init_opts directory init_commit_branch)
    calls (git.set_str user_name name_value)
    calls (git.set_str user_email email_value)
    id ← calls git.index_tree
    sig ← reads (λ s. git2 (git.signature s))
    tree ← reads (λ s. git2 (git.find_tree id s))
    oid ← calls (git.commit init_commit_message sig tree [])
    pure tt

  abbrev init_after :
      Action (RawError E) R (Unit {0})
      → Outcome (Result E (Unit {0}) × R)
      → Outcome (Result (RawError E) (Unit {0}) × R)
  init_after create panics = panics
  init_after create (returns (ok repo, s)) =
      returns (err (invalid_repository "there is an already existing repository"), s)
  init_after create (returns (err e, s)) = create s

  unfoldable pub init : Bytes → Bytes → Branch → Action (RawError E) R (Unit {0})
  unfolding create_repository
  init directory init_commit_message init_commit_branch s =
      init_after (create_repository directory init_commit_message init_commit_branch)
        (git.open_repository directory s)

  -- `RawRepositoryImplInner::open`.
  unfoldable pub open_repository : Bytes → Action (RawError E) R (Unit {0})
  open_repository directory = calls (git.open_repository directory)

  unfoldable pub create_branch : Branch → CommitHash → Action (RawError E) R (Unit {0})
  create_branch branch_name commit_hash = do
    oid ← reads (λ s. git2 (git.oid_from_bytes commit_hash.hash))
    commit ← reads (λ s. git2 (git.find_commit oid s))
    calls (git.branch branch_name commit false)

  unfoldable pub move_branch : Branch → CommitHash → Action (RawError E) R (Unit {0})
  move_branch branch commit_hash = do
    git2_branch ← reads (λ s. git2 (git.find_branch branch s))
    oid ← reads (λ s. git2 (git.oid_from_bytes commit_hash.hash))
    calls (git.set_target branch oid)

  -- The branch that is checked out is refused.
  unfoldable pub delete_branch : Branch → Action (RawError E) R (Unit {0})
  delete_branch branch = do
    git2_branch ← reads (λ s. git2 (git.find_branch branch s))
    head ← reads (λ s. git2 (git.head s))
    current_branch ← reads (λ s. returns (ok_or head.shorthand (unknown "err")))
    if bytes_eq current_branch branch
        then raise (invalid_repository "given branch is currently checkout branch")
        else calls (git.delete branch)

  unfoldable pub create_tag : Tag → CommitHash → Action (RawError E) R (Unit {0})
  create_tag tag commit_hash = do
    oid ← reads (λ s. git2 (git.oid_from_bytes commit_hash.hash))
    object ← reads (λ s. git2 (git.find_object oid s))
    calls (git.tag_lightweight tag object true)

  unfoldable pub remove_tag : Tag → Action (RawError E) R (Unit {0})
  remove_tag tag = calls (git.tag_delete tag)

  -- The tree is that of the index; the diff is not used.
  unfoldable pub create_commit : Bytes → Option Bytes → Action (RawError E) R CommitHash
  unfolding hash_of_oid
  create_commit commit_message diff = do
    id ← unwraps git.index_tree
    sig ← unwraps (λ s. returns (git.signature s, s))
    tree ← unwraps (λ s. returns (git.find_tree id s, s))
    head ← reads (get_head git)
    parent_oid ← reads (λ s. git2 (git.oid_from_bytes head.hash))
    parent_commit ← reads (λ s. git2 (git.find_commit parent_oid s))
    oid ← calls (git.commit commit_message sig tree (parent_commit ∷ []))
    reads (λ s. returns (hash_of_oid oid))

  unfoldable pub checkout : Branch → Action (RawError E) R (Unit {0})
  checkout branch = do
    obj ← reads (λ s. git2 (git.revparse_single (refs_heads ++ branch) s))
    calls (git.checkout_tree obj)
    calls (git.set_head (refs_heads ++ branch))

  unfoldable pub checkout_detach : CommitHash → Action (RawError E) R (Unit {0})
  checkout_detach commit_hash = do
    oid ← reads (λ s. git2 (git.oid_from_bytes commit_hash.hash))
    calls (git.set_head_detached oid)

  unfoldable pub add_remote : Bytes → Bytes → Action (RawError E) R (Unit {0})
  add_remote remote_name remote_url = calls (git.remote remote_name remote_url)

  unfoldable pub remove_remote : Bytes → Action (RawError E) R (Unit {0})
  remove_remote remote_name = calls (git.remote_delete remote_name)

  -- `unimplemented!()`.
  unfoldable pub create_semantic_commit : SemanticCommit → Action (RawError E) R CommitHash
  create_semantic_commit commit s = panics

  unfoldable pub checkout_clean : Action (RawError E) R (Unit {0})
  checkout_clean s = panics

  unfoldable pub run_garbage_collection : Action (RawError E) R (Unit {0})
  run_garbage_collection s = panics

  unfoldable pub fetch_all : Action (RawError E) R (Unit {0})
  fetch_all s = panics

-- ===== src/Repository/Queries.antt =====
-- repository/src/raw/implementation.rs: what only reads the repository.
use pdao_simperby.Prelude.{
  ℕ, zero, suc, Option, none, some, List, [], ◌∷◌, Outcome, returns, panics, length, ltb, ◌==◌,
  if◌then◌else◌, unwrap, get_elem?, ◌++◌,
}
use pdao_simperby.Results.{
  Result, Call, ok, err, pure, lift, map_err, ok_or, completes, traverse, ◌>>=◌,
}
use pdao_simperby.Common.Bytes.{Bytes}
use pdao_simperby.Common.Types.{ReservedState}
use pdao_simperby.Repository.Git.{
  Git, Oid, Branch, Tag, CommitHash, RawError, SemanticCommit, git2_error, invalid_repository,
  unknown, git2, hash_of_oid,
}

-- `&v[1..v.len()]`, which panics on an empty vector.
unfoldable pub but_first : {A : Type 0} → List A → Outcome (List A)
but_first [] = panics
but_first (x ∷ xs) = returns xs

-- `&v[0..n]`, which panics where there are fewer than `n`.
unfoldable pub first_of : {A : Type 0} → ℕ → List A → Outcome (List A)
first_of zero xs = returns []
first_of (suc n) [] = panics
first_of (suc n) (x ∷ xs) = elim (first_of n xs) [ panics ↦ panics | returns ys ↦ returns (x ∷ ys) ]

-- `refs/tags/` in ASCII.
abbrev pub refs_tags : Bytes
refs_tags = 114 ∷ 101 ∷ 102 ∷ 115 ∷ 47 ∷ 116 ∷ 97 ∷ 103 ∷ 115 ∷ 47 ∷ []

module _ {E R : Type 0} (git : Git E R) where
  -- `branch?.0.name()?.map(..).ok_or_else(..)?`.
  unfoldable pub branch_name : Result E (Result E (Option Branch)) → Result (RawError E) Branch
  branch_name (err e) = err (git2_error e)
  branch_name (ok (err e)) = err (git2_error e)
  branch_name (ok (ok name)) = ok_or name (unknown "err")

  unfoldable pub list_branches : R → Call (RawError E) (List Branch)
  unfolding branch_name
  list_branches s = do branches ← git2 (git.branches s); lift (traverse branch_name branches)

  unfoldable pub locate_branch : Branch → R → Call (RawError E) CommitHash
  unfolding hash_of_oid
  locate_branch branch s = do
    target ← git2 (git.find_branch branch s)
    oid ← lift (ok_or target (unknown "err"))
    lift (hash_of_oid oid)

  unfoldable pub tag_name : Option Tag → Result (RawError E) Tag
  tag_name tag = ok_or tag (unknown "err")

  unfoldable pub list_tags : R → Call (RawError E) (List Tag)
  unfolding tag_name
  list_tags s = do tags ← git2 (git.tag_names s); lift (traverse tag_name tags)

  unfoldable pub locate_tag : Tag → R → Call (RawError E) CommitHash
  unfolding hash_of_oid
  locate_tag tag s = do
    reference ← git2 (git.find_reference (refs_tags ++ tag) s)
    oid ← git2 (git.peel reference s)
    lift (hash_of_oid oid)

  unfoldable pub get_head : R → Call (RawError E) CommitHash
  unfolding hash_of_oid
  get_head s = do
    head ← git2 (git.head s)
    oid ← lift (ok_or head.target (unknown "err"))
    lift (hash_of_oid oid)

  -- An element of a walk.
  unfoldable pub walked : Result E Oid → Result (RawError E) Oid
  walked r = map_err git2_error r

  -- The second commit of the walk, unless there is one alone.
  unfoldable pub initial_of : List Oid → Outcome Oid
  initial_of oids =
      if length oids == 1 then unwrap (get_elem? oids 0) else unwrap (get_elem? oids 1)

  unfoldable pub get_initial_commit : R → Call (RawError E) CommitHash
  unfolding walked initial_of hash_of_oid
  get_initial_commit s = do
    head ← lift (map_err (λ e. invalid_repository "repository is empty") (git.head s))
    walk ← git2 (git.walk_from_head s)
    oids ← lift (traverse walked walk)
    initial ← completes (initial_of oids)
    lift (hash_of_oid initial)

  -- The `for` over the first `n` commits: one with several parents is refused.
  unfoldable pub check_first : ℕ → List Oid → R → Result (RawError E) (Unit {0})
  check_first zero oids s = ok tt
  check_first (suc n) [] s = ok tt
  check_first (suc n) (oid ∷ oids) s =
      let rest = check_first n oids s in
      elim (git.find_commit oid s) [
        | err e ↦ err (git2_error e)
        | ok commit ↦
            if ltb 1 (length commit.parents)
            then err (invalid_repository "There exists a merge commit")
            else rest
      ]

  -- The `loop`: up to the first commit without parents; past the end it panics.
  unfoldable pub check_to_root : List Oid → R → Call (RawError E) (Unit {0})
  check_to_root [] s = panics
  check_to_root (oid ∷ oids) s =
      let rest = check_to_root oids s in
      elim (git.find_commit oid s) [
        | err e ↦ returns (err (git2_error e))
        | ok commit ↦
            if ltb 1 (length commit.parents)
            then returns (err (invalid_repository "There exists a merge commit"))
            else (if length commit.parents == 0 then returns (ok tt) else rest)
      ]

  -- The ancestors that are kept.
  unfoldable pub take_ancestors : Option ℕ → List Oid → R → Call (RawError E) (List Oid)
  unfolding check_first check_to_root first_of
  take_ancestors (some num_max) oids s = do
    checked ← lift (check_first num_max oids s)
    completes (first_of num_max oids)
  take_ancestors none oids s = do checked ← check_to_root oids s; pure oids

  unfoldable pub list_ancestors : CommitHash → Option ℕ → R → Call (RawError E) (List CommitHash)
  unfolding walked but_first take_ancestors hash_of_oid
  list_ancestors commit_hash max s = do
    oid ← git2 (git.oid_from_bytes commit_hash.hash)
    walk ← git2 (git.walk_from oid s)
    all ← lift (traverse walked walk)
    oids ← completes (but_first all)
    ancestors ← take_ancestors max oids s
    lift (traverse hash_of_oid ancestors)

  unfoldable pub find_merge_base : CommitHash → CommitHash → R → Call (RawError E) CommitHash
  unfolding hash_of_oid
  find_merge_base commit_hash1 commit_hash2 s = do
    oid1 ← git2 (git.oid_from_bytes commit_hash1.hash)
    oid2 ← git2 (git.oid_from_bytes commit_hash2.hash)
    oid_merge ← git2 (git.merge_base oid1 oid2 s)
    lift (hash_of_oid oid_merge)

  unfoldable pub remote_name : Option Bytes → Result (RawError E) Bytes
  remote_name name = ok_or name (unknown "unable to get remote")

  unfoldable pub remote_entry : R → Bytes → Result (RawError E) (Bytes × Bytes)
  remote_entry s name = elim (git.find_remote name s) [
    | err e ↦ err (git2_error e)
    | ok none ↦ err (unknown "unable to get valid url")
    | ok (some url) ↦ ok (name, url)
  ]

  unfoldable pub list_remotes : R → Call (RawError E) (List (Bytes × Bytes))
  unfolding remote_name remote_entry
  list_remotes s = do
    remotes ← git2 (git.remotes s)
    names ← lift (traverse remote_name remotes)
    lift (traverse (remote_entry s) names)

  -- `unimplemented!()`.
  unfoldable pub read_semantic_commit : CommitHash → R → Call (RawError E) SemanticCommit
  read_semantic_commit commit_hash s = panics

  unfoldable pub read_reserved_state : R → Call (RawError E) ReservedState
  read_reserved_state s = panics

  unfoldable pub get_branches : CommitHash → R → Call (RawError E) (List Branch)
  get_branches commit_hash s = panics

  unfoldable pub get_tag : CommitHash → R → Call (RawError E) (List Tag)
  get_tag commit_hash s = panics

  unfoldable pub show_commit : CommitHash → R → Call (RawError E) Bytes
  show_commit commit_hash s = panics

  unfoldable pub list_descendants : CommitHash → Option ℕ → R → Call (RawError E) (List CommitHash)
  list_descendants commit_hash max s = panics

  unfoldable pub list_children : CommitHash → R → Call (RawError E) (List CommitHash)
  list_children commit_hash s = panics

  unfoldable pub list_remote_tracking_branches :
      R → Call (RawError E) (List (Bytes × Bytes × CommitHash))
  list_remote_tracking_branches s = panics

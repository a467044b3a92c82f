-- ===== src/Repository/Git.antt =====
-- repository/src/raw: the calls of libgit2, a parameter, and the names and errors of the raw repository.
use pdao_simperby.Prelude.{Bool, Option, List, String, length, ◌==◌, if◌then◌else◌}
use pdao_simperby.Results.{Result, Call, ok, err, map_err, lift}
use pdao_simperby.Results.Actions.{Action}
use pdao_simperby.Common.Bytes.{Bytes}
use pdao_simperby.Common.Types.{Diff}

-- `git2::Oid`.
abbrev pub Oid : Type 0
Oid = Bytes

abbrev pub Branch : Type 0
Branch = Bytes

abbrev pub Tag : Type 0
Tag = Bytes

pub record CommitHash : Type 0 where
  pub hash : Bytes

-- `Error`, over `git2::Error`.
pub data RawError (E : Type 0) : Type 0 where
  git2_error : E → RawError E
  invalid_repository : String → RawError E
  unknown : String → RawError E

pub record SemanticCommit : Type 0 where
  pub title : Bytes
  pub body : Bytes
  pub diff : Diff

-- A `git2::Commit`, and the reference `HEAD`.
pub record GitCommit : Type 0 where
  pub id : Oid
  pub parents : List Oid

pub record GitHead : Type 0 where
  pub shorthand : Option Bytes
  pub target : Option Oid

-- The functions of git2 on a repository. A branch is given by its name, a tree and an object by its
-- identifier. `walk_from` is a revision walk from a commit in topological order, `walk_from_head` one
-- from `HEAD` by time.
pub record Git (E R : Type 0) : Type 0 where
  pub open_repository : Bytes → Action E R (Unit {0})
  pub init_opts : Bytes → Branch → Action E R (Unit {0})
  pub set_str : Bytes → Bytes → Action E R (Unit {0})
  pub branches : R → Result E (List (Result E (Result E (Option Branch))))
  pub oid_from_bytes : Bytes → Result E Oid
  pub find_commit : Oid → R → Result E GitCommit
  pub branch : Branch → GitCommit → Bool → Action E R (Unit {0})
  pub find_branch : Branch → R → Result E (Option Oid)
  pub set_target : Branch → Oid → Action E R (Unit {0})
  pub delete : Branch → Action E R (Unit {0})
  pub head : R → Result E GitHead
  pub tag_names : R → Result E (List (Option Tag))
  pub find_object : Oid → R → Result E Oid
  pub tag_lightweight : Tag → Oid → Bool → Action E R (Unit {0})
  pub find_reference : Bytes → R → Result E Bytes
  pub peel : Bytes → R → Result E Oid
  pub tag_delete : Tag → Action E R (Unit {0})
  pub index_tree : Action E R Oid
  pub signature : R → Result E Bytes
  pub find_tree : Oid → R → Result E Oid
  pub commit : Bytes → Bytes → Oid → List GitCommit → Action E R Oid
  pub walk_from : Oid → R → Result E (List (Result E Oid))
  pub walk_from_head : R → Result E (List (Result E Oid))
  pub merge_base : Oid → Oid → R → Result E Oid
  pub revparse_single : Bytes → R → Result E Oid
  pub checkout_tree : Oid → Action E R (Unit {0})
  pub set_head : Bytes → Action E R (Unit {0})
  pub set_head_detached : Oid → Action E R (Unit {0})
  pub remote : Bytes → Bytes → Action E R (Unit {0})
  pub remote_delete : Bytes → Action E R (Unit {0})
  pub remotes : R → Result E (List (Option Bytes))
  pub find_remote : Bytes → R → Result E (Option Bytes)

module _ {E : Type 0} where
  -- An error of git2 as an error of the repository.
  abbrev pub git2 : {A : Type 0} → Result E A → Call (RawError E) A
  git2 r = lift (map_err git2_error r)

  -- `<[u8; 20]>::try_from`.
  unfoldable pub hash_of_oid : Oid → Result (RawError E) CommitHash
  hash_of_oid oid = if length oid == 20 then ok (record { hash = oid }) else err (unknown "err")

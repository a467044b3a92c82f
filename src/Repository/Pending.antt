-- ===== src/Repository/Pending.antt =====
-- repository/src/lib.rs and format.rs: what `DistributedRepository` reads before it creates an agenda, over
-- any `RawRepository`.
use pdao_simperby.Common.Errors.{Error}
use pdao_simperby.Prelude.{
  Bool, not, Option, none, some, List, [], ◌∷◌, ◌++◌, Outcome, returns, panics, unwrap, add64,
  if◌then◌else◌, String,
}
use pdao_simperby.Results.{
  Result, Call, ok, err, call_map_err, lift, completes, pure, raise, ◌>>=◌, ok_or, map_err,
}
use pdao_simperby.Results.Actions.{Action}
use pdao_simperby.Common.Bytes.{Bytes, bytes_eq, decimal}
use pdao_simperby.Repository.Git.{Branch, RawError, CommitHash, SemanticCommit}
use pdao_simperby.Common.Types.{
  BlockHeader, Commit, Transaction, agenda, ReservedState, PublicKey, transaction, Timestamp,
  no_diff, Agenda,
}
use pdao_simperby.Common.Encoding.{Crates, agenda_hash_of, calculate_hash}
use pdao_simperby.Repository.Interface.{RawRepository}
use pdao_simperby.Common.Chains.{apply_all}
use pdao_simperby.Common.Sequence.{CommitSequenceVerifier, new}

-- `finalized`, `work`, `agenda: ` and `/` in ASCII.
abbrev pub finalized_branch_name : Branch
finalized_branch_name = 102 ∷ 105 ∷ 110 ∷ 97 ∷ 108 ∷ 105 ∷ 122 ∷ 101 ∷ 100 ∷ []

abbrev pub work_branch_name : Branch
work_branch_name = 119 ∷ 111 ∷ 114 ∷ 107 ∷ []

abbrev agenda_prefix : Bytes
agenda_prefix = 97 ∷ 103 ∷ 101 ∷ 110 ∷ 100 ∷ 97 ∷ 58 ∷ 32 ∷ []

abbrev slash : Bytes
slash = 47 ∷ []

-- `anyhow::Error`: an error of the raw repository, of serde_json, of a conversion or of the
-- verification, or a text.
pub data RepositoryError (E : Type 0) : Type 0 where
  raw_error : RawError E → RepositoryError E
  json_error : RepositoryError E
  conversion_failed : CommitHash → RepositoryError E
  verification_failed : Error → RepositoryError E
  failed : String → RepositoryError E

-- `serde_json::from_str` of a header and `hex::encode`.
pub record Texts : Type 0 where
  pub header_of_json : Bytes → Option BlockHeader
  pub hex : Bytes → Bytes

-- `==` of `CommitHash`.
abbrev pub commit_eq : CommitHash → CommitHash → Bool
commit_eq a b = bytes_eq a.hash b.hash

-- `position` of the commit and `take` of as many: the commits before it.
unfoldable pub before : CommitHash → List CommitHash → Option (List CommitHash)
before commit [] = none
before commit (c ∷ cs) =
    if commit_eq c commit
    then some []
    else elim (before commit cs) [ none ↦ none | some found ↦ some (c ∷ found) ]

unfoldable pub rev : {A : Type 0} → List A → List A
rev [] = []
rev (x ∷ xs) = rev xs ++ x ∷ []

-- The transactions of the commits, unless one of them is no transaction.
unfoldable pub transactions_of : List Commit → Option (List Transaction)
transactions_of [] = some []
transactions_of (transaction t ∷ cs) = elim (transactions_of cs) [
  | none ↦ none
  | some ts ↦ some (t ∷ ts)
]
transactions_of (c ∷ cs) = none

-- `from_semantic_commit`: `todo!()`.
unfoldable pub from_semantic_commit : SemanticCommit → BlockHeader → Outcome (Option Commit)
from_semantic_commit semantic_commit last_header = panics

-- The `map` and `collect` that convert: the first that fails ends it.
unfoldable pub convert_each :
    {E : Type 0}
    → BlockHeader
    → List (SemanticCommit × CommitHash)
    → Call (RepositoryError E) (List Commit)
unfolding from_semantic_commit
convert_each last_header [] = pure []
convert_each last_header ((commit, hash) ∷ rest) = elim (from_semantic_commit commit last_header) [
  | panics ↦ panics
  | returns none ↦ raise (conversion_failed hash)
  | returns (some x) ↦ convert_each last_header rest >>= λ xs. pure (x ∷ xs)
]

-- The agenda of the transactions after the last header; `now` is `get_timestamp()`.
unfoldable pub agenda_of : Crates → PublicKey → Timestamp → BlockHeader → List Transaction → Agenda
agenda_of crates author now last_header transactions = record {
  author = author;
  timestamp = now;
  hash = calculate_hash crates (add64 last_header.height 1) transactions;
}

module _ (crates : Crates) (texts : Texts) where
  -- `to_semantic_commit`: `todo!()` but for an agenda.
  unfoldable pub to_semantic_commit : Commit → BlockHeader → Outcome SemanticCommit
  to_semantic_commit (agenda a) last_header = returns (record {
    title =
        agenda_prefix
        ++ decimal (add64 last_header.height 1)
        ++ slash
        ++ texts.hex (agenda_hash_of crates a).hash;
    body = crates.agenda_json a;
    diff = no_diff;
  })
  to_semantic_commit _ last_header = panics

module _ {E S : Type 0} (raw : RawRepository E S) where
  -- The error of the raw repository as `anyhow::Error`.
  abbrev pub raises : {A : Type 0} → Call (RawError E) A → Call (RepositoryError E) A
  raises m = call_map_err raw_error m

  abbrev pub raising :
      {A : Type 0}
      → Outcome (Result (RawError E) A × S)
      → Outcome (Result (RepositoryError E) A × S)
  raising panics = panics
  raising (returns (r, s)) = returns (map_err raw_error r, s)

  abbrev pub changes : {A : Type 0} → Action (RawError E) S A → Action (RepositoryError E) S A
  changes m s = raising (m s)

  -- All the reads are made, and a panic of one is a panic; then the first error counts.
  unfoldable pub read_each :
      List CommitHash → S → Call (RawError E) (List (SemanticCommit × CommitHash))
  read_each [] s = pure []
  read_each (c ∷ cs) s =
      let rest = read_each cs s in
      elim (raw.read_semantic_commit c s) [
        | panics ↦ panics
        | returns (err e) ↦ elim rest [ panics ↦ panics | returns r ↦ raise e ]
        | returns (ok x) ↦ rest >>= λ xs. pure ((x, c) ∷ xs)
      ]

  unfoldable pub get_last_finalized_block_header : Texts → S → Call (RepositoryError E) BlockHeader
  get_last_finalized_block_header texts s = do
    commit_hash ← raises (raw.locate_branch finalized_branch_name s)
    semantic_commit ← raises (raw.read_semantic_commit commit_hash s)
    lift (ok_or (texts.header_of_json semantic_commit.body) json_error)

  unfoldable pub get_reserved_state : S → Call (RepositoryError E) ReservedState
  get_reserved_state s = raises (raw.read_reserved_state s)

-- The `for` that applies the commits: an error ends it.
unfoldable pub verify_commits :
    {E : Type 0}
    → Crates
    → List Commit
    → CommitSequenceVerifier
    → Call (RepositoryError E) (Unit {0})
unfolding apply_all
verify_commits crates commits verifier = elim (apply_all crates commits verifier) [
  | panics ↦ panics
  | returns (some e, next) ↦ raise (verification_failed e)
  | returns (none, next) ↦ pure tt
]

module _ {E S : Type 0} (raw : RawRepository E S) (crates : Crates) (texts : Texts) where
  -- What `create_agenda` reads before it commits: the last header and the transactions after it.
  unfoldable pub pending_transactions :
      S → Call (RepositoryError E) (BlockHeader × List Transaction)
  unfolding get_last_finalized_block_header before rev read_each convert_each get_reserved_state
      verify_commits transactions_of
  pending_transactions s = do
    last_header ← get_last_finalized_block_header raw texts s
    work_commit ← raises raw (raw.locate_branch work_branch_name s)
    last_header_commit ← raises raw (raw.locate_branch finalized_branch_name s)
    merge_base ← raises raw (raw.find_merge_base last_header_commit work_commit s)
    based ←
        (if not (commit_eq merge_base last_header_commit)
          then raise (failed "branch work should be rebased on finalized")
          else pure (tt {0}))
    ancestors ← raises raw (raw.list_ancestors work_commit (some 256) s)
    after ← completes (unwrap (before last_header_commit ancestors))
    semantic_commits ← raises raw (read_each raw (rev after) s)
    commits ← convert_each last_header semantic_commits
    reserved_state ← get_reserved_state raw s
    verified ← verify_commits crates commits (new last_header reserved_state)
    transactions ←
        lift
          (ok_or (transactions_of commits) (failed "branch work is not in the transaction phase"))
    pure (last_header, transactions)

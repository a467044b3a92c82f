-- ===== src/Repository/Agenda.antt =====
-- repository/src/lib.rs: `create_agenda`.
use pdao_simperby.Results.Actions.{Action, reads, ◌>>=◌, ◌>>◌}
use pdao_simperby.Results.{completes}
use pdao_simperby.Common.Types.{agenda, PublicKey, Timestamp}
use pdao_simperby.Repository.Interface.{RawRepository}
use pdao_simperby.Common.Encoding.{Crates}
use pdao_simperby.Repository.Pending.{
  Texts, pending_transactions, agenda_of, to_semantic_commit, RepositoryError, changes,
  work_branch_name,
}
use pdao_simperby.Repository.Git.{CommitHash, SemanticCommit}

module _ {E S : Type 0} (raw : RawRepository E S) where
  unfoldable pub commit_on_work : SemanticCommit → Action (RepositoryError E) S CommitHash
  commit_on_work semantic_commit = do
    changes raw raw.checkout_clean
    changes raw (raw.checkout work_branch_name)
    changes raw (raw.create_semantic_commit semantic_commit)

module _ {E S : Type 0} (raw : RawRepository E S) (crates : Crates) (texts : Texts) where
  unfoldable pub create_agenda : PublicKey → Timestamp → Action (RepositoryError E) S CommitHash
  unfolding agenda_of to_semantic_commit commit_on_work
  create_agenda author now = do
    (last_header, transactions) ← reads (pending_transactions raw crates texts)
    semantic_commit ← reads (λ s. completes (
        to_semantic_commit crates texts
          (agenda (agenda_of crates author now last_header transactions)) last_header))
    commit_on_work raw semantic_commit

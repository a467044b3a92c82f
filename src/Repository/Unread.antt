-- ===== src/Repository/Unread.antt =====
-- `DistributedRepository` of repository/src/lib.rs over `RawRepositoryImpl` of repository/src/raw, which is what
-- the program has: the commits on a branch can be located and not read.
use pdao_simperby.Repository.Lock.{helper_1}
use pdao_simperby.Prelude.{◌≡◌, refl, returns, panics, some, Outcome-cases, inl, inr}
use pdao_simperby.Results.{ok, err}
use pdao_simperby.Repository.Queries
use pdao_simperby.Repository.Git.{Git}
use pdao_simperby.Repository.Interface.{raw_repository_impl}
use pdao_simperby.Repository.Agenda.{create_agenda}
use pdao_simperby.Repository.Pending.{
  pending_transactions, get_last_finalized_block_header, raw_error, finalized_branch_name, Texts,
}
use pdao_simperby.Common.Encoding.{Crates}
use pdao_simperby.Common.Types.{PublicKey, Timestamp}

module _ {E R : Type 0} (git : Git E R) (crates : Crates) (texts : Texts) where
  pub create_agenda_on_git :
      (author : PublicKey) (now : Timestamp) (inner : R)
      → create_agenda (raw_repository_impl git) crates texts author now (some inner)
        ≡ elim (Queries.locate_branch git finalized_branch_name inner) [
          | panics ↦ panics
          | returns (err e) ↦ returns (err (raw_error e), some inner)
          | returns (ok commit_hash) ↦ panics
        ]
  unfolding create_agenda pending_transactions get_last_finalized_block_header raw_repository_impl
      helper_1 Queries.read_semantic_commit
  create_agenda_on_git author now inner =
      elim (Outcome-cases (Queries.locate_branch git finalized_branch_name inner)) [
        | inl p ↦ rw p refl
        | inr (err e, p) ↦ rw p refl
        | inr (ok c, p) ↦ rw p refl
      ]

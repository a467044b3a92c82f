-- ===== src/Repository/Interface.antt =====
-- repository/src/raw/mod.rs: `RawRepository`, over an existing repository, and its implementation by the
-- git repository behind the mutex.
use pdao_simperby.Repository.Queries
use pdao_simperby.Repository.Updates
use pdao_simperby.Repository.Lock.{
  Cell, helper_0, helper_1, helper_2, helper_2_mut, helper_1_mut, helper_0_mut,
}
use pdao_simperby.Results.{Call}
use pdao_simperby.Prelude.{Outcome, returns, panics, List, Option, ℕ}
use pdao_simperby.Repository.Git.{Git, RawError, Branch, CommitHash, Tag, SemanticCommit}
use pdao_simperby.Common.Bytes.{Bytes}
use pdao_simperby.Common.Types.{ReservedState}
use pdao_simperby.Results.Actions.{Action}

-- `RawRepository`: the calls that read the repository, and those that change it.
pub record RawRepository (E S : Type 0) : Type 0 where
  pub list_branches : S → Call (RawError E) (List Branch)
  pub locate_branch : Branch → S → Call (RawError E) CommitHash
  pub get_branches : CommitHash → S → Call (RawError E) (List Branch)
  pub list_tags : S → Call (RawError E) (List Tag)
  pub locate_tag : Tag → S → Call (RawError E) CommitHash
  pub get_tag : CommitHash → S → Call (RawError E) (List Tag)
  pub read_semantic_commit : CommitHash → S → Call (RawError E) SemanticCommit
  pub get_head : S → Call (RawError E) CommitHash
  pub get_initial_commit : S → Call (RawError E) CommitHash
  pub show_commit : CommitHash → S → Call (RawError E) Bytes
  pub list_ancestors : CommitHash → Option ℕ → S → Call (RawError E) (List CommitHash)
  pub list_descendants : CommitHash → Option ℕ → S → Call (RawError E) (List CommitHash)
  pub list_children : CommitHash → S → Call (RawError E) (List CommitHash)
  pub find_merge_base : CommitHash → CommitHash → S → Call (RawError E) CommitHash
  pub read_reserved_state : S → Call (RawError E) ReservedState
  pub list_remotes : S → Call (RawError E) (List (Bytes × Bytes))
  pub list_remote_tracking_branches : S → Call (RawError E) (List (Bytes × Bytes × CommitHash))
  pub create_branch : Branch → CommitHash → Action (RawError E) S (Unit {0})
  pub move_branch : Branch → CommitHash → Action (RawError E) S (Unit {0})
  pub delete_branch : Branch → Action (RawError E) S (Unit {0})
  pub create_tag : Tag → CommitHash → Action (RawError E) S (Unit {0})
  pub remove_tag : Tag → Action (RawError E) S (Unit {0})
  pub create_commit : Bytes → Option Bytes → Action (RawError E) S CommitHash
  pub create_semantic_commit : SemanticCommit → Action (RawError E) S CommitHash
  pub run_garbage_collection : Action (RawError E) S (Unit {0})
  pub checkout_clean : Action (RawError E) S (Unit {0})
  pub checkout : Branch → Action (RawError E) S (Unit {0})
  pub checkout_detach : CommitHash → Action (RawError E) S (Unit {0})
  pub add_remote : Bytes → Bytes → Action (RawError E) S (Unit {0})
  pub remove_remote : Bytes → Action (RawError E) S (Unit {0})
  pub fetch_all : Action (RawError E) S (Unit {0})

module _ {I A : Type 0} where
  -- What a caller sees of a call that went through the mutex: with a panic it ends.
  abbrev pub seen : Outcome A × Cell I → Outcome (A × Cell I)
  seen (returns r, cell) = returns (r, cell)
  seen (panics, cell) = panics

  abbrev pub answer_of : Outcome A × Cell I → Outcome A
  answer_of (answer, cell) = answer

module _ {E R : Type 0} (git : Git E R) where
  -- `create_branch` goes through `helper_2`, whose call of git writes the branch all the same.
  unfoldable pub raw_repository_impl : RawRepository E (Cell R)
  raw_repository_impl = record {
    list_branches = λ cell. answer_of (helper_0 (Queries.list_branches git) cell);
    locate_branch = λ a cell. answer_of (helper_1 (Queries.locate_branch git) a cell);
    get_branches = λ a cell. answer_of (helper_1 (Queries.get_branches git) a cell);
    list_tags = λ cell. answer_of (helper_0 (Queries.list_tags git) cell);
    locate_tag = λ a cell. answer_of (helper_1 (Queries.locate_tag git) a cell);
    get_tag = λ a cell. answer_of (helper_1 (Queries.get_tag git) a cell);
    read_semantic_commit = λ a cell. answer_of (helper_1 (Queries.read_semantic_commit git) a cell);
    get_head = λ cell. answer_of (helper_0 (Queries.get_head git) cell);
    get_initial_commit = λ cell. answer_of (helper_0 (Queries.get_initial_commit git) cell);
    show_commit = λ a cell. answer_of (helper_1 (Queries.show_commit git) a cell);
    list_ancestors = λ a b cell. answer_of (helper_2 (Queries.list_ancestors git) a b cell);
    list_descendants = λ a b cell. answer_of (helper_2 (Queries.list_descendants git) a b cell);
    list_children = λ a cell. answer_of (helper_1 (Queries.list_children git) a cell);
    find_merge_base = λ a b cell. answer_of (helper_2 (Queries.find_merge_base git) a b cell);
    read_reserved_state = λ cell. answer_of (helper_0 (Queries.read_reserved_state git) cell);
    list_remotes = λ cell. answer_of (helper_0 (Queries.list_remotes git) cell);
    list_remote_tracking_branches =
        λ cell. answer_of (helper_0 (Queries.list_remote_tracking_branches git) cell);
    create_branch = λ a b cell. seen (helper_2_mut (Updates.create_branch git) a b cell);
    move_branch = λ a b cell. seen (helper_2_mut (Updates.move_branch git) a b cell);
    delete_branch = λ a cell. seen (helper_1_mut (Updates.delete_branch git) a cell);
    create_tag = λ a b cell. seen (helper_2_mut (Updates.create_tag git) a b cell);
    remove_tag = λ a cell. seen (helper_1_mut (Updates.remove_tag git) a cell);
    create_commit = λ a b cell. seen (helper_2_mut (Updates.create_commit git) a b cell);
    create_semantic_commit =
        λ a cell. seen (helper_1_mut (Updates.create_semantic_commit git) a cell);
    run_garbage_collection = λ cell. seen (helper_0_mut (Updates.run_garbage_collection git) cell);
    checkout_clean = λ cell. seen (helper_0_mut (Updates.checkout_clean git) cell);
    checkout = λ a cell. seen (helper_1_mut (Updates.checkout git) a cell);
    checkout_detach = λ a cell. seen (helper_1_mut (Updates.checkout_detach git) a cell);
    add_remote = λ a b cell. seen (helper_2_mut (Updates.add_remote git) a b cell);
    remove_remote = λ a cell. seen (helper_1_mut (Updates.remove_remote git) a cell);
    fetch_all = λ cell. seen (helper_0_mut (Updates.fetch_all git) cell);
  }

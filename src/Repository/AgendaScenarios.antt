-- ===== src/Repository/AgendaScenarios.antt =====
-- A concrete agenda of repository/src/lib.rs, after one transaction, and `create_agenda` on a concrete git.
use pdao_simperby.Repository.Queries.{locate_branch}
use pdao_simperby.Repository.Unread.{create_agenda_on_git}
use pdao_simperby.Repository.Agenda.{create_agenda}
use pdao_simperby.Results.{err}
use pdao_simperby.Repository.Git.{git2_error}
use pdao_simperby.Repository.Fixtures.{Refs, set_ref, no_refs, two_objects}
use pdao_simperby.Prelude.{◌≡◌, ◌⊎◌, refl, arith, none, some, returns, [], ◌∷◌, map, pos, false}
use pdao_simperby.Common.Sequence.{
  new, CommitSequenceVerifier, apply_commit, apply_arm, first_transaction, with_diff, push_commit,
}
use pdao_simperby.Common.Types.{transaction, agenda, no_diff, Transaction}
use pdao_simperby.Common.Errors.{Error, transaction_phase}
use pdao_simperby.Common.Fixtures.{toy, alice, genesis, start_state}
use pdao_simperby.Common.Chains.{apply_all}
use pdao_simperby.Repository.Pending.{agenda_of, Texts, finalized_branch_name, raw_error}
use pdao_simperby.Common.Merkle.Binding.{Collision}
use pdao_simperby.Repository.Refused.{agenda_of-refused}
use pdao_simperby.Repository.Interface.{raw_repository_impl}

abbrev payment : Transaction
payment = record { author = alice; timestamp = pos 1; head = []; body = 5 ∷ []; diff = no_diff }

abbrev paid : CommitSequenceVerifier
paid = record {
  header = genesis;
  phase = transaction_phase payment [];
  reserved_state = start_state;
  commits = transaction payment ∷ [];
}

payment_accepted :
    apply_all toy (map transaction (payment ∷ [])) (new genesis start_state) ≡ returns (none, paid)
unfolding apply_all apply_commit apply_arm first_transaction with_diff push_commit new
payment_accepted = refl

agenda_of-refused_example :
    ((e : Error) × (apply_commit toy
          (agenda (agenda_of toy alice (pos 2) genesis (payment ∷ [])))
          paid
        ≡ returns (some e, paid)))
    ⊎ Collision toy.blake3
agenda_of-refused_example =
    agenda_of-refused toy alice (pos 2) genesis start_state (payment ∷ []) paid (omega arith)
      payment_accepted

abbrev plain_texts : Texts
plain_texts = record { header_of_json = λ body. some genesis; hex = λ bytes. bytes }

-- The branch `finalized` is at the root.
abbrev finalized_refs : Refs
finalized_refs = set_ref finalized_branch_name (some false) no_refs

-- Without it, the error of git comes back.
nothing_finalized :
    create_agenda (raw_repository_impl two_objects) toy plain_texts alice (pos 5) (some no_refs)
    ≡ returns (err (raw_error (git2_error 4)), some no_refs)
unfolding locate_branch
nothing_finalized = create_agenda_on_git two_objects toy plain_texts alice (pos 5) no_refs

-- ===== src/Vetomint/Scenarios.antt =====
-- Runs of the state machine on concrete heights.
use pdao_simperby.Prelude.{
  ℕ, none, some, List, [], ◌∷◌, ◌≡◌, refl, arith, returns, panics, true, Outcome, pos, sum64,
  add_i64, ◌≤◌, ◌<◌, Option, String, ◌↔◌,
}
use pdao_simperby.Vetomint.State.{
  HeightInfo, ConsensusEvent, ConsensusState, start, non_nil_precommit, new,
  block_proposal_received, non_nil_prevote, decide_proposer, finalize_block, nil_precommit, Round,
  timer, nil_prevote, violation_report, ConsensusResponse,
}
use pdao_simperby.Vetomint.Ballots.{
  Answer, handle_non_nil_prevote, handle_non_nil_precommit, after_non_nil_prevote, open_prevotes,
  open_precommits, open_round, cast_prevote, cast_precommit, count_prevote, count_precommit,
  record_vote, after_non_nil_precommit, handle_nil_prevote, handle_nil_precommit, after_nil_prevote,
  after_nil_precommit,
}
use pdao_simperby.Vetomint.Runs.{run, credits_of, credits_for_of, run-new-IsTallied}
use pdao_simperby.Vetomint.Progress.{
  progress, take_event, dispatch, handle_block_proposal, finish, handle_timeout, await_candidate,
}
use pdao_simperby.Vetomint.Rounds.{
  start_round, on_proposal, on_4f_non_nil_prevote_in_prevote_step, lock_entries, credit_proposal,
  credit_votes, this_node_voting_power, on_5f_precommit, on_4f_non_nil_prevote_in_propose_step,
  on_4f_nil_prevote, on_5f_prevote, first_quorum, on_timeout_propose, on_timeout_precommit,
}
use pdao_simperby.BtreeMap.{get, insert}
use pdao_simperby.Vetomint.Agreement.{agreement}
use pdao_simperby.Vetomint.Audit.{IsTallied}
use pdao_simperby.Vetomint.Finality.{Finalizes, progress-Finalizes, finalized_in}
use pdao_simperby.Vetomint.Refusals.{IsRefused, progress-none_iff}
use pdao_simperby.Vetomint.Moves.{ledger}
use pdao_simperby.Vetomint.Steps.{Advance}
use pdao_simperby.Vetomint.PanicCauses.{PanicCause}
use pdao_simperby.Vetomint.Phases.{progress-Advance}
use pdao_simperby.Vetomint.Totality.{progress-PanicCause}
use pdao_simperby.Vetomint.Leaders.{decide_proposer_fair}
use pdao_simperby.Vetomint.Violations.{second_vote_reported, nil_prevote_again}

-- Four validators of power 1, watched by a node that is none of them.
abbrev four : HeightInfo
four = record {
  validators = 1 ∷ 1 ∷ 1 ∷ 1 ∷ [];
  this_node_index = none;
  timestamp = pos 0;
  consensus_params = record { timeout_ms = 1000; repeat_round_for_first_leader = 1 };
  initial_block_candidate = 5;
}

-- A proposal in round 0, three prevotes and two precommits for it.
abbrev nearly : List ConsensusEvent
nearly =
    start (pos 0)
    ∷ block_proposal_received 7 none 0 0 (pos 1) true
    ∷ non_nil_prevote 7 0 0 (pos 2)
    ∷ non_nil_prevote 7 1 0 (pos 2)
    ∷ non_nil_prevote 7 2 0 (pos 2)
    ∷ non_nil_precommit 7 0 0 (pos 3)
    ∷ non_nil_precommit 7 1 0 (pos 3)
    ∷ []

abbrev third : ConsensusEvent
third = non_nil_precommit 7 2 0 (pos 3)

abbrev fourth : ConsensusEvent
fourth = non_nil_precommit 7 3 0 (pos 4)

abbrev state_of : Outcome ConsensusState → ConsensusState
state_of (returns s) = s
state_of panics = new four

abbrev next_of : Answer → ConsensusState
next_of (returns (r, s)) = s
next_of panics = new four

abbrev answer_of : Answer → Option (List ConsensusResponse)
answer_of (returns (r, s)) = r
answer_of panics = none

abbrev before : ConsensusState
before = state_of (run (new four) nearly)

abbrev after : ConsensusState
after = next_of (progress before third)

-- The functions that a run computes with.
machine : Unit {0}
unfolding run progress take_event await_candidate dispatch finish handle_timeout new start_round
    decide_proposer handle_block_proposal on_proposal on_4f_non_nil_prevote_in_propose_step
    credit_proposal credit_votes this_node_voting_power handle_non_nil_prevote handle_nil_prevote
    handle_non_nil_precommit handle_nil_precommit after_non_nil_prevote after_nil_prevote
    after_non_nil_precommit after_nil_precommit open_prevotes open_precommits open_round
    cast_prevote cast_precommit count_prevote count_precommit record_vote
    on_4f_non_nil_prevote_in_prevote_step lock_entries on_4f_nil_prevote on_5f_prevote first_quorum
    on_5f_precommit on_timeout_propose on_timeout_precommit get insert sum64 add_i64
machine = tt

third_finalizes : progress before third ≡ returns (some (finalize_block 7 ∷ []), after)
unfolding machine
third_finalizes = refl

fourth_finalizes :
    progress after fourth ≡ returns (some (finalize_block 7 ∷ []), next_of (progress after fourth))
unfolding machine
fourth_finalizes = refl

agreement_example : ◌≡◌ {A = ℕ} 7 7
unfolding machine
agreement_example =
    agreement four nearly [] before after after (next_of (progress after fourth)) third fourth
      (finalize_block 7 ∷ []) (finalize_block 7 ∷ []) 7 7 refl third_finalizes refl refl
      fourth_finalizes refl refl (omega arith) (omega arith)

run-new-IsTallied_example : IsTallied (ledger before) (credits_of nearly) (credits_for_of nearly)
unfolding machine
run-new-IsTallied_example = run-new-IsTallied four nearly before refl

progress-Finalizes_example : Finalizes 7 before third after
progress-Finalizes_example =
    progress-Finalizes before after third (finalize_block 7 ∷ []) 7 third_finalizes refl

progress-none_iff_example :
    (progress before (nil_precommit 3 9 (pos 3)) ≡ returns (none, before))
    ↔ ((before ≡ before) × IsRefused before (nil_precommit 3 9 (pos 3)))
progress-none_iff_example = progress-none_iff before before (nil_precommit 3 9 (pos 3))

progress-Advance_example : Advance before (finalize_block 7 ∷ []) after
progress-Advance_example =
    progress-Advance before after third (some (finalize_block 7 ∷ [])) refl third_finalizes

decide_proposer_fair_example :
    (round : Round) × (6 ≤ round) × (round < 10) × (decide_proposer round four ≡ returns 2)
decide_proposer_fair_example = decide_proposer_fair 6 2 four (omega arith) (omega arith)

-- A vote of an index that is no validator's.
stranger_panics : progress before (nil_precommit 4 0 (pos 3)) ≡ panics
unfolding machine
stranger_panics = refl

progress-PanicCause_example : PanicCause before (nil_precommit 4 0 (pos 3))
progress-PanicCause_example = progress-PanicCause before (nil_precommit 4 0 (pos 3)) stranger_panics

abbrev proposing : ConsensusState
proposing = state_of (run (new four) (start (pos 0) ∷ []))

second_vote_reported_example :
    (text : String) × (t : ConsensusState) × (progress before (nil_precommit 0 0 (pos 4))
      ≡ returns (some (violation_report 0 text ∷ []), t))
    × (t.votes ≡ before.votes)
unfolding machine
second_vote_reported_example =
    second_vote_reported before (nil_precommit 0 0 (pos 4)) 0 (some 7) refl refl refl refl refl
      (λ e. cc)

nil_prevote_again_example :
    progress before (nil_prevote 0 0 (pos 4)) ≡ progress (open_prevotes 0 before) (timer (pos 4))
unfolding machine
nil_prevote_again_example = nil_prevote_again before 0 (pos 4) (some 7) refl refl

-- Validator 2 prevotes nil twice in the propose step of the node.
abbrev nil_voted : ConsensusState
nil_voted = next_of (progress proposing (nil_prevote 2 0 (pos 1)))

repeated_nil_is_reported :
    progress nil_voted (nil_prevote 2 0 (pos 2))
    ≡ returns (some (violation_report 2 "Double NonNilPrevote" ∷ []), open_prevotes 0 nil_voted)
unfolding machine
repeated_nil_is_reported = nil_prevote_again nil_voted 2 (pos 2) none refl refl

-- A node that is validator 3 finalizes at the second precommit of the others, without having sent
-- its own: that was counted with the proposal.
abbrev voting : HeightInfo
voting = record four { this_node_index = some 3 }

own_precommit_counted :
    finalized_in (
      answer_of (
        progress
          (state_of (
            run (new voting) (
              start (pos 0)
              ∷ block_proposal_received 7 none 0 0 (pos 1) true
              ∷ non_nil_prevote 7 0 0 (pos 2)
              ∷ non_nil_prevote 7 1 0 (pos 2)
              ∷ non_nil_precommit 7 0 0 (pos 3)
              ∷ [])))
          (non_nil_precommit 7 1 0 (pos 3))))
    ≡ some 7
unfolding machine
own_precommit_counted = refl

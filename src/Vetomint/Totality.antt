-- ===== src/Vetomint/Totality.antt =====
-- Where `progress` can panic.
use pdao_simperby.Prelude.{
  ◌≡◌, ◌≢◌, inl, inr, returns, panics, none, some, List, [], ◌∷◌, arith, refl, Option, length,
  get_elem?, Option-cases, Bool, Outcome-cases, Outcome, subst, Bool-cases,
}
use pdao_simperby.Vetomint.State.{
  start, ConsensusEvent, ConsensusState, decide_proposer, Round, ValidatorIndex,
  block_proposal_received, Timestamp, BlockIdentifier, non_nil_prevote, nil_prevote,
  non_nil_precommit, nil_precommit, ConsensusResponse, block_candidate_updated, timer, event_time,
}
use pdao_simperby.Vetomint.Rounds.{
  on_proposal, on_4f_non_nil_prevote_in_propose_step, this_node_voting_power,
}
use pdao_simperby.Vetomint.Progress.{
  handle_block_proposal, dispatch, await_candidate, finish, progress, take_event,
}
use pdao_simperby.Vetomint.Ballots.{answered}
use pdao_simperby.BtreeMap.{get}
use pdao_simperby.Vetomint.Growth.{Move-height_info}
use pdao_simperby.Vetomint.Transitions.{take_event-Move}
use pdao_simperby.Vetomint.PanicCauses.{
  PanicCause, decide_proposer-panics, start_round-panics, handle_timeout-panics,
  handle_prevotes-panics, handle_precommits-panics,
}

in_propose_step-panics :
    (p : BlockIdentifier) (favor : Bool) (s : ConsensusState) (round vr : Round)
    → on_4f_non_nil_prevote_in_propose_step p favor s round vr ≡ panics
    → get s.votes vr ≡ none
unfolding on_4f_non_nil_prevote_in_propose_step
in_propose_step-panics p favor s round vr h = ground arith

on_proposal-panics :
    (p : BlockIdentifier) (favor : Bool) (s : ConsensusState) (round : Round)
    → on_proposal p favor s round ≡ panics
    → (x : ValidatorIndex) × (s.height_info.this_node_index ≡ some x)
      × (get_elem? s.height_info.validators x ≡ none)
unfolding on_proposal this_node_voting_power
on_proposal-panics p favor s round h = elim (Option-cases s.height_info.this_node_index) [
  | inl e ↦ absurd (ground arith)
  | inr (x, e) ↦ (x, e, ground arith)
]

handle_block_proposal-panics :
    (p : BlockIdentifier) (vr : Option Round) (i : ValidatorIndex) (round : Round)
    (time : Timestamp) (favor : Bool) (s : ConsensusState)
    → handle_block_proposal p vr i round favor s ≡ panics
    → PanicCause s (block_proposal_received p vr i round time favor)
unfolding handle_block_proposal
handle_block_proposal-panics p vr i round time favor s h =
    elim (Outcome-cases (decide_proposer round s.height_info)) [
      | inl d ↦ inl (decide_proposer-panics round s.height_info d)
      | inr (c, d) ↦ by_round vr h d
    ]
  where
    by_round :
        {c : ValidatorIndex} (vr : Option Round)
        → handle_block_proposal p vr i round favor s ≡ panics
        → decide_proposer round s.height_info ≡ returns c
        → PanicCause s (block_proposal_received p vr i round time favor)
    by_round none h d = inr (inr (inl (on_proposal-panics p favor s round (ground arith))))
    by_round (some v) h d =
        inr (inr (inr (v, refl, ground (arith, in_propose_step-panics p favor s round v))))

answered-panics :
    (m : Outcome (List ConsensusResponse × ConsensusState)) → answered m ≡ panics → m ≡ panics
answered-panics (returns a) h = cc
answered-panics panics h = refl

dispatch-panics : (e : ConsensusEvent) (s : ConsensusState) → dispatch e s ≡ panics → PanicCause s e
unfolding dispatch
dispatch-panics (start time) s h = inl (start_round-panics s 0 time (answered-panics _ h))
dispatch-panics (block_candidate_updated q time) s h = cc
dispatch-panics (timer time) s h = cc
dispatch-panics (block_proposal_received q vr i round time favor) s h =
    handle_block_proposal-panics q vr i round time favor s h
dispatch-panics (non_nil_prevote q i round time) s h =
    inr (inl (i, refl, handle_prevotes-panics q i round s (inl h)))
dispatch-panics (nil_prevote i round time) s h =
    inr (inl (i, refl, handle_prevotes-panics 0 i round s (inr h)))
dispatch-panics (non_nil_precommit q i round time) s h =
    inr (inl (i, refl, handle_precommits-panics q i round time s (inl h)))
dispatch-panics (nil_precommit i round time) s h =
    inr (inl (i, refl, handle_precommits-panics 0 i round time s (inr h)))

await_candidate-returns : (e : ConsensusEvent) (s : ConsensusState) → await_candidate e s ≢ panics
unfolding await_candidate
await_candidate-returns (block_candidate_updated q time) s h = cc
await_candidate-returns _ s h = cc

finish-panics :
    (e : ConsensusEvent) (q : Option (List ConsensusResponse)) (u : ConsensusState)
    → finish e q u ≡ panics
    → length u.height_info.validators ≡ 0
unfolding finish
finish-panics e none u h = cc
finish-panics e (some (x ∷ xs)) u h = cc
finish-panics e (some []) u h = handle_timeout-panics (event_time e) u (answered-panics _ h)

take_event-panics :
    (e : ConsensusEvent) (s : ConsensusState) → take_event e s ≡ panics → PanicCause s e
unfolding take_event
take_event-panics e s p = elim (Bool-cases s.waiting_for_proposal_creation) [
  | inl w ↦ absurd (await_candidate-returns e s (ground arith))
  | inr w ↦ dispatch-panics e s (ground arith)
]

-- `progress` panics for four causes only: there are no validators, a vote is signed by an index that
-- is no validator's, this node's index is no validator's, or a proposal claims a valid round with
-- no tallies. In all other cases it returns.
pub progress-PanicCause :
    (s : ConsensusState) (e : ConsensusEvent) → progress s e ≡ panics → PanicCause s e
unfolding progress
progress-PanicCause s e h = elim (Outcome-cases (take_event e s)) [
  | inl p ↦ take_event-panics e s p
  | inr (a, p) ↦ inl (
      subst (λ info. length info.validators ≡ 0) (Move-height_info (take_event-Move e s a.1 a.0 p))
        (finish-panics e a.0 a.1 (ground arith)))
]

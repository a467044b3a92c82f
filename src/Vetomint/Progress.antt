-- ===== src/Vetomint/Progress.antt =====
-- vetomint/src/progress.rs: `progress`, the transition of the state machine, and runs of it.
use pdao_simperby.Prelude.{
  Bool, false, ◌&&◌, not, Option, none, some, List, [], ◌∷◌, ltb, ◌==◌, if◌then◌else◌, ltb_ℤ,
  Outcome, returns, ◌>>=◌, ◌≡◌, >>=-eq-returns,
}
use pdao_simperby.Vetomint.State.{
  BlockIdentifier, ValidatorIndex, Round, Timestamp, ConsensusEvent, start, block_proposal_received,
  block_candidate_updated, non_nil_prevote, non_nil_precommit, nil_prevote, nil_precommit, timer,
  event_time, ConsensusResponse, broadcast_proposal, propose, precommit, ConsensusState,
  decide_proposer,
}
use pdao_simperby.Vetomint.Rounds.{
  step_eq, start_round, on_proposal, on_4f_non_nil_prevote_in_propose_step, on_timeout_propose,
  on_timeout_precommit,
}
use pdao_simperby.Vetomint.Ballots.{
  Answer, answered, handle_non_nil_prevote, handle_nil_prevote, handle_non_nil_precommit,
  handle_nil_precommit,
}

unfoldable pub handle_block_proposal :
    BlockIdentifier → Option Round → ValidatorIndex → Round → Bool → ConsensusState → Answer
handle_block_proposal proposal valid_round proposer round favor s =
    decide_proposer round s.height_info >>= λ current_proposer. answered (
      if proposer == current_proposer && step_eq s.step propose
      then elim valid_round [
        | some vr ↦
            if ltb vr round
            then on_4f_non_nil_prevote_in_propose_step proposal favor s round vr
            else returns ([], s)
        | none ↦ on_proposal proposal favor s round
      ]
      else returns ([], s))

-- The arms of the `match event`.
unfoldable pub dispatch : ConsensusEvent → ConsensusState → Answer
dispatch (start time) s = answered (start_round s 0 time)
dispatch (block_candidate_updated proposal time) s =
    returns (some [], record s { block_candidate = proposal })
dispatch (block_proposal_received proposal valid_round proposer round time favor) s =
    handle_block_proposal proposal valid_round proposer round favor s
dispatch (timer time) s = returns (some [], s)
dispatch (non_nil_prevote proposal signer round time) s =
    handle_non_nil_prevote proposal signer round s
dispatch (nil_prevote signer round time) s = handle_nil_prevote signer round s
dispatch (non_nil_precommit proposal signer round time) s =
    handle_non_nil_precommit proposal signer round time s
dispatch (nil_precommit signer round time) s = handle_nil_precommit signer round time s

-- The state machine that waits for a proposal takes nothing but a block candidate.
unfoldable pub await_candidate : ConsensusEvent → ConsensusState → Answer
await_candidate (block_candidate_updated proposal time) s = returns (
  some (broadcast_proposal proposal s.round ∷ []),
  record s { waiting_for_proposal_creation = false; block_candidate = proposal },
)
await_candidate _ s = returns (none, s)

-- `time >= timeout`, for a timeout that is set.
abbrev pub is_due : Timestamp → Option Timestamp → Bool
is_due time none = false
is_due time (some timeout) = not (ltb_ℤ time timeout)

unfoldable pub handle_timeout :
    Timestamp → ConsensusState → Outcome (List ConsensusResponse × ConsensusState)
handle_timeout time s = elim s.step [
  | propose ↦ if is_due time s.timeout_propose then on_timeout_propose s else returns ([], s)
  | precommit ↦
      if is_due time s.timeout_precommit then on_timeout_precommit s time else returns ([], s)
  | _ ↦ returns ([], s)
]

-- The timeouts are looked at only after an event that was taken and answered by nothing.
unfoldable pub finish : ConsensusEvent → Option (List ConsensusResponse) → ConsensusState → Answer
finish event none s = returns (none, s)
finish event (some (r ∷ rs)) s = returns (some (r ∷ rs), s)
finish event (some []) s = answered (handle_timeout (event_time event) s)

-- The first half of `progress`: what the event itself does.
unfoldable pub take_event : ConsensusEvent → ConsensusState → Answer
take_event event s =
    if s.waiting_for_proposal_creation then await_candidate event s else dispatch event s

unfoldable pub progress : ConsensusState → ConsensusEvent → Answer
progress s event = take_event event s >>= λ (result, t). finish event result t

-- A transition that returned took the event and then looked at the timeouts.
pub progress-eq-returns :
    (s : ConsensusState) (e : ConsensusEvent) {r : Option (List ConsensusResponse)}
    {t : ConsensusState}
    → progress s e ≡ returns (r, t)
    → (q : Option (List ConsensusResponse)) × (u : ConsensusState) × (take_event e s
        ≡ returns (q, u))
      × (finish e q u ≡ returns (r, t))
unfolding progress
progress-eq-returns s e h = let (a, p, k) = >>=-eq-returns (take_event e s) _ h in (a.0, a.1, p, k)

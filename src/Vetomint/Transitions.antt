-- ===== src/Vetomint/Transitions.antt =====
-- Every transition of the state machine is one move of the ledger.
use pdao_simperby.Prelude.{
  Bool, ◌&&◌, Option, none, some, List, Outcome, [], inl, inr, ◌≡◌, arith, get_elem?, ◌==◌, returns,
  Bool-cases, Option-cases, >>=-eq-returns, if◌then◌else◌, refl, unwrap, ◌>>=◌,
}
use pdao_simperby.BtreeMap.{get, get_or}
use pdao_simperby.Vetomint.State.{
  BlockIdentifier, ValidatorIndex, Round, Timestamp, ConsensusEvent, start, block_proposal_received,
  block_candidate_updated, non_nil_prevote, non_nil_precommit, nil_prevote, nil_precommit, timer,
  ConsensusResponse, ConsensusState, propose, decide_proposer,
}
use pdao_simperby.Vetomint.Rounds.{
  step_eq, this_node_voting_power, on_proposal, on_4f_non_nil_prevote_in_propose_step,
}
use pdao_simperby.Vetomint.Ballots.{
  open_round, open_prevotes, open_precommits, cast_prevote, cast_precommit, handle_non_nil_prevote,
  handle_nil_prevote, handle_non_nil_precommit, handle_nil_precommit, after_non_nil_prevote,
  after_nil_prevote, after_non_nil_precommit, after_nil_precommit, answered,
}
use pdao_simperby.Vetomint.Progress.{
  handle_block_proposal, dispatch, await_candidate, take_event, progress, progress-eq-returns,
}
use pdao_simperby.Vetomint.Moves.{
  ledger, Move, kept, opened_prevotes, opened_precommits, prevoted, precommitted, credited,
  Move-ledger, start_round-ledger, after_non_nil_prevote-ledger, after_nil_prevote-ledger,
  after_non_nil_precommit-ledger, after_nil_precommit-ledger, answered-eq-returns, answered-ledger,
  finish-ledger,
}

prevote_ballot-Move :
    (ev : ConsensusEvent) (vote : Option BlockIdentifier) (i : ValidatorIndex) (round : Round)
    (s t : ConsensusState) (r : Option (List ConsensusResponse))
    (report : Option BlockIdentifier → List ConsensusResponse)
    (after : ConsensusState → Outcome (List ConsensusResponse × ConsensusState))
    → ((u t : ConsensusState) (rs : List ConsensusResponse)
        → after u ≡ returns (rs, t)
        → ledger t ≡ ledger u)
    → (if round == s.round
        then elim (get (get_or (open_round round s.prevote_history) round []) i) [
          | some past ↦ returns (some (report past), open_prevotes round s)
          | none ↦ unwrap (get_elem? s.height_info.validators i) >>= λ w.
              answered (after (cast_prevote vote i round w (open_prevotes round s)))
        ]
        else returns (none, s))
      ≡ returns (r, t)
    → Move s ev t
prevote_ballot-Move ev vote i round s t r report after keep h =
    elim (Bool-cases (round == s.round)) [
      | inr other ↦ kept (ground arith)
      | inl same ↦
          elim (Option-cases (get (get_or (open_round round s.prevote_history) round []) i)) [
            | inr (past, e) ↦ opened_prevotes round (ground arith)
            | inl e ↦ elim (Option-cases (get_elem? s.height_info.validators i)) [
              | inl out ↦ absurd (ground arith)
              | inr (w, q) ↦
                  let u = cast_prevote vote i round w (open_prevotes round s) in
                  prevoted vote i round w e q
                    (ground (arith, answered-ledger (after u) u t r (keep u t)))
            ]
          ]
    ]

precommit_ballot-Move :
    (ev : ConsensusEvent) (vote : Option BlockIdentifier) (i : ValidatorIndex) (round : Round)
    (s t : ConsensusState) (r : Option (List ConsensusResponse))
    (report : Option BlockIdentifier → List ConsensusResponse)
    (after : ConsensusState → Outcome (List ConsensusResponse × ConsensusState))
    → ((u t : ConsensusState) (rs : List ConsensusResponse)
        → after u ≡ returns (rs, t)
        → ledger t ≡ ledger u)
    → (if round == s.round
        then elim (get (get_or (open_round round s.precommit_history) round []) i) [
          | some past ↦ returns (some (report past), open_precommits round s)
          | none ↦ unwrap (get_elem? s.height_info.validators i) >>= λ w.
              answered (after (cast_precommit vote i round w (open_precommits round s)))
        ]
        else returns (none, s))
      ≡ returns (r, t)
    → Move s ev t
precommit_ballot-Move ev vote i round s t r report after keep h =
    elim (Bool-cases (round == s.round)) [
      | inr other ↦ kept (ground arith)
      | inl same ↦
          elim (Option-cases (get (get_or (open_round round s.precommit_history) round []) i)) [
            | inr (past, e) ↦ opened_precommits round (ground arith)
            | inl e ↦ elim (Option-cases (get_elem? s.height_info.validators i)) [
              | inl out ↦ absurd (ground arith)
              | inr (w, q) ↦
                  let u = cast_precommit vote i round w (open_precommits round s) in
                  precommitted vote i round w e q
                    (ground (arith, answered-ledger (after u) u t r (keep u t)))
            ]
          ]
    ]

handle_non_nil_prevote-Move :
    (p : BlockIdentifier) (i : ValidatorIndex) (round : Round) (time : Timestamp)
    (s t : ConsensusState) (r : Option (List ConsensusResponse))
    → handle_non_nil_prevote p i round s ≡ returns (r, t)
    → Move s (non_nil_prevote p i round time) t
unfolding handle_non_nil_prevote open_prevotes
handle_non_nil_prevote-Move p i round time s t r h =
    prevote_ballot-Move _ (some p) i round s t r _ (after_non_nil_prevote p round)
      (after_non_nil_prevote-ledger p round) h

handle_nil_prevote-Move :
    (i : ValidatorIndex) (round : Round) (time : Timestamp) (s t : ConsensusState)
    (r : Option (List ConsensusResponse))
    → handle_nil_prevote i round s ≡ returns (r, t)
    → Move s (nil_prevote i round time) t
unfolding handle_nil_prevote open_prevotes
handle_nil_prevote-Move i round time s t r h =
    prevote_ballot-Move _ none i round s t r _ (after_nil_prevote round)
      (after_nil_prevote-ledger round) h

handle_non_nil_precommit-Move :
    (p : BlockIdentifier) (i : ValidatorIndex) (round : Round) (time : Timestamp)
    (s t : ConsensusState) (r : Option (List ConsensusResponse))
    → handle_non_nil_precommit p i round time s ≡ returns (r, t)
    → Move s (non_nil_precommit p i round time) t
unfolding handle_non_nil_precommit open_precommits
handle_non_nil_precommit-Move p i round time s t r h =
    precommit_ballot-Move _ (some p) i round s t r _ (after_non_nil_precommit p round time)
      (after_non_nil_precommit-ledger p round time) h

handle_nil_precommit-Move :
    (i : ValidatorIndex) (round : Round) (time : Timestamp) (s t : ConsensusState)
    (r : Option (List ConsensusResponse))
    → handle_nil_precommit i round time s ≡ returns (r, t)
    → Move s (nil_precommit i round time) t
unfolding handle_nil_precommit open_precommits
handle_nil_precommit-Move i round time s t r h =
    precommit_ballot-Move _ none i round s t r _ (after_nil_precommit round time)
      (after_nil_precommit-ledger round time) h

on_proposal-Move :
    (p : BlockIdentifier) (i : ValidatorIndex) (favor : Bool) (s t : ConsensusState) (round : Round)
    (time : Timestamp) (rs : List ConsensusResponse)
    → on_proposal p favor s round ≡ returns (rs, t)
    → Move s (block_proposal_received p none i round time favor) t
unfolding on_proposal
on_proposal-Move p i favor s t round time rs h =
    let (w, e, k) = >>=-eq-returns (this_node_voting_power s) _ h in
    credited p i favor round time w refl e (ground arith)

in_propose_step-ledger :
    (p : BlockIdentifier) (favor : Bool) (s t : ConsensusState) (round vr : Round)
    (rs : List ConsensusResponse)
    → on_4f_non_nil_prevote_in_propose_step p favor s round vr ≡ returns (rs, t)
    → ledger t ≡ ledger s
unfolding on_4f_non_nil_prevote_in_propose_step
in_propose_step-ledger p favor s t round vr rs h = ground arith

handle_block_proposal-Move :
    (p : BlockIdentifier) (vr : Option Round) (i : ValidatorIndex) (round : Round)
    (time : Timestamp) (favor : Bool) (s t : ConsensusState) (r : Option (List ConsensusResponse))
    → handle_block_proposal p vr i round favor s ≡ returns (r, t)
    → Move s (block_proposal_received p vr i round time favor) t
unfolding handle_block_proposal
handle_block_proposal-Move p none i round time favor s t r h =
    let (c, _, k) = >>=-eq-returns (decide_proposer round s.height_info) _ h in
    let (rs, m, _) = answered-eq-returns _ k in
    elim (Bool-cases (i == c && step_eq s.step propose)) [
      | inr other ↦ kept (ground arith)
      | inl taken ↦ on_proposal-Move p i favor s t round time rs (ground arith)
    ]
handle_block_proposal-Move p (some v) i round time favor s t r h =
    let (c, _, k) = >>=-eq-returns (decide_proposer round s.height_info) _ h in
    let (rs, m, _) = answered-eq-returns _ k in
    kept (ground (arith, in_propose_step-ledger p favor s t round v rs))

dispatch-Move :
    (e : ConsensusEvent) (s t : ConsensusState) (r : Option (List ConsensusResponse))
    → dispatch e s ≡ returns (r, t)
    → Move s e t
unfolding dispatch
dispatch-Move (start time) s t r h =
    kept (answered-ledger _ s t r (start_round-ledger s t 0 time) h)
dispatch-Move (block_candidate_updated p time) s t r h = kept (ground arith)
dispatch-Move (timer time) s t r h = kept (ground arith)
dispatch-Move (block_proposal_received p vr i round time favor) s t r h =
    handle_block_proposal-Move p vr i round time favor s t r h
dispatch-Move (non_nil_prevote p i round time) s t r h =
    handle_non_nil_prevote-Move p i round time s t r h
dispatch-Move (nil_prevote i round time) s t r h = handle_nil_prevote-Move i round time s t r h
dispatch-Move (non_nil_precommit p i round time) s t r h =
    handle_non_nil_precommit-Move p i round time s t r h
dispatch-Move (nil_precommit i round time) s t r h = handle_nil_precommit-Move i round time s t r h

await_candidate-ledger :
    (e : ConsensusEvent) (s t : ConsensusState) (r : Option (List ConsensusResponse))
    → await_candidate e s ≡ returns (r, t)
    → ledger t ≡ ledger s
unfolding await_candidate
await_candidate-ledger (block_candidate_updated p time) s t r h = ground arith
await_candidate-ledger _ s t r h = ground arith

pub take_event-Move :
    (e : ConsensusEvent) (s t : ConsensusState) (r : Option (List ConsensusResponse))
    → take_event e s ≡ returns (r, t)
    → Move s e t
unfolding take_event
take_event-Move e s t r h = elim (Bool-cases s.waiting_for_proposal_creation) [
  | inl w ↦ kept (await_candidate-ledger e s t r (ground arith))
  | inr w ↦ dispatch-Move e s t r (ground arith)
]

-- A transition of the state machine touches the records of the votes in one way at most: it opens
-- the history of a round, enters one fresh vote of a known validator, or credits this node.
pub progress-Move :
    (s t : ConsensusState) (e : ConsensusEvent) (r : Option (List ConsensusResponse))
    → progress s e ≡ returns (r, t)
    → Move s e t
progress-Move s t e r h =
    let (q, u, p, k) = progress-eq-returns s e h in
    Move-ledger t (finish-ledger e q r u t k) (take_event-Move e s u q p)

-- ===== src/Vetomint/State.antt =====
-- vetomint/src/lib.rs: the parameters, the events, the responses and the state of one height.
-- `usize` values and identifiers are numbers, `u64` sums wrap, and a timestamp is an `i64`.
use pdao_simperby.Prelude.{
  ℕ, ◌+◌, ◌-◌, ◌%◌, String, Bool, false, Option, none, List, ℤ, [], length, ltb, ◌==◌,
  if◌then◌else◌, Outcome, returns, panics,
}
use pdao_simperby.BtreeMap.{BtreeMap}

abbrev pub ValidatorIndex : Type 0
ValidatorIndex = ℕ

abbrev pub BlockIdentifier : Type 0
BlockIdentifier = ℕ

abbrev pub Round : Type 0
Round = ℕ

abbrev pub VotingPower : Type 0
VotingPower = ℕ

abbrev pub Timestamp : Type 0
Timestamp = ℤ

pub record ConsensusParams : Type 0 where
  pub timeout_ms : ℕ
  pub repeat_round_for_first_leader : ℕ

pub data ConsensusEvent : Type 0 where
  start : (time : Timestamp) → ConsensusEvent
  block_proposal_received :
      (proposal : BlockIdentifier) (valid_round : Option Round) (proposer : ValidatorIndex)
      (round : Round) (time : Timestamp) (favor : Bool)
      → ConsensusEvent
  block_candidate_updated : (proposal : BlockIdentifier) (time : Timestamp) → ConsensusEvent
  non_nil_prevote :
      (proposal : BlockIdentifier) (signer : ValidatorIndex) (round : Round) (time : Timestamp)
      → ConsensusEvent
  non_nil_precommit :
      (proposal : BlockIdentifier) (signer : ValidatorIndex) (round : Round) (time : Timestamp)
      → ConsensusEvent
  nil_prevote : (signer : ValidatorIndex) (round : Round) (time : Timestamp) → ConsensusEvent
  nil_precommit : (signer : ValidatorIndex) (round : Round) (time : Timestamp) → ConsensusEvent
  timer : (time : Timestamp) → ConsensusEvent

abbrev pub event_time : ConsensusEvent → Timestamp
event_time (start time) = time
event_time (block_proposal_received proposal valid_round proposer round time favor) = time
event_time (block_candidate_updated proposal time) = time
event_time (non_nil_prevote proposal signer round time) = time
event_time (non_nil_precommit proposal signer round time) = time
event_time (nil_prevote signer round time) = time
event_time (nil_precommit signer round time) = time
event_time (timer time) = time

pub data ConsensusResponse : Type 0 where
  create_proposal : (round : Round) → ConsensusResponse
  broadcast_proposal : (proposal : BlockIdentifier) (round : Round) → ConsensusResponse
  broadcast_non_nil_prevote : (proposal : BlockIdentifier) (round : Round) → ConsensusResponse
  broadcast_non_nil_precommit : (proposal : BlockIdentifier) (round : Round) → ConsensusResponse
  broadcast_nil_prevote : (round : Round) → ConsensusResponse
  broadcast_nil_precommit : (round : Round) → ConsensusResponse
  finalize_block : (proposal : BlockIdentifier) → ConsensusResponse
  violation_report : (violator : ValidatorIndex) (description : String) → ConsensusResponse

pub record HeightInfo : Type 0 where
  pub validators : List VotingPower
  pub this_node_index : Option ValidatorIndex
  pub timestamp : Timestamp
  pub consensus_params : ConsensusParams
  pub initial_block_candidate : BlockIdentifier

pub data ConsensusStep : Type 0 where
  initial propose prevote precommit : ConsensusStep

pub record Votes : Type 0 where
  pub prevotes_total : VotingPower
  pub prevotes_favor : BtreeMap VotingPower
  pub precommits_total : VotingPower
  pub precommits_favor : BtreeMap VotingPower

-- `Votes::default()`.
abbrev pub no_votes : Votes
no_votes = record {
  prevotes_total = 0;
  prevotes_favor = [];
  precommits_total = 0;
  precommits_favor = [];
}

-- What each validator voted in one round: a block, or nil.
abbrev pub VoteHistory : Type 0
VoteHistory = BtreeMap (Option BlockIdentifier)

pub record ConsensusState : Type 0 where
  pub step : ConsensusStep
  pub round : Round
  pub locked_value : Option BlockIdentifier
  pub locked_round : Option Round
  pub valid_value : Option BlockIdentifier
  pub valid_round : Option Round
  pub timeout_propose : Option Timestamp
  pub timeout_precommit : Option Timestamp
  pub prevote_history : BtreeMap VoteHistory
  pub precommit_history : BtreeMap VoteHistory
  pub votes : BtreeMap Votes
  pub waiting_for_proposal_creation : Bool
  pub block_candidate : BlockIdentifier
  pub height_info : HeightInfo

-- `ConsensusState::new`.
unfoldable pub new : HeightInfo → ConsensusState
new height_info = record {
  step = initial;
  round = 0;
  locked_value = none;
  locked_round = none;
  valid_value = none;
  valid_round = none;
  timeout_propose = none;
  timeout_precommit = none;
  prevote_history = [];
  precommit_history = [];
  votes = [];
  waiting_for_proposal_creation = false;
  block_candidate = height_info.initial_block_candidate;
  height_info = height_info;
}

-- `% height_info.validators.len()` panics where there are no validators.
unfoldable pub decide_proposer : Round → HeightInfo → Outcome ValidatorIndex
decide_proposer round info =
    if ltb round info.consensus_params.repeat_round_for_first_leader
    then returns 0
    else if length info.validators == 0
    then panics
    else returns
        ((round - info.consensus_params.repeat_round_for_first_leader + 1) % length info.validators)

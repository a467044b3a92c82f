-- ===== src/Vetomint/Ballots.antt =====
-- vetomint/src/progress.rs: how the four vote events are recorded in the histories and the tallies,
-- and the rule that each of them may fire.
use pdao_simperby.Prelude.{
  Bool, ◌&&◌, ◌||◌, not, Option, none, some, List, [], ◌∷◌, get_elem?, ◌==◌, if◌then◌else◌,
  option_eq, is_none, add64, sub64, sum64, Outcome, returns, ◌>>=◌, unwrap, String,
}
use pdao_simperby.BtreeMap.{BtreeMap, get, insert, get_or, values}
use pdao_simperby.Vetomint.State.{
  BlockIdentifier, ValidatorIndex, Round, VotingPower, Timestamp, ConsensusResponse,
  violation_report, prevote, precommit, Votes, no_votes, VoteHistory, ConsensusState,
}
use pdao_simperby.Vetomint.Rounds.{
  step_eq, is_quorum, is_supermajority, total_voting_power, on_4f_non_nil_prevote_in_prevote_step,
  on_4f_nil_prevote, on_5f_prevote, on_5f_precommit, on_4f_non_nil_precommit,
}

-- `if history.get(&round).is_none() { history.insert(round, BTreeMap::new()); }`.
unfoldable pub open_round : Round → BtreeMap VoteHistory → BtreeMap VoteHistory
open_round round history = elim (get history round) [
  | none ↦ insert round [] history
  | some votes ↦ history
]

unfoldable pub open_prevotes : Round → ConsensusState → ConsensusState
open_prevotes round s = record s { prevote_history = open_round round s.prevote_history }

unfoldable pub open_precommits : Round → ConsensusState → ConsensusState
open_precommits round s = record s { precommit_history = open_round round s.precommit_history }

-- The new entry of a signer in the history of a round.
unfoldable pub record_vote :
    Round → ValidatorIndex → Option BlockIdentifier → BtreeMap VoteHistory → BtreeMap VoteHistory
record_vote round signer vote history =
    insert round (insert signer vote (get_or history round [])) history

-- The tallies of a round after a prevote with this power.
unfoldable pub count_prevote : Option BlockIdentifier → VotingPower → Votes → Votes
count_prevote none power votes = record votes { prevotes_total = add64 votes.prevotes_total power }
count_prevote (some proposal) power votes = record votes {
  prevotes_total = add64 votes.prevotes_total power;
  prevotes_favor =
      insert proposal (add64 (get_or votes.prevotes_favor proposal 0) power) votes.prevotes_favor;
}

unfoldable pub count_precommit : Option BlockIdentifier → VotingPower → Votes → Votes
count_precommit none power votes = record votes {
  precommits_total = add64 votes.precommits_total power;
}
count_precommit (some proposal) power votes = record votes {
  precommits_total = add64 votes.precommits_total power;
  precommits_favor =
      insert proposal (add64 (get_or votes.precommits_favor proposal 0) power)
        votes.precommits_favor;
}

unfoldable pub cast_prevote :
    Option BlockIdentifier → ValidatorIndex → Round → VotingPower → ConsensusState → ConsensusState
cast_prevote vote signer round power s = record s {
  prevote_history = record_vote round signer vote s.prevote_history;
  votes = insert round (count_prevote vote power (get_or s.votes round no_votes)) s.votes;
}

unfoldable pub cast_precommit :
    Option BlockIdentifier → ValidatorIndex → Round → VotingPower → ConsensusState → ConsensusState
cast_precommit vote signer round power s = record s {
  precommit_history = record_vote round signer vote s.precommit_history;
  votes = insert round (count_precommit vote power (get_or s.votes round no_votes)) s.votes;
}

abbrev pub Answer : Type 0
Answer = Outcome (Option (List ConsensusResponse) × ConsensusState)

abbrev pub answered : Outcome (List ConsensusResponse × ConsensusState) → Answer
answered m = m >>= λ (responses, t). returns (some responses, t)

abbrev pub violation : Bool → ValidatorIndex → String → List ConsensusResponse
violation found signer description = if found then violation_report signer description ∷ [] else []

-- The rule that a fresh prevote for a block may fire. The tallies of the round are there: the
-- vote has just been counted.
unfoldable pub after_non_nil_prevote :
    BlockIdentifier → Round → ConsensusState → Outcome (List ConsensusResponse × ConsensusState)
after_non_nil_prevote proposal round s =
    let votes = get_or s.votes round no_votes in
    let total = total_voting_power s in
    if is_supermajority votes.prevotes_total total && step_eq s.step prevote
    then on_5f_prevote s round
    else if is_quorum (get_or votes.prevotes_favor proposal 0) total
        && (step_eq s.step prevote || step_eq s.step precommit)
    then on_4f_non_nil_prevote_in_prevote_step s round
    else returns ([], s)

unfoldable pub handle_non_nil_prevote :
    BlockIdentifier → ValidatorIndex → Round → ConsensusState → Answer
handle_non_nil_prevote proposal signer round s =
    let t = open_prevotes round s in
    if round == s.round
    then elim (get (get_or t.prevote_history round []) signer) [
      | some past_vote ↦ returns (
        some (violation (not (option_eq past_vote (some proposal))) signer "Double NonNilPrevote"),
        t,
      )
      | none ↦ unwrap (get_elem? s.height_info.validators signer) >>= λ power.
          answered (
            after_non_nil_prevote proposal round
              (cast_prevote (some proposal) signer round power t))
    ]
    else returns (none, s)

-- The nil prevotes are what the total has over the sum of the prevotes for blocks.
abbrev pub nil_prevotes : Votes → VotingPower
nil_prevotes votes = sub64 votes.prevotes_total (sum64 (values votes.prevotes_favor))

unfoldable pub after_nil_prevote :
    Round → ConsensusState → Outcome (List ConsensusResponse × ConsensusState)
after_nil_prevote round s =
    let votes = get_or s.votes round no_votes in
    let total = total_voting_power s in
    if is_supermajority votes.prevotes_total total && step_eq s.step prevote
    then on_5f_prevote s round
    else if is_quorum (nil_prevotes votes) total && step_eq s.step prevote
    then on_4f_nil_prevote s round
    else returns ([], s)

-- A second nil prevote is reported, and a nil prevote after one for a block is not: the test of
-- the source is `is_none`.
unfoldable pub handle_nil_prevote : ValidatorIndex → Round → ConsensusState → Answer
handle_nil_prevote signer round s =
    let t = open_prevotes round s in
    if round == s.round
    then elim (get (get_or t.prevote_history round []) signer) [
      | some past_vote ↦
          returns (some (violation (is_none past_vote) signer "Double NonNilPrevote"), t)
      | none ↦ unwrap (get_elem? s.height_info.validators signer) >>= λ power.
          answered (after_nil_prevote round (cast_prevote none signer round power t))
    ]
    else returns (none, s)

unfoldable pub after_nil_precommit :
    Round → Timestamp → ConsensusState → Outcome (List ConsensusResponse × ConsensusState)
after_nil_precommit round time s =
    let votes = get_or s.votes round no_votes in
    if is_supermajority votes.precommits_total (total_voting_power s)
      && step_eq s.step precommit
      && is_none s.timeout_precommit
    then on_5f_precommit s time
    else returns ([], s)

unfoldable pub after_non_nil_precommit :
    BlockIdentifier
    → Round
    → Timestamp
    → ConsensusState
    → Outcome (List ConsensusResponse × ConsensusState)
unfolding after_nil_precommit
after_non_nil_precommit proposal round time s =
    let votes = get_or s.votes round no_votes in
    if is_quorum (get_or votes.precommits_favor proposal 0) (total_voting_power s)
      && step_eq s.step precommit
    then returns (on_4f_non_nil_precommit proposal, s)
    else after_nil_precommit round time s

unfoldable pub handle_non_nil_precommit :
    BlockIdentifier → ValidatorIndex → Round → Timestamp → ConsensusState → Answer
handle_non_nil_precommit proposal signer round time s =
    let t = open_precommits round s in
    if round == s.round
    then elim (get (get_or t.precommit_history round []) signer) [
      | some past_commit ↦ returns (
        some (
            violation (not (option_eq past_commit (some proposal))) signer
              "Double NonNilPrecommit"),
        t,
      )
      | none ↦ unwrap (get_elem? s.height_info.validators signer) >>= λ power. answered (
          after_non_nil_precommit proposal round time
            (cast_precommit (some proposal) signer round power t))
    ]
    else returns (none, s)

unfoldable pub handle_nil_precommit : ValidatorIndex → Round → Timestamp → ConsensusState → Answer
handle_nil_precommit signer round time s =
    let t = open_precommits round s in
    if round == s.round
    then elim (get (get_or t.precommit_history round []) signer) [
      | some past_commit ↦
          returns (some (violation (not (is_none past_commit)) signer "Double NonNilPrecommit"), t)
      | none ↦ unwrap (get_elem? s.height_info.validators signer) >>= λ power.
          answered (after_nil_precommit round time (cast_precommit none signer round power t))
    ]
    else returns (none, s)

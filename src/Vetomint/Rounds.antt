-- ===== src/Vetomint/Rounds.antt =====
-- vetomint/src/progress.rs: the actions that the rules of the protocol name, from `start_round` on.
use pdao_simperby.Prelude.{
  suc, Bool, true, false, ◌&&◌, ◌||◌, Option, none, some, List, [], ◌∷◌, ◌++◌, get_elem?, ltb,
  if◌then◌else◌, option_eq, is_none, unwrap_or, add64, mul64, sum64, add_i64, as_i64, Outcome,
  returns, ◌>>=◌, unwrap,
}
use pdao_simperby.BtreeMap.{BtreeMap, get, insert, get_or}
use pdao_simperby.Vetomint.State.{
  BlockIdentifier, Round, VotingPower, Timestamp, ConsensusResponse, broadcast_proposal,
  broadcast_non_nil_prevote, broadcast_non_nil_precommit, broadcast_nil_prevote,
  broadcast_nil_precommit, finalize_block, ConsensusStep, initial, propose, prevote, precommit,
  Votes, no_votes, ConsensusState, decide_proposer,
}

-- `==` of `ConsensusStep`.
abbrev pub step_eq : ConsensusStep → ConsensusStep → Bool
step_eq initial initial = true
step_eq propose propose = true
step_eq prevote prevote = true
step_eq precommit precommit = true
step_eq _ _ = false

-- More than two thirds of the total, as the source computes it in `u64`.
abbrev pub is_quorum : VotingPower → VotingPower → Bool
is_quorum power total = ltb (mul64 total 2) (mul64 power 3)

-- More than five sixths of the total.
abbrev pub is_supermajority : VotingPower → VotingPower → Bool
is_supermajority power total = ltb (mul64 total 5) (mul64 power 6)

abbrev pub total_voting_power : ConsensusState → VotingPower
total_voting_power s = sum64 s.height_info.validators

-- `time + timeout_ms as i64`.
abbrev pub deadline : Timestamp → ConsensusState → Timestamp
deadline time s = add_i64 time (as_i64 s.height_info.consensus_params.timeout_ms)

unfoldable pub start_round :
    ConsensusState → Round → Timestamp → Outcome (List ConsensusResponse × ConsensusState)
start_round s round time =
    let t = record s { round = round; step = propose; timeout_precommit = none } in
    decide_proposer round s.height_info >>= λ proposer. returns (
      if option_eq (some proposer) s.height_info.this_node_index
      then elim s.valid_value [
        | some x ↦ (broadcast_proposal x round ∷ [], t)
        | none ↦ (
          broadcast_proposal s.block_candidate round ∷ [],
          record t { waiting_for_proposal_creation = true },
        )
      ]
      else ([], record t { timeout_propose = some (deadline time s) }))

-- `state.height_info.validators[x]` of this node, or 0 for a node that is no validator.
unfoldable pub this_node_voting_power : ConsensusState → Outcome VotingPower
this_node_voting_power s = elim s.height_info.this_node_index [
  | some x ↦ unwrap (get_elem? s.height_info.validators x)
  | none ↦ returns 0
]

-- A proposal in favour counts as a prevote and as a precommit of this node at once.
unfoldable pub credit_votes : BlockIdentifier → Bool → VotingPower → Votes → Votes
credit_votes proposal favor power votes =
    let counted = record votes {
      prevotes_total = add64 votes.prevotes_total power;
      precommits_total = add64 votes.precommits_total power;
    } in
    if favor
    then record counted {
      prevotes_favor =
          insert proposal (add64 (get_or votes.prevotes_favor proposal 0) power)
            votes.prevotes_favor;
      precommits_favor =
          insert proposal (add64 (get_or votes.precommits_favor proposal 0) power)
            votes.precommits_favor;
    }
    else counted

unfoldable pub credit_proposal :
    BlockIdentifier → Bool → Round → VotingPower → ConsensusState → ConsensusState
credit_proposal proposal favor round power s = record s {
  step = prevote;
  votes = insert round (credit_votes proposal favor power (get_or s.votes round no_votes)) s.votes;
}

unfoldable pub on_proposal :
    BlockIdentifier
    → Bool
    → ConsensusState
    → Round
    → Outcome (List ConsensusResponse × ConsensusState)
on_proposal proposal favor s round = this_node_voting_power s >>= λ power. returns (
  (if option_eq (some proposal) s.locked_value || (favor && is_none s.locked_round)
        then broadcast_non_nil_prevote proposal round
        else broadcast_nil_prevote round)
      ∷ [],
  credit_proposal proposal favor round power s,
)

unfoldable pub on_4f_non_nil_prevote_in_propose_step :
    BlockIdentifier
    → Bool
    → ConsensusState
    → Round
    → Round
    → Outcome (List ConsensusResponse × ConsensusState)
on_4f_non_nil_prevote_in_propose_step proposal favor s round valid_round =
    unwrap (get s.votes valid_round) >>= λ votes. returns (
      if is_quorum (get_or votes.prevotes_favor proposal 0) (total_voting_power s)
      then (
        (if option_eq (some proposal) s.locked_value
                || (favor && ltb (unwrap_or s.locked_round 0) valid_round)
              then broadcast_non_nil_prevote proposal round
              else broadcast_nil_prevote round)
            ∷ [],
        record s { step = prevote },
      )
      else ([], s))

-- The body of the `for` of `on_4f_non_nil_prevote_in_prevote_step`, for one entry of the map.
unfoldable pub lock_entry :
    Round
    → VotingPower
    → BlockIdentifier
    → VotingPower
    → ConsensusState
    → List ConsensusResponse × ConsensusState
lock_entry round total proposal power s =
    let valid = record s { valid_round = some round; valid_value = some proposal } in
    if is_quorum power total
    then if step_eq s.step prevote
      then (
        broadcast_non_nil_precommit proposal s.round ∷ [],
        record valid { step = precommit; locked_round = some round; locked_value = some proposal },
      )
      else ([], valid)
    else ([], s)

unfoldable pub lock_entries :
    Round
    → VotingPower
    → BtreeMap VotingPower
    → ConsensusState
    → List ConsensusResponse × ConsensusState
unfolding lock_entry
lock_entries round total [] s = ([], s)
lock_entries round total ((proposal, power) ∷ m) s =
    let (first, t) = lock_entry round total proposal power s in
    let (rest, u) = lock_entries round total m t in (first ++ rest, u)

unfoldable pub on_4f_non_nil_prevote_in_prevote_step :
    ConsensusState → Round → Outcome (List ConsensusResponse × ConsensusState)
on_4f_non_nil_prevote_in_prevote_step s round = unwrap (get s.votes round) >>= λ votes.
    returns (lock_entries round (total_voting_power s) votes.prevotes_favor s)

unfoldable pub on_4f_nil_prevote :
    ConsensusState → Round → Outcome (List ConsensusResponse × ConsensusState)
on_4f_nil_prevote s round =
    returns (broadcast_nil_precommit round ∷ [], record s { step = precommit })

-- The `for` of `on_5f_prevote`: the first block with a quorum, in the order of the map.
unfoldable pub first_quorum : VotingPower → BtreeMap VotingPower → Option BlockIdentifier
first_quorum total [] = none
first_quorum total ((proposal, power) ∷ m) = elim (is_quorum power total) [
  | true ↦ some proposal
  | false ↦ first_quorum total m
]

unfoldable pub on_5f_prevote :
    ConsensusState → Round → Outcome (List ConsensusResponse × ConsensusState)
on_5f_prevote s round = unwrap (get s.votes round) >>= λ votes.
    returns (elim (first_quorum (total_voting_power s) votes.prevotes_favor) [
      | some proposal ↦ (
        broadcast_non_nil_precommit proposal s.round ∷ [],
        record s { step = precommit; locked_round = some round; locked_value = some proposal },
      )
      | none ↦ (broadcast_nil_precommit s.round ∷ [], record s { step = precommit })
    ])

unfoldable pub on_5f_precommit :
    ConsensusState → Timestamp → Outcome (List ConsensusResponse × ConsensusState)
on_5f_precommit s time = returns ([], record s { timeout_precommit = some (deadline time s) })

abbrev pub on_4f_non_nil_precommit : BlockIdentifier → List ConsensusResponse
on_4f_non_nil_precommit proposal = finalize_block proposal ∷ []

unfoldable pub on_timeout_propose :
    ConsensusState → Outcome (List ConsensusResponse × ConsensusState)
on_timeout_propose s = returns (
    if step_eq s.step propose
    then (broadcast_nil_prevote s.round ∷ [], record s { step = prevote; timeout_propose = none })
    else ([], s))

-- `state.round + 1` is a count of rounds in `usize` and is left unbounded.
unfoldable pub on_timeout_precommit :
    ConsensusState → Timestamp → Outcome (List ConsensusResponse × ConsensusState)
on_timeout_precommit s time =
    if step_eq s.step precommit
    then start_round (record s { step = propose; timeout_precommit = none }) (suc s.round) time
    else returns ([], s)

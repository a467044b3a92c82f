-- ===== src/Vetomint/PanicCauses.antt =====
-- Why the handlers of votes panic.
use pdao_simperby.Prelude.{
  suc, ◌≡◌, ◌≢◌, ◌⊎◌, inl, inr, panics, none, some, arith, Option, length, get_elem?, Option-cases,
}
use pdao_simperby.Vetomint.State.{
  propose, ConsensusEvent, ConsensusState, decide_proposer, Round, ValidatorIndex,
  block_proposal_received, HeightInfo, Timestamp, BlockIdentifier, non_nil_prevote, VotingPower,
  nil_prevote, non_nil_precommit, nil_precommit, no_votes,
}
use pdao_simperby.Vetomint.Rounds.{
  start_round, on_timeout_propose, on_4f_non_nil_prevote_in_prevote_step, on_4f_nil_prevote,
  on_timeout_precommit, on_5f_prevote, on_5f_precommit,
}
use pdao_simperby.Vetomint.Progress.{handle_timeout}
use pdao_simperby.Vetomint.Ballots.{
  after_non_nil_prevote, after_nil_prevote, cast_prevote, handle_non_nil_prevote,
  handle_non_nil_precommit, handle_nil_prevote, handle_nil_precommit, after_non_nil_precommit,
  count_prevote, open_prevotes,
}
use pdao_simperby.BtreeMap.{get, get_or}
use pdao_simperby.BtreeMap.Laws.{get-insert}

-- The validator whose vote the event is.
abbrev pub vote_signer : ConsensusEvent → Option ValidatorIndex
vote_signer (non_nil_prevote proposal signer round time) = some signer
vote_signer (nil_prevote signer round time) = some signer
vote_signer (non_nil_precommit proposal signer round time) = some signer
vote_signer (nil_precommit signer round time) = some signer
vote_signer _ = none

-- The valid round that a proposal claims.
abbrev pub claimed_round : ConsensusEvent → Option Round
claimed_round (block_proposal_received proposal valid_round proposer round time favor) = valid_round
claimed_round _ = none

-- There are no validators, the signer of a vote or this node is none of them, or a proposal claims
-- a valid round with no tallies.
abbrev pub PanicCause : ConsensusState → ConsensusEvent → Type 0
PanicCause s e =
    (length s.height_info.validators ≡ 0)
    ⊎ ((i : ValidatorIndex) × (vote_signer e ≡ some i)
        × (get_elem? s.height_info.validators i ≡ none))
    ⊎ ((x : ValidatorIndex) × (s.height_info.this_node_index ≡ some x)
        × (get_elem? s.height_info.validators x ≡ none))
    ⊎ ((vr : Round) × (claimed_round e ≡ some vr) × (get s.votes vr ≡ none))

pub decide_proposer-panics :
    (round : Round) (info : HeightInfo)
    → decide_proposer round info ≡ panics
    → length info.validators ≡ 0
unfolding decide_proposer
decide_proposer-panics round info h = ground arith

pub start_round-panics :
    (s : ConsensusState) (round : Round) (time : Timestamp)
    → start_round s round time ≡ panics
    → length s.height_info.validators ≡ 0
unfolding start_round
start_round-panics s round time h = ground (arith, decide_proposer-panics round s.height_info)

pub handle_timeout-panics :
    (time : Timestamp) (s : ConsensusState)
    → handle_timeout time s ≡ panics
    → length s.height_info.validators ≡ 0
unfolding handle_timeout on_timeout_propose on_timeout_precommit
handle_timeout-panics time s h = ground (
  arith,
  start_round-panics (record s { step = propose; timeout_precommit = none }) (suc s.round) time,
)

after_non_nil_prevote-panics :
    (p : BlockIdentifier) (round : Round) (s : ConsensusState)
    → after_non_nil_prevote p round s ≡ panics
    → get s.votes round ≡ none
unfolding after_non_nil_prevote on_4f_non_nil_prevote_in_prevote_step on_5f_prevote
after_non_nil_prevote-panics p round s h = ground arith

after_nil_prevote-panics :
    (round : Round) (s : ConsensusState)
    → after_nil_prevote round s ≡ panics
    → get s.votes round ≡ none
unfolding after_nil_prevote on_4f_nil_prevote on_5f_prevote
after_nil_prevote-panics round s h = ground arith

cast_prevote-counted :
    (v : Option BlockIdentifier) (i : ValidatorIndex) (round : Round) (w : VotingPower)
    (s : ConsensusState)
    → get (cast_prevote v i round w s).votes round ≢ none
unfolding cast_prevote
cast_prevote-counted v i round w s h =
    ground
      (arith, get-insert round round (count_prevote v w (get_or s.votes round no_votes)) s.votes)

pub handle_prevotes-panics :
    (p : BlockIdentifier) (i : ValidatorIndex) (round : Round) (s : ConsensusState)
    → (handle_non_nil_prevote p i round s ≡ panics) ⊎ (handle_nil_prevote i round s ≡ panics)
    → get_elem? s.height_info.validators i ≡ none
unfolding handle_non_nil_prevote handle_nil_prevote
handle_prevotes-panics p i round s h = elim (Option-cases (get_elem? s.height_info.validators i)) [
  | inl e ↦ e
  | inr (w, e) ↦
      let t = open_prevotes round s in
      absurd (
        ground (
          arith,
          after_non_nil_prevote-panics p round (cast_prevote (some p) i round w t),
          cast_prevote-counted (some p) i round w t,
          after_nil_prevote-panics round (cast_prevote none i round w t),
          cast_prevote-counted none i round w t,
        ))
]

pub handle_precommits-panics :
    (p : BlockIdentifier) (i : ValidatorIndex) (round : Round) (time : Timestamp)
    (s : ConsensusState)
    → (handle_non_nil_precommit p i round time s ≡ panics)
      ⊎ (handle_nil_precommit i round time s ≡ panics)
    → get_elem? s.height_info.validators i ≡ none
unfolding handle_non_nil_precommit handle_nil_precommit after_non_nil_precommit on_5f_precommit
handle_precommits-panics p i round time s h = ground arith

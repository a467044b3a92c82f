-- ===== src/Vetomint/Moves.antt =====
-- What a transition may do to the records of the votes. The four fields of the state that hold them
-- are its ledger; the rest of the state is control.
use pdao_simperby.Prelude.{
  suc, Bool, Option, none, some, List, [], ◌∷◌, inl, inr, ◌≡◌, refl, ◌∙◌, arith, get_elem?, Outcome,
  returns, panics, Option-cases,
}
use pdao_simperby.BtreeMap.{BtreeMap, get, get_or}
use pdao_simperby.Vetomint.State.{
  BlockIdentifier, ValidatorIndex, Round, VotingPower, Timestamp, HeightInfo, Votes, VoteHistory,
  ConsensusEvent, ConsensusEvent, block_proposal_received, ConsensusResponse, ConsensusState,
  ConsensusStep,
}
use pdao_simperby.Vetomint.Rounds.{
  start_round, this_node_voting_power, credit_proposal, lock_entry, lock_entries,
  on_4f_non_nil_prevote_in_prevote_step, on_4f_nil_prevote, on_5f_prevote, on_5f_precommit,
  on_timeout_propose, on_timeout_precommit, total_voting_power,
}
use pdao_simperby.Vetomint.Ballots.{
  answered, open_round, open_prevotes, open_precommits, cast_prevote, cast_precommit,
  after_non_nil_prevote, after_nil_prevote, after_non_nil_precommit, after_nil_precommit,
}
use pdao_simperby.Vetomint.Progress.{handle_timeout, finish}

pub record Ledger : Type 0 where
  pub height_info : HeightInfo
  pub prevote_history : BtreeMap VoteHistory
  pub precommit_history : BtreeMap VoteHistory
  pub votes : BtreeMap Votes

abbrev pub ledger : ConsensusState → Ledger
ledger s = record {
  height_info = s.height_info;
  prevote_history = s.prevote_history;
  precommit_history = s.precommit_history;
  votes = s.votes;
}

pub data Move (s : ConsensusState) (e : ConsensusEvent) (t : ConsensusState) : Type 0 where
  kept : ledger t ≡ ledger s → Move s e t
  opened_prevotes : (round : Round) → ledger t ≡ ledger (open_prevotes round s) → Move s e t
  opened_precommits : (round : Round) → ledger t ≡ ledger (open_precommits round s) → Move s e t
  prevoted :
      (vote : Option BlockIdentifier) (signer : ValidatorIndex) (round : Round)
      (power : VotingPower)
      → get (get_or (open_round round s.prevote_history) round []) signer ≡ none
      → get_elem? s.height_info.validators signer ≡ some power
      → ledger t ≡ ledger (cast_prevote vote signer round power (open_prevotes round s))
      → Move s e t
  precommitted :
      (vote : Option BlockIdentifier) (signer : ValidatorIndex) (round : Round)
      (power : VotingPower)
      → get (get_or (open_round round s.precommit_history) round []) signer ≡ none
      → get_elem? s.height_info.validators signer ≡ some power
      → ledger t ≡ ledger (cast_precommit vote signer round power (open_precommits round s))
      → Move s e t
  credited :
      (proposal : BlockIdentifier) (proposer : ValidatorIndex) (favor : Bool) (round : Round)
      (time : Timestamp) (power : VotingPower)
      → e ≡ block_proposal_received proposal none proposer round time favor
      → this_node_voting_power s ≡ returns power
      → ledger t ≡ ledger (credit_proposal proposal favor round power s)
      → Move s e t

pub Move-ledger :
    {s u : ConsensusState} {e : ConsensusEvent} (t : ConsensusState)
    → ledger t ≡ ledger u
    → Move s e u
    → Move s e t
Move-ledger t e (kept f) = kept (e ∙ f)
Move-ledger t e (opened_prevotes r f) = opened_prevotes r (e ∙ f)
Move-ledger t e (opened_precommits r f) = opened_precommits r (e ∙ f)
Move-ledger t e (prevoted v i r w p q f) = prevoted v i r w p q (e ∙ f)
Move-ledger t e (precommitted v i r w p q f) = precommitted v i r w p q (e ∙ f)
Move-ledger t e (credited p i v r time w g q f) = credited p i v r time w g q (e ∙ f)

lock_entry-ledger :
    (round : Round) (total : VotingPower) (p : BlockIdentifier) (w : VotingPower)
    (s : ConsensusState)
    → ledger (lock_entry round total p w s).1 ≡ ledger s
unfolding lock_entry
lock_entry-ledger round total p w s = ground arith

pub lock_entries-ledger :
    (round : Round) (total : VotingPower) (m : BtreeMap VotingPower) (s : ConsensusState)
    → ledger (lock_entries round total m s).1 ≡ ledger s
unfolding lock_entries
lock_entries-ledger round total [] s = refl
lock_entries-ledger round total ((p, w) ∷ m) s =
    lock_entries-ledger round total m (lock_entry round total p w s).1
    ∙ lock_entry-ledger round total p w s

pub start_round-ledger :
    (s t : ConsensusState) (round : Round) (time : Timestamp) (rs : List ConsensusResponse)
    → start_round s round time ≡ returns (rs, t)
    → ledger t ≡ ledger s
unfolding start_round
start_round-ledger s t round time rs h = ground arith

on_5f_prevote-ledger :
    (s t : ConsensusState) (round : Round) (rs : List ConsensusResponse)
    → on_5f_prevote s round ≡ returns (rs, t)
    → ledger t ≡ ledger s
unfolding on_5f_prevote
on_5f_prevote-ledger s t round rs h = ground arith

in_prevote_step-ledger :
    (s t : ConsensusState) (round : Round) (rs : List ConsensusResponse)
    → on_4f_non_nil_prevote_in_prevote_step s round ≡ returns (rs, t)
    → ledger t ≡ ledger s
unfolding on_4f_non_nil_prevote_in_prevote_step
in_prevote_step-ledger s t round rs h = elim (Option-cases (get s.votes round)) [
  | inl e ↦ absurd (ground arith)
  | inr (v, e) ↦ ground (arith, lock_entries-ledger round (total_voting_power s) v.prevotes_favor s)
]

pub after_non_nil_prevote-ledger :
    (p : BlockIdentifier) (round : Round) (s t : ConsensusState) (rs : List ConsensusResponse)
    → after_non_nil_prevote p round s ≡ returns (rs, t)
    → ledger t ≡ ledger s
unfolding after_non_nil_prevote
after_non_nil_prevote-ledger p round s t rs h =
    ground (arith, on_5f_prevote-ledger s t round rs, in_prevote_step-ledger s t round rs)

pub after_nil_prevote-ledger :
    (round : Round) (s t : ConsensusState) (rs : List ConsensusResponse)
    → after_nil_prevote round s ≡ returns (rs, t)
    → ledger t ≡ ledger s
unfolding after_nil_prevote on_4f_nil_prevote
after_nil_prevote-ledger round s t rs h = ground (arith, on_5f_prevote-ledger s t round rs)

pub after_non_nil_precommit-ledger :
    (p : BlockIdentifier) (round : Round) (time : Timestamp) (s t : ConsensusState)
    (rs : List ConsensusResponse)
    → after_non_nil_precommit p round time s ≡ returns (rs, t)
    → ledger t ≡ ledger s
unfolding after_non_nil_precommit on_5f_precommit
after_non_nil_precommit-ledger p round time s t rs h = ground arith

pub after_nil_precommit-ledger :
    (round : Round) (time : Timestamp) (s t : ConsensusState) (rs : List ConsensusResponse)
    → after_nil_precommit round time s ≡ returns (rs, t)
    → ledger t ≡ ledger s
unfolding after_nil_precommit on_5f_precommit
after_nil_precommit-ledger round time s t rs h = ground arith

handle_timeout-ledger :
    (time : Timestamp) (s t : ConsensusState) (rs : List ConsensusResponse)
    → handle_timeout time s ≡ returns (rs, t)
    → ledger t ≡ ledger s
unfolding handle_timeout on_timeout_propose on_timeout_precommit
handle_timeout-ledger time s t rs h = ground (
  arith,
  start_round-ledger (record s { step = ConsensusStep.propose; timeout_precommit = none }) t
      (suc s.round) time rs,
)

pub answered-eq-returns :
    (m : Outcome (List ConsensusResponse × ConsensusState)) {r : Option (List ConsensusResponse)}
    {t : ConsensusState}
    → answered m ≡ returns (r, t)
    → (rs : List ConsensusResponse) × (m ≡ returns (rs, t)) × (r ≡ some rs)
answered-eq-returns (returns (rs, u)) h = (rs, ground arith, ground arith)
answered-eq-returns panics h = cc

pub finish-ledger :
    (e : ConsensusEvent) (q r : Option (List ConsensusResponse)) (u t : ConsensusState)
    → finish e q u ≡ returns (r, t)
    → ledger t ≡ ledger u
unfolding finish
finish-ledger e none r u t h = ground arith
finish-ledger e (some (x ∷ xs)) r u t h = ground arith
finish-ledger e (some []) r u t h =
    let (rs, k, _) = answered-eq-returns _ h in handle_timeout-ledger _ u t rs k

pub answered-ledger :
    (m : Outcome (List ConsensusResponse × ConsensusState)) (u t : ConsensusState)
    (r : Option (List ConsensusResponse))
    → ((rs : List ConsensusResponse) → m ≡ returns (rs, t) → ledger t ≡ ledger u)
    → answered m ≡ returns (r, t)
    → ledger t ≡ ledger u
answered-ledger m u t r keep h = let (rs, k, _) = answered-eq-returns m h in keep rs k

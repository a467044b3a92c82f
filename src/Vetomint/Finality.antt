-- ===== src/Vetomint/Finality.antt =====
-- When the state machine finalizes a block: `on_4f_non_nil_precommit` and the ways to it.
use pdao_simperby.Prelude.{
  suc, Bool, true, Option, none, some, List, [], ◌∷◌, ◌++◌, inl, inr, ◌≡◌, refl, arith, returns,
  Option-cases, Bool-cases,
}
use pdao_simperby.Vetomint.State.{
  ConsensusResponse, BlockIdentifier, finalize_block, Round, ConsensusState, VotingPower, Timestamp,
  ConsensusEvent, propose, ValidatorIndex, precommit, non_nil_precommit, start,
  block_candidate_updated, timer, event_time, block_proposal_received, non_nil_prevote, nil_prevote,
  nil_precommit,
}
use pdao_simperby.Vetomint.Rounds.{
  lock_entries, start_round, on_timeout_propose, on_proposal, on_5f_prevote, on_timeout_precommit,
  on_4f_non_nil_prevote_in_propose_step, on_4f_non_nil_prevote_in_prevote_step, on_4f_nil_prevote,
  on_5f_precommit, lock_entry, total_voting_power, is_quorum,
}
use pdao_simperby.Vetomint.Progress.{
  handle_timeout, handle_block_proposal, dispatch, await_candidate, take_event, finish, progress,
  progress-eq-returns,
}
use pdao_simperby.Vetomint.Ballots.{
  after_non_nil_prevote, after_nil_prevote, handle_non_nil_precommit, after_non_nil_precommit,
  cast_precommit, open_precommits, handle_nil_precommit, handle_non_nil_prevote, handle_nil_prevote,
  after_nil_precommit,
}
use pdao_simperby.BtreeMap.{BtreeMap, get, get_or}
use pdao_simperby.Vetomint.Tallies.{tallies_at}
use pdao_simperby.Vetomint.Moves.{answered-eq-returns}

-- The block of the first `FinalizeBlock` among the responses.
abbrev pub finalized : List ConsensusResponse → Option BlockIdentifier
finalized [] = none
finalized (finalize_block p ∷ rs) = some p
finalized (_ ∷ rs) = finalized rs

abbrev pub finalized_in : Option (List ConsensusResponse) → Option BlockIdentifier
finalized_in none = none
finalized_in (some rs) = finalized rs

finalized-append :
    (xs ys : List ConsensusResponse)
    → finalized xs ≡ none
    → finalized ys ≡ none
    → finalized (xs ++ ys) ≡ none
finalized-append [] ys h k = k
finalized-append (x ∷ xs) ys h k = ground (arith, finalized-append xs ys)

lock_entries_quiet :
    (round : Round) (total : VotingPower) (m : BtreeMap VotingPower) (s : ConsensusState)
    → finalized (lock_entries round total m s).0 ≡ none
unfolding lock_entries
lock_entries_quiet round total [] s = refl
lock_entries_quiet round total ((p, w) ∷ m) s =
    finalized-append (lock_entry round total p w s).0 _ (ground arith)
      (lock_entries_quiet round total m (lock_entry round total p w s).1)

start_round_quiet :
    (s t : ConsensusState) (round : Round) (time : Timestamp) (rs : List ConsensusResponse)
    → start_round s round time ≡ returns (rs, t)
    → finalized rs ≡ none
unfolding start_round
start_round_quiet s t round time rs h = ground arith

handle_timeout_quiet :
    (time : Timestamp) (s t : ConsensusState) (rs : List ConsensusResponse)
    → handle_timeout time s ≡ returns (rs, t)
    → finalized rs ≡ none
unfolding handle_timeout on_timeout_propose on_timeout_precommit
handle_timeout_quiet time s t rs h = ground (
  arith,
  start_round_quiet (record s { step = propose; timeout_precommit = none }) t (suc s.round) time rs,
)

handle_block_proposal_quiet :
    (p : BlockIdentifier) (vr : Option Round) (i : ValidatorIndex) (round : Round) (favor : Bool)
    (s t : ConsensusState) (rs : List ConsensusResponse)
    → handle_block_proposal p vr i round favor s ≡ returns (some rs, t)
    → finalized rs ≡ none
unfolding handle_block_proposal on_proposal on_4f_non_nil_prevote_in_propose_step
handle_block_proposal_quiet p vr i round favor s t rs h = ground arith

after_non_nil_prevote_quiet :
    (p : BlockIdentifier) (round : Round) (s t : ConsensusState) (rs : List ConsensusResponse)
    → after_non_nil_prevote p round s ≡ returns (rs, t)
    → finalized rs ≡ none
unfolding after_non_nil_prevote on_5f_prevote on_4f_non_nil_prevote_in_prevote_step
after_non_nil_prevote_quiet p round s t rs h = elim (Option-cases (get s.votes round)) [
  | inl e ↦ ground arith
  | inr (v, e) ↦ ground (arith, lock_entries_quiet round (total_voting_power s) v.prevotes_favor s)
]

after_nil_prevote_quiet :
    (round : Round) (s t : ConsensusState) (rs : List ConsensusResponse)
    → after_nil_prevote round s ≡ returns (rs, t)
    → finalized rs ≡ none
unfolding after_nil_prevote on_5f_prevote on_4f_nil_prevote
after_nil_prevote_quiet round s t rs h = ground arith

-- What finalizing means for the state: this signer's precommit for the block is entered now, and
-- the tally of the block is above two thirds.
pub record Finalizes (p : BlockIdentifier) (s : ConsensusState) (e : ConsensusEvent)
    (t : ConsensusState) : Type 0 where
  pub in_step : s.step ≡ precommit
  pub signer : ValidatorIndex
  pub time : Timestamp
  pub by_vote : e ≡ non_nil_precommit p signer s.round time
  pub same_round : t.round ≡ s.round
  pub quorum :
      is_quorum (get_or (tallies_at t.votes s.round).precommits_favor p 0) (total_voting_power t)
      ≡ true

handle_non_nil_precommit-finalized :
    (q p : BlockIdentifier) (i : ValidatorIndex) (round : Round) (time : Timestamp)
    (s t : ConsensusState) (rs : List ConsensusResponse)
    → handle_non_nil_precommit q i round time s ≡ returns (some rs, t)
    → finalized rs ≡ some p
    → Finalizes p s (non_nil_precommit q i round time) t
unfolding handle_non_nil_precommit after_non_nil_precommit on_5f_precommit cast_precommit
    open_precommits
handle_non_nil_precommit-finalized q p i round time s t rs h f = record {
  in_step = ground arith;
  signer = i;
  time = time;
  by_vote = ground arith;
  same_round = ground arith;
  quorum = ground arith;
}

handle_nil_precommit_quiet :
    (i : ValidatorIndex) (round : Round) (time : Timestamp) (s t : ConsensusState)
    (rs : List ConsensusResponse)
    → handle_nil_precommit i round time s ≡ returns (some rs, t)
    → finalized rs ≡ none
unfolding handle_nil_precommit after_nil_precommit on_5f_precommit
handle_nil_precommit_quiet i round time s t rs h = ground arith

handle_non_nil_prevote_quiet :
    (p : BlockIdentifier) (i : ValidatorIndex) (round : Round) (s t : ConsensusState)
    (rs : List ConsensusResponse)
    → handle_non_nil_prevote p i round s ≡ returns (some rs, t)
    → finalized rs ≡ none
unfolding handle_non_nil_prevote
handle_non_nil_prevote_quiet p i round s t rs h = grind (arith, after_non_nil_prevote_quiet)

handle_nil_prevote_quiet :
    (i : ValidatorIndex) (round : Round) (s t : ConsensusState) (rs : List ConsensusResponse)
    → handle_nil_prevote i round s ≡ returns (some rs, t)
    → finalized rs ≡ none
unfolding handle_nil_prevote
handle_nil_prevote_quiet i round s t rs h = grind (arith, after_nil_prevote_quiet)

dispatch-finalized :
    (e : ConsensusEvent) (p : BlockIdentifier) (s t : ConsensusState) (rs : List ConsensusResponse)
    → dispatch e s ≡ returns (some rs, t)
    → finalized rs ≡ some p
    → Finalizes p s e t
unfolding dispatch
dispatch-finalized (start time) p s t rs h f =
    let (xs, k, e) = answered-eq-returns _ h in
    absurd (ground (arith, start_round_quiet s t 0 time xs))
dispatch-finalized (block_candidate_updated q time) p s t rs h f = absurd (ground arith)
dispatch-finalized (timer time) p s t rs h f = absurd (ground arith)
dispatch-finalized (block_proposal_received q vr i round time favor) p s t rs h f =
    absurd (ground (arith, handle_block_proposal_quiet q vr i round favor s t rs))
dispatch-finalized (non_nil_prevote q i round time) p s t rs h f =
    absurd (ground (arith, handle_non_nil_prevote_quiet q i round s t rs))
dispatch-finalized (nil_prevote i round time) p s t rs h f =
    absurd (ground (arith, handle_nil_prevote_quiet i round s t rs))
dispatch-finalized (non_nil_precommit q i round time) p s t rs h f =
    handle_non_nil_precommit-finalized q p i round time s t rs h f
dispatch-finalized (nil_precommit i round time) p s t rs h f =
    absurd (ground (arith, handle_nil_precommit_quiet i round time s t rs))

await_candidate_quiet :
    (e : ConsensusEvent) (s t : ConsensusState) (rs : List ConsensusResponse)
    → await_candidate e s ≡ returns (some rs, t)
    → finalized rs ≡ none
unfolding await_candidate
await_candidate_quiet (block_candidate_updated q time) s t rs h = ground arith
await_candidate_quiet _ s t rs h = ground arith

take_event-finalized :
    (e : ConsensusEvent) (p : BlockIdentifier) (s t : ConsensusState) (rs : List ConsensusResponse)
    → take_event e s ≡ returns (some rs, t)
    → finalized rs ≡ some p
    → Finalizes p s e t
unfolding take_event
take_event-finalized e p s t rs h f = elim (Bool-cases s.waiting_for_proposal_creation) [
  | inl w ↦ absurd (ground (arith, await_candidate_quiet e s t rs))
  | inr w ↦ dispatch-finalized e p s t rs (ground arith) f
]

finish-finalized :
    (e : ConsensusEvent) (p : BlockIdentifier) (q : Option (List ConsensusResponse))
    (s u t : ConsensusState) (rs : List ConsensusResponse)
    → take_event e s ≡ returns (q, u)
    → finish e q u ≡ returns (some rs, t)
    → finalized rs ≡ some p
    → Finalizes p s e t
unfolding finish
finish-finalized e p none s u t rs h k f = absurd (ground arith)
finish-finalized e p (some (x ∷ xs)) s u t rs h k f =
    take_event-finalized e p s t rs (ground arith) f
finish-finalized e p (some []) s u t rs h k f =
    let (ys, m, g) = answered-eq-returns _ k in
    absurd (ground (arith, handle_timeout_quiet (event_time e) u t ys))

-- A transition that answers `FinalizeBlock` for a block was given a precommit for that block in the
-- current round, in the precommit step, does not leave the round, and leaves a tally of precommits
-- for the block that passes the test of two thirds.
pub progress-Finalizes :
    (s t : ConsensusState) (e : ConsensusEvent) (rs : List ConsensusResponse) (p : BlockIdentifier)
    → progress s e ≡ returns (some rs, t)
    → finalized rs ≡ some p
    → Finalizes p s e t
progress-Finalizes s t e rs p h f =
    let (q, u, k, m) = progress-eq-returns s e h in finish-finalized e p q s u t rs k m f

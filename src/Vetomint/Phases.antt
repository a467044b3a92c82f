-- ===== src/Vetomint/Phases.antt =====
-- The order of the steps: propose, prevote, precommit, next round; and one vote for each.
use pdao_simperby.Prelude.{
  suc, ◌≡◌, ◌⊎◌, inl, inr, returns, none, some, List, [], ◌∷◌, arith, false, Bool, Option-cases,
  Option, get_elem?, unwrap_or, ◌≢◌, ◌∙◌, ap, subst,
}
use pdao_simperby.Vetomint.State.{
  propose, start, ConsensusResponse, ConsensusEvent, ConsensusState, Round, Timestamp,
  BlockIdentifier, ValidatorIndex, block_candidate_updated, timer, block_proposal_received,
  non_nil_prevote, nil_prevote, non_nil_precommit, nil_precommit, event_time,
}
use pdao_simperby.Vetomint.Rounds.{
  on_timeout_propose, on_proposal, on_timeout_precommit, on_4f_non_nil_prevote_in_propose_step,
  credit_proposal, on_5f_precommit,
}
use pdao_simperby.Vetomint.Ballots.{
  handle_non_nil_prevote, handle_nil_prevote, handle_non_nil_precommit, cast_prevote,
  handle_nil_precommit, open_prevotes, cast_precommit, open_precommits, after_non_nil_precommit,
}
use pdao_simperby.Vetomint.Progress.{
  handle_timeout, handle_block_proposal, dispatch, await_candidate, take_event, finish, progress,
  progress-eq-returns,
}
use pdao_simperby.Vetomint.Moves.{answered-eq-returns}
use pdao_simperby.Vetomint.Refusals.{progress-none}
use pdao_simperby.Vetomint.Steps.{
  is_start, Within, Advance, after_non_nil_prevote-Within, after_nil_prevote-Within,
  start_round-next,
}

handle_timeout-Advance :
    (time : Timestamp) (s t : ConsensusState) (rs : List ConsensusResponse)
    → handle_timeout time s ≡ returns (rs, t)
    → Advance s rs t
unfolding handle_timeout on_timeout_propose on_timeout_precommit
handle_timeout-Advance time s t rs h = ground (
  arith,
  start_round-next (record s { step = propose; timeout_precommit = none }) t (suc s.round) time rs,
)

handle_block_proposal-Within :
    (p : BlockIdentifier) (vr : Option Round) (i : ValidatorIndex) (round : Round) (favor : Bool)
    (s t : ConsensusState) (rs : List ConsensusResponse)
    → handle_block_proposal p vr i round favor s ≡ returns (some rs, t)
    → Within s rs t
unfolding handle_block_proposal on_proposal on_4f_non_nil_prevote_in_propose_step credit_proposal
handle_block_proposal-Within p vr i round favor s t rs h = ground arith

handle_non_nil_prevote-Within :
    (p : BlockIdentifier) (i : ValidatorIndex) (round : Round) (s t : ConsensusState)
    (rs : List ConsensusResponse)
    → handle_non_nil_prevote p i round s ≡ returns (some rs, t)
    → Within s rs t
unfolding handle_non_nil_prevote cast_prevote open_prevotes
handle_non_nil_prevote-Within p i round s t rs h =
    elim (Option-cases (get_elem? s.height_info.validators i)) [
      | inl e ↦ ground arith
      | inr (w, e) ↦ ground (
        arith,
        after_non_nil_prevote-Within p round
            (cast_prevote (some p) i round w (open_prevotes round s)) t rs,
      )
    ]

handle_nil_prevote-Within :
    (i : ValidatorIndex) (round : Round) (s t : ConsensusState) (rs : List ConsensusResponse)
    → handle_nil_prevote i round s ≡ returns (some rs, t)
    → Within s rs t
unfolding handle_nil_prevote cast_prevote open_prevotes
handle_nil_prevote-Within i round s t rs h =
    elim (Option-cases (get_elem? s.height_info.validators i)) [
      | inl e ↦ ground arith
      | inr (w, e) ↦ ground (
        arith,
        after_nil_prevote-Within round (cast_prevote none i round w (open_prevotes round s)) t rs,
      )
    ]

handle_precommits-Within :
    (p : BlockIdentifier) (i : ValidatorIndex) (round : Round) (time : Timestamp)
    (s t : ConsensusState) (rs : List ConsensusResponse)
    → (handle_non_nil_precommit p i round time s ≡ returns (some rs, t))
      ⊎ (handle_nil_precommit i round time s ≡ returns (some rs, t))
    → Within s rs t
unfolding handle_non_nil_precommit handle_nil_precommit cast_precommit open_precommits
    after_non_nil_precommit on_5f_precommit
handle_precommits-Within p i round time s t rs h = ground arith

dispatch-Within :
    (e : ConsensusEvent) (s t : ConsensusState) (rs : List ConsensusResponse)
    → is_start e ≡ false
    → dispatch e s ≡ returns (some rs, t)
    → Within s rs t
unfolding dispatch
dispatch-Within (start time) s t rs n h = absurd (ground arith)
dispatch-Within (block_candidate_updated q time) s t rs n h = ground arith
dispatch-Within (timer time) s t rs n h = ground arith
dispatch-Within (block_proposal_received q vr i round time favor) s t rs n h =
    handle_block_proposal-Within q vr i round favor s t rs h
dispatch-Within (non_nil_prevote q i round time) s t rs n h =
    handle_non_nil_prevote-Within q i round s t rs h
dispatch-Within (nil_prevote i round time) s t rs n h = handle_nil_prevote-Within i round s t rs h
dispatch-Within (non_nil_precommit q i round time) s t rs n h =
    handle_precommits-Within q i round time s t rs (inl h)
dispatch-Within (nil_precommit i round time) s t rs n h =
    handle_precommits-Within 0 i round time s t rs (inr h)

await_candidate-Within :
    (e : ConsensusEvent) (s t : ConsensusState) (rs : List ConsensusResponse)
    → await_candidate e s ≡ returns (some rs, t)
    → Within s rs t
unfolding await_candidate
await_candidate-Within (block_candidate_updated q time) s t rs h = ground arith
await_candidate-Within _ s t rs h = ground arith

take_event-Within :
    (e : ConsensusEvent) (s t : ConsensusState) (rs : List ConsensusResponse)
    → is_start e ≡ false
    → take_event e s ≡ returns (some rs, t)
    → Within s rs t
unfolding take_event
take_event-Within e s t rs n h =
    ground (arith, await_candidate-Within e s t rs, dispatch-Within e s t rs)

finish-Advance :
    (e : ConsensusEvent) (xs : List ConsensusResponse) (r : Option (List ConsensusResponse))
    (s u t : ConsensusState)
    → Within s xs u
    → finish e (some xs) u ≡ returns (r, t)
    → Advance s (unwrap_or r []) t
unfolding finish
finish-Advance e (x ∷ xs) r s u t w h = ground arith
finish-Advance e [] r s u t w h =
    let (ys, m, g) = answered-eq-returns _ h in
    ground (arith, handle_timeout-Advance (event_time e) u t ys)

finish-ne-none :
    (e : ConsensusEvent) (q : Option (List ConsensusResponse)) (u t : ConsensusState)
    (rs : List ConsensusResponse)
    → q ≡ none
    → finish e q u ≢ returns (some rs, t)
unfolding finish
finish-ne-none e q u t rs w h = ground arith

-- Every transition but that of `Start` does one of four things: it keeps the step and the round and
-- broadcasts no vote, goes from propose to prevote with one prevote, from prevote to precommit with
-- one precommit, or from precommit to propose of the next round with no vote.
pub progress-Advance :
    (s t : ConsensusState) (e : ConsensusEvent) (r : Option (List ConsensusResponse))
    → is_start e ≡ false
    → progress s e ≡ returns (r, t)
    → Advance s (unwrap_or r []) t
progress-Advance s t e none n h = let (same, _) = progress-none s t e h in ground arith
progress-Advance s t e (some rs) n h =
    let (q, u, k, m) = progress-eq-returns s e h in
    elim (Option-cases q) [
      | inl w ↦ absurd (finish-ne-none e q u t rs w m)
      | inr (xs, w) ↦
          finish-Advance e xs (some rs) s u t
            (take_event-Within e s u xs n (k ∙ ap (λ x. returns (x, u)) w))
            (subst (λ x. finish e x u ≡ returns (some rs, t)) w m)
    ]

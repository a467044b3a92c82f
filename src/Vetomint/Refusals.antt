-- ===== src/Vetomint/Refusals.antt =====
-- vetomint/src/progress.rs: when `progress` answers `None`.
use pdao_simperby.Prelude.{
  ℕ, Bool, true, false, Option, none, some, List, [], ◌∷◌, ◌⊎◌, ◌≢◌, ◌≡◌, refl, arith, Outcome,
  returns, panics, ◌↔◌, ◌∙◌, ap, sym,
}
use pdao_simperby.Vetomint.State.{
  ConsensusEvent, start, block_proposal_received, block_candidate_updated, non_nil_prevote,
  non_nil_precommit, nil_prevote, nil_precommit, timer, ConsensusResponse, ConsensusState,
}
use pdao_simperby.Vetomint.Ballots.{
  answered, handle_non_nil_prevote, handle_nil_prevote, handle_non_nil_precommit,
  handle_nil_precommit,
}
use pdao_simperby.Vetomint.Progress.{
  handle_block_proposal, dispatch, await_candidate, finish, take_event, progress,
  progress-eq-returns,
}

-- The round of a vote.
abbrev pub vote_round : ConsensusEvent → Option ℕ
vote_round (non_nil_prevote proposal signer round time) = some round
vote_round (nil_prevote signer round time) = some round
vote_round (non_nil_precommit proposal signer round time) = some round
vote_round (nil_precommit signer round time) = some round
vote_round _ = none

abbrev pub is_candidate : ConsensusEvent → Bool
is_candidate (block_candidate_updated proposal time) = true
is_candidate _ = false

-- The events that are not taken: all but a block candidate while the node waits for one, and
-- otherwise the votes of another round.
abbrev pub IsRefused : ConsensusState → ConsensusEvent → Type 0
IsRefused s e =
    ((s.waiting_for_proposal_creation ≡ true) × (is_candidate e ≡ false))
    ⊎ ((s.waiting_for_proposal_creation ≡ false)
        × ((round : ℕ) × (vote_round e ≡ some round) × (round ≢ s.round)))

answered-ne-none :
    {t : ConsensusState} (m : Outcome (List ConsensusResponse × ConsensusState))
    → answered m ≢ returns (none, t)
answered-ne-none (returns (rs, u)) h = cc
answered-ne-none panics h = cc

finish-none :
    (e : ConsensusEvent) (r : Option (List ConsensusResponse)) (s t : ConsensusState)
    → finish e r s ≡ returns (none, t)
    → (r ≡ none) × (t ≡ s)
unfolding finish
finish-none e none s t h = (refl, ground arith)
finish-none e (some []) s t h = absurd (answered-ne-none _ h)
finish-none e (some (r ∷ rs)) s t h = ground arith

dispatch-none :
    (s t : ConsensusState) (e : ConsensusEvent)
    → dispatch e s ≡ returns (none, t)
    → (t ≡ s) × ((round : ℕ) × (vote_round e ≡ some round) × (round ≢ s.round))
unfolding dispatch handle_non_nil_prevote handle_nil_prevote handle_non_nil_precommit
    handle_nil_precommit handle_block_proposal
dispatch-none s t (start time) h = absurd (answered-ne-none _ h)
dispatch-none s t (block_proposal_received p v q r time f) h = ground arith
dispatch-none s t (non_nil_prevote p i r time) h = (ground arith, (r, refl, ground arith))
dispatch-none s t (nil_prevote i r time) h = (ground arith, (r, refl, ground arith))
dispatch-none s t (non_nil_precommit p i r time) h = (ground arith, (r, refl, ground arith))
dispatch-none s t (nil_precommit i r time) h = (ground arith, (r, refl, ground arith))
dispatch-none s t (block_candidate_updated p time) h = ground arith
dispatch-none s t (timer time) h = ground arith

await_candidate-none :
    (s t : ConsensusState) (e : ConsensusEvent)
    → await_candidate e s ≡ returns (none, t)
    → (t ≡ s) × (is_candidate e ≡ false)
unfolding await_candidate
await_candidate-none s t (block_candidate_updated p time) h = ground arith
await_candidate-none s t _ h = ground arith

pub progress-none :
    (s t : ConsensusState) (e : ConsensusEvent)
    → progress s e ≡ returns (none, t)
    → (t ≡ s) × IsRefused s e
unfolding take_event
progress-none s t e h =
    let (q, u, p, k) = progress-eq-returns s e h in
    let (eq, eu) = finish-none e q u t k in
    ground (arith, dispatch-none s u e, await_candidate-none s u e)

progress-refused :
    (s : ConsensusState) (e : ConsensusEvent) → IsRefused s e → progress s e ≡ returns (none, s)
unfolding progress take_event await_candidate dispatch finish handle_non_nil_prevote
    handle_nil_prevote handle_non_nil_precommit handle_nil_precommit
progress-refused s (start time) h = ground arith
progress-refused s _ h = ground arith

-- `progress` answers `None` just to the events that are refused, and then leaves the state as it was: the
-- events other than a block candidate while the node waits for a candidate, and the votes of another round.
pub progress-none_iff :
    (s t : ConsensusState) (e : ConsensusEvent)
    → (progress s e ≡ returns (none, t)) ↔ ((t ≡ s) × IsRefused s e)
progress-none_iff s t e = (
  progress-none s t e,
  λ (same, refused). progress-refused s e refused ∙ ap (λ u. returns (none, u)) (sym same),
)

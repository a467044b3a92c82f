-- ===== src/Vetomint/Violations.antt =====
-- Which second votes are reported as violations.
use pdao_simperby.Prelude.{
  ◌≡◌, ◌≢◌, returns, none, some, List, [], ◌∷◌, arith, false, Option, Bool, true, String, refl,
}
use pdao_simperby.Vetomint.Progress.{progress, dispatch, take_event, finish}
use pdao_simperby.Vetomint.Ballots.{
  handle_non_nil_prevote, handle_nil_prevote, handle_non_nil_precommit, open_prevotes,
  handle_nil_precommit, open_precommits, open_round,
}
use pdao_simperby.Vetomint.State.{
  ConsensusState, ConsensusEvent, ValidatorIndex, ConsensusResponse, BlockIdentifier, Timestamp,
  non_nil_prevote, nil_prevote, violation_report, non_nil_precommit, timer, nil_precommit,
}
use pdao_simperby.BtreeMap.{get}
use pdao_simperby.Vetomint.Tallies.{history_at}
use pdao_simperby.Vetomint.Refusals.{vote_round}
use pdao_simperby.Vetomint.PanicCauses.{vote_signer}

-- An event that was answered leaves no timeout to look at.
progress_of_dispatch :
    (s t : ConsensusState) (e : ConsensusEvent) (r : ConsensusResponse)
    (rs : List ConsensusResponse)
    → s.waiting_for_proposal_creation ≡ false
    → dispatch e s ≡ returns (some (r ∷ rs), t)
    → progress s e ≡ returns (some (r ∷ rs), t)
unfolding progress take_event finish
progress_of_dispatch s t e r rs w h = ground arith

-- The vote that the signer of a vote event has in the history of the current round.
abbrev pub recorded : ConsensusState → ConsensusEvent → Option (Option BlockIdentifier)
recorded s (non_nil_prevote p i round time) =
    get (history_at (open_round s.round s.prevote_history) s.round) i
recorded s (nil_prevote i round time) =
    get (history_at (open_round s.round s.prevote_history) s.round) i
recorded s (non_nil_precommit p i round time) =
    get (history_at (open_round s.round s.precommit_history) s.round) i
recorded s (nil_precommit i round time) =
    get (history_at (open_round s.round s.precommit_history) s.round) i
recorded s _ = none

abbrev pub vote_of : ConsensusEvent → Option BlockIdentifier
vote_of (non_nil_prevote p i round time) = some p
vote_of (non_nil_precommit p i round time) = some p
vote_of _ = none

abbrev pub is_nil_prevote : ConsensusEvent → Bool
is_nil_prevote (nil_prevote i round time) = true
is_nil_prevote _ = false

-- Where the node does not wait for a block candidate: a vote of the current round, other than a nil
-- prevote, whose signer has a vote of that kind for something else in the history is answered by a
-- report of the signer alone, and the tallies stay.
pub second_vote_reported :
    (s : ConsensusState) (e : ConsensusEvent) (i : ValidatorIndex) (past : Option BlockIdentifier)
    → s.waiting_for_proposal_creation ≡ false
    → is_nil_prevote e ≡ false
    → vote_round e ≡ some s.round
    → vote_signer e ≡ some i
    → recorded s e ≡ some past
    → past ≢ vote_of e
    → (text : String) × (t : ConsensusState) × (progress s e
        ≡ returns (some (violation_report i text ∷ []), t))
      × (t.votes ≡ s.votes)
unfolding dispatch handle_non_nil_prevote handle_non_nil_precommit handle_nil_precommit
    open_prevotes open_precommits
second_vote_reported s (non_nil_prevote p k round time) i past w n r g h d = (
  "Double NonNilPrevote",
  open_prevotes s.round s,
  progress_of_dispatch s _ _ _ _ w (ground arith),
  refl,
)
second_vote_reported s (non_nil_precommit p k round time) i past w n r g h d = (
  "Double NonNilPrecommit",
  open_precommits s.round s,
  progress_of_dispatch s _ _ _ _ w (ground arith),
  refl,
)
second_vote_reported s (nil_precommit k round time) i past w n r g h d = (
  "Double NonNilPrecommit",
  open_precommits s.round s,
  progress_of_dispatch s _ _ _ _ w (ground arith),
  refl,
)
second_vote_reported s _ i past w n r g h d = absurd (ground arith)

nil_after_block_unreported :
    (s : ConsensusState) (i : ValidatorIndex) (time : Timestamp) (p : BlockIdentifier)
    → s.waiting_for_proposal_creation ≡ false
    → recorded s (nil_prevote i s.round time) ≡ some (some p)
    → progress s (nil_prevote i s.round time) ≡ progress (open_prevotes s.round s) (timer time)
unfolding progress take_event finish dispatch handle_nil_prevote open_prevotes
nil_after_block_unreported s i time p w h = ground arith

repeated_nil_prevote_reported :
    (s : ConsensusState) (i : ValidatorIndex) (time : Timestamp)
    → s.waiting_for_proposal_creation ≡ false
    → recorded s (nil_prevote i s.round time) ≡ some none
    → progress s (nil_prevote i s.round time)
      ≡ returns (some (violation_report i "Double NonNilPrevote" ∷ []), open_prevotes s.round s)
unfolding dispatch handle_nil_prevote open_prevotes
repeated_nil_prevote_reported s i time w h = progress_of_dispatch s _ _ _ _ w (ground arith)

-- A prevote for nil in the current round of a validator that has prevoted in it, where the node does not
-- wait for a candidate: after a prevote for a block it goes unreported, and the event is answered as if it
-- were a timer; repeated, it is reported as a violation.
pub nil_prevote_again :
    (s : ConsensusState) (i : ValidatorIndex) (time : Timestamp) (past : Option BlockIdentifier)
    → s.waiting_for_proposal_creation ≡ false
    → recorded s (nil_prevote i s.round time) ≡ some past
    → progress s (nil_prevote i s.round time) ≡ elim past [
      | none ↦
          returns (some (violation_report i "Double NonNilPrevote" ∷ []), open_prevotes s.round s)
      | some p ↦ progress (open_prevotes s.round s) (timer time)
    ]
nil_prevote_again s i time none w h = repeated_nil_prevote_reported s i time w h
nil_prevote_again s i time (some p) w h = nil_after_block_unreported s i time p w h

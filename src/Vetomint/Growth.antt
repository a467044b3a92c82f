-- ===== src/Vetomint/Growth.antt =====
-- What grows along a run: the entries of the histories, and the credits.
use pdao_simperby.Prelude.{
  ℕ, ◌+◌, ◌≤◌, none, List, [], ◌∷◌, ◌++◌, inl, inr, ◌≡◌, refl, arith, returns, sum, ap,
  returns-injective, Option, >>=-eq-returns, ◌∙◌, Bool-cases, ◌==◌,
}
use pdao_simperby.BtreeMap.{BtreeMap, get}
use pdao_simperby.Vetomint.State.{
  HeightInfo, ConsensusState, ConsensusEvent, BlockIdentifier, Round, VotingPower, ValidatorIndex,
  VoteHistory, ConsensusResponse,
}
use pdao_simperby.Vetomint.Ballots.{
  open_prevotes, open_precommits, cast_prevote, cast_precommit, open_round, record_vote,
}
use pdao_simperby.Vetomint.Rounds.{credit_proposal}
use pdao_simperby.Vetomint.Moves.{
  Move, kept, opened_prevotes, opened_precommits, prevoted, precommitted, credited,
}
use pdao_simperby.Vetomint.Counting.{cast_for, cast_for-insert}
use pdao_simperby.Vetomint.Tallies.{history_at}
use pdao_simperby.Vetomint.Audit.{history_at-open, history_at-record}
use pdao_simperby.Vetomint.Runs.{run, credits_for_of}
use pdao_simperby.Vetomint.Progress.{progress}
use pdao_simperby.Vetomint.Transitions.{progress-Move}

-- The exact sum of the voting powers.
abbrev pub total_power : HeightInfo → ℕ
total_power info = sum info.validators

cast_for-record :
    (p : BlockIdentifier) (vs : List VotingPower) (q r : Round) (i : ValidatorIndex)
    (b : Option BlockIdentifier) (h : BtreeMap VoteHistory)
    → get (history_at h q) i ≡ none
    → cast_for p vs (history_at h r) ≤ cast_for p vs (history_at (record_vote q i b h) r)
cast_for-record p vs q r i b h fresh =
    rw (history_at-record q r i b h) (elim (Bool-cases (q == r)) [
      | inl e ↦ rw e (omega (arith, cast_for-insert p vs i b (history_at h r) (ground arith)))
      | inr e ↦ rw e (omega arith)
    ])

-- The entries of a history only grow, so the exact power behind a block never falls.
Move-cast_for :
    {s t : ConsensusState} {e : ConsensusEvent} (p : BlockIdentifier) (r : Round)
    → Move s e t
    → cast_for p s.height_info.validators (history_at s.precommit_history r)
      ≤ cast_for p s.height_info.validators (history_at t.precommit_history r)
unfolding open_prevotes open_precommits cast_prevote cast_precommit credit_proposal
Move-cast_for p r (kept f) = rw (ap (λ l. l.precommit_history) f) (omega arith)
Move-cast_for p r (opened_prevotes q f) = rw (ap (λ l. l.precommit_history) f) (omega arith)
Move-cast_for {s} p r (opened_precommits q f) =
    rw (ap (λ l. l.precommit_history) f, history_at-open q r s.precommit_history) (omega arith)
Move-cast_for p r (prevoted b i q w fresh known f) =
    rw (ap (λ l. l.precommit_history) f) (omega arith)
Move-cast_for {s} p r (precommitted b i q w fresh known f) =
    rw (ap (λ l. l.precommit_history) f, ← history_at-open q r s.precommit_history)
      (cast_for-record p s.height_info.validators q r i b (open_round q s.precommit_history) fresh)
Move-cast_for p r (credited b i favor q time w g h f) =
    rw (ap (λ l. l.precommit_history) f) (omega arith)

pub Move-height_info :
    {s t : ConsensusState} {e : ConsensusEvent} → Move s e t → t.height_info ≡ s.height_info
unfolding open_prevotes open_precommits cast_prevote cast_precommit credit_proposal
Move-height_info (kept f) = ap (λ l. l.height_info) f
Move-height_info (opened_prevotes q f) = ap (λ l. l.height_info) f
Move-height_info (opened_precommits q f) = ap (λ l. l.height_info) f
Move-height_info (prevoted b i q w fresh known f) = ap (λ l. l.height_info) f
Move-height_info (precommitted b i q w fresh known f) = ap (λ l. l.height_info) f
Move-height_info (credited b i favor q time w g h f) = ap (λ l. l.height_info) f

-- What a run does to the parameters and to the power behind a block.
pub run-cast_for :
    (p : BlockIdentifier) (r : Round) (s t : ConsensusState) (es : List ConsensusEvent)
    → run s es ≡ returns t
    → (t.height_info ≡ s.height_info)
      × (cast_for p s.height_info.validators (history_at s.precommit_history r)
          ≤ cast_for p s.height_info.validators (history_at t.precommit_history r))
unfolding run
run-cast_for p r s t [] h = rw (returns-injective h) (refl, omega arith)
run-cast_for p r s t (e ∷ es) h =
    let (a, k, m) = >>=-eq-returns (progress s e) _ h in
    let move = progress-Move s a.1 e a.0 k in
    let (same, grows) = run-cast_for p r a.1 t es m in
    (
      same ∙ Move-height_info move,
      omega (arith, Move-cast_for p r move, rw (Move-height_info move) at grows),
    )

pub run-append :
    (s t : ConsensusState) (es fs : List ConsensusEvent)
    → run s es ≡ returns t
    → run s (es ++ fs) ≡ run t fs
unfolding run
run-append s t [] fs h = rw (returns-injective h)
run-append s t (e ∷ es) fs h =
    let (a, k, m) = >>=-eq-returns (progress s e) _ h in rw k (run-append a.1 t es fs m)

pub run-snoc :
    (s t u : ConsensusState) (es : List ConsensusEvent) (e : ConsensusEvent)
    (r : Option (List ConsensusResponse))
    → run s es ≡ returns t
    → progress t e ≡ returns (r, u)
    → run s (es ++ e ∷ []) ≡ returns u
unfolding run
run-snoc s t u es e r h k = rw (run-append s t es (e ∷ []) h, k)

pub credits_for_of-append :
    (es fs : List ConsensusEvent) (r : Round) (p : BlockIdentifier)
    → credits_for_of (es ++ fs) r p ≡ credits_for_of es r p + credits_for_of fs r p
credits_for_of-append [] fs r p = omega arith
credits_for_of-append (e ∷ es) fs r p = omega (arith, credits_for_of-append es fs r p)

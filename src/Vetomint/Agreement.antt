-- ===== src/Vetomint/Agreement.antt =====
-- Two blocks are not finalized in one round: the quorums of `progress` meet.
use native.Mathlib.Decide.{ℕ_discrete}
use pdao_simperby.Prelude.{
  ℕ, ◌+◌, ◌*◌, ◌≤◌, ◌<◌, ◌≡◌, returns, some, List, [], ◌∷◌, ◌++◌, ◌%◌, u64_mod, true, sum64-eq-sum,
  ◌∙◌, ◌≢◌, arith,
}
use pdao_simperby.Vetomint.State.{
  HeightInfo, new, BlockIdentifier, ConsensusEvent, Round, ConsensusState, ConsensusResponse,
  VoteHistory,
}
use pdao_simperby.Vetomint.Runs.{credits_for_of, run, run-new-IsTallied, credits_of}
use pdao_simperby.Vetomint.Rounds.{is_quorum}
use pdao_simperby.Vetomint.Counting.{cast_for, cast_for_disjoint, cast_power-le-sum}
use pdao_simperby.Vetomint.Progress.{progress}
use pdao_simperby.Vetomint.Tallies.{history_at, own_power}
use pdao_simperby.Vetomint.Finality.{finalized, progress-Finalizes}
use pdao_simperby.Vetomint.Growth.{
  run-snoc, run-cast_for, total_power, run-append, credits_for_of-append,
}
use pdao_simperby.BtreeMap.Laws.{Ascending}
use pdao_simperby.Vetomint.Quorums.{credits_for_of-le, quorums_meet}

-- What stands behind a block that a run finalizes.
record Backed (info : HeightInfo) (p : BlockIdentifier) (r : Round) (es : List ConsensusEvent)
    (t : ConsensusState) : Type 0 where
  pub same : t.height_info ≡ info
  pub k : ℕ
  pub k-le : k ≤ credits_for_of es r p
  pub quorum :
      is_quorum
        ((cast_for p info.validators (history_at t.precommit_history r) + k * own_power info)
          % u64_mod)
        (total_power info % u64_mod)
      ≡ true

run_finalizes :
    (info : HeightInfo) (es : List ConsensusEvent) (s t : ConsensusState) (e : ConsensusEvent)
    (rs : List ConsensusResponse) (p : BlockIdentifier)
    → run (new info) es ≡ returns s
    → progress s e ≡ returns (some rs, t)
    → finalized rs ≡ some p
    → Backed info p s.round (es ++ e ∷ []) t
unfolding new
run_finalizes info es s t e rs p h g f =
    let h' = run-snoc (new info) s t es e (some rs) h g in
    let same : t.height_info ≡ info = (run-cast_for p s.round (new info) t (es ++ e ∷ []) h').0 in
    let (k, l, c) = ((run-new-IsTallied info (es ++ e ∷ []) t h').precommits s.round).in_favor p in
    let final = progress-Finalizes s t e rs p g f in
    record { same = same; k = k; k-le = l; quorum = rw (c, sum64-eq-sum, same) at final.quorum }

-- Two blocks finalized in one round of one run are the same: if `FinalizeBlock` is answered for `p`
-- in some round, and later in the run for `q` in that round again, then `p` is `q`. The powers must
-- be small enough for three times their sum to fit in a `u64`, and the power that this node was
-- credited by the proposals of the round (none, if it is no validator) at most a third of the whole.
pub agreement :
    (info : HeightInfo) (es fs : List ConsensusEvent) (s s' u u' : ConsensusState)
    (e d : ConsensusEvent) (rs qs : List ConsensusResponse) (p q : BlockIdentifier)
    → run (new info) es ≡ returns s
    → progress s e ≡ returns (some rs, s')
    → finalized rs ≡ some p
    → run s' fs ≡ returns u
    → progress u d ≡ returns (some qs, u')
    → finalized qs ≡ some q
    → u.round ≡ s.round
    → 3 * (total_power info + credits_of (es ++ e ∷ [] ++ fs ++ d ∷ []) s.round * own_power info)
      < u64_mod
    → 3 * (credits_of (es ++ e ∷ [] ++ fs ++ d ∷ []) s.round * own_power info) ≤ total_power info
    → p ≡ q
agreement info es fs s s' u u' e d rs qs p q h g f h2 g2 f2 same small third =
    elim (ℕ_discrete p q) [
      | yes same_block ↦ same_block
      | no other_block ↦ absurd (
          quorums_meet (total_power info) (own_power info) _ _ first.k second.k
            (credits_of all s.round) (shared other_block) (allowed other_block) small third
            first.quorum second.quorum)
    ]
  where
    all : List ConsensusEvent
    all = es ++ e ∷ [] ++ fs ++ d ∷ []

    first : Backed info p s.round (es ++ e ∷ []) s'
    first = run_finalizes info es s s' e rs p h g f

    reach : run (new info) (es ++ e ∷ [] ++ fs) ≡ returns u
    reach =
        run-append (new info) s' (es ++ e ∷ []) fs (run-snoc (new info) s s' es e (some rs) h g)
        ∙ h2

    second : Backed info q s.round all u'
    second = rw same at (run_finalizes info (es ++ e ∷ [] ++ fs) u u' d qs q reach g2 f2)

    later : VoteHistory
    later = history_at u'.precommit_history s.round

    grown :
        cast_for p info.validators (history_at s'.precommit_history s.round)
        ≤ cast_for p info.validators later
    grown =
        rw first.same at
          (run-cast_for p s.round s' u' (fs ++ d ∷ []) (run-snoc s' u u' fs d (some qs) h2 g2)).1

    once : Ascending 0 later
    once =
        ((run-new-IsTallied info all u'
            (run-snoc (new info) u u' (es ++ e ∷ [] ++ fs) d (some qs) reach g2)).precommits
          s.round).once

    shared :
        p ≢ q
        → cast_for p info.validators (history_at s'.precommit_history s.round)
            + cast_for q info.validators later
          ≤ total_power info
    shared other = omega (
      arith,
      grown,
      cast_for_disjoint p q info.validators later other,
      cast_power-le-sum info.validators 0 later once,
    )

    allowed : p ≢ q → first.k + second.k ≤ credits_of all s.round
    allowed other = omega (
      arith,
      first.k-le,
      second.k-le,
      credits_for_of-le all s.round p q other,
      credits_for_of-append (es ++ e ∷ []) fs s.round p,
      credits_for_of-append (es ++ e ∷ [] ++ fs) (d ∷ []) s.round p,
    )

-- ===== src/Vetomint/Casts.antt =====
-- Each way to touch the ledger keeps the invariant of the tallies.
use pdao_simperby.Prelude.{
  ℕ, none, some, ◌≡◌, Option, returns, Bool, get_elem?, Option-cases, inl, ◌+◌, arith, inr,
  get_or-eq_of_some, Bool-cases, ◌==◌,
}
use pdao_simperby.Vetomint.Audit.{
  IsTallied, history_at-open, history_at-record, tallies_at-insert, credits, credits_for,
  count_prevote-Matches, count_precommit-Matches, credit_votes-prevotes, count_prevote-precommits,
  count_precommit-prevotes, Matches-mono, credit_votes-precommits,
}
use pdao_simperby.Vetomint.State.{
  ConsensusState, Round, BlockIdentifier, VotingPower, ValidatorIndex, Timestamp,
  block_proposal_received,
}
use pdao_simperby.Vetomint.Ballots.{
  open_prevotes, open_precommits, cast_prevote, cast_precommit, count_prevote, count_precommit,
}
use pdao_simperby.Vetomint.Rounds.{this_node_voting_power, credit_proposal, credit_votes}
use pdao_simperby.Vetomint.Moves.{ledger}
use pdao_simperby.BtreeMap.{get}
use pdao_simperby.Vetomint.Tallies.{history_at, own_power}

pub this_node_voting_power-eq-own :
    (s : ConsensusState) (w : VotingPower)
    → this_node_voting_power s ≡ returns w
    → w ≡ own_power s.height_info
unfolding this_node_voting_power
this_node_voting_power-eq-own s w h = elim (Option-cases s.height_info.this_node_index) [
  | inl e ↦ ground arith
  | inr (x, e) ↦ ground (arith, get_or-eq_of_some s.height_info.validators x 0 {x = w})
]

module _ (s : ConsensusState) (n : Round → ℕ) (c : Round → BlockIdentifier → ℕ) where
  pub open_prevotes-IsTallied :
      (round : Round) → IsTallied (ledger s) n c → IsTallied (ledger (open_prevotes round s)) n c
  unfolding open_prevotes
  open_prevotes-IsTallied round v = record {
    prevotes = λ r. rw (history_at-open round r s.prevote_history) (v.prevotes r);
    precommits = v.precommits;
  }

  pub open_precommits-IsTallied :
      (round : Round) → IsTallied (ledger s) n c → IsTallied (ledger (open_precommits round s)) n c
  unfolding open_precommits
  open_precommits-IsTallied round v = record {
    prevotes = v.prevotes;
    precommits = λ r. rw (history_at-open round r s.precommit_history) (v.precommits r);
  }

  pub cast_prevote-IsTallied :
      (vote : Option BlockIdentifier) (i : ValidatorIndex) (round : Round) (w : VotingPower)
      → get (history_at s.prevote_history round) i ≡ none
      → get_elem? s.height_info.validators i ≡ some w
      → IsTallied (ledger s) n c
      → IsTallied (ledger (cast_prevote vote i round w s)) n c
  unfolding cast_prevote
  cast_prevote-IsTallied vote i round w fresh known v = record {
    prevotes = λ r.
        rw
          (
            history_at-record round r i vote s.prevote_history,
            tallies_at-insert round r (count_prevote vote w) s.votes,
          )
          (elim (Bool-cases (round == r)) [
            | inl e ↦ rw e (
                count_prevote-Matches _ (n r) (c r) _ _ vote i w (ground arith) known
                  (v.prevotes r))
            | inr e ↦ rw e (v.prevotes r)
          ]);
    precommits = λ r.
        rw (tallies_at-insert round r (count_prevote vote w) s.votes)
          (elim (Bool-cases (round == r)) [
            | inl e ↦ rw e (count_prevote-precommits _ (n r) (c r) _ _ vote w (v.precommits r))
            | inr e ↦ rw e (v.precommits r)
          ]);
  }

  pub cast_precommit-IsTallied :
      (vote : Option BlockIdentifier) (i : ValidatorIndex) (round : Round) (w : VotingPower)
      → get (history_at s.precommit_history round) i ≡ none
      → get_elem? s.height_info.validators i ≡ some w
      → IsTallied (ledger s) n c
      → IsTallied (ledger (cast_precommit vote i round w s)) n c
  unfolding cast_precommit
  cast_precommit-IsTallied vote i round w fresh known v = record {
    precommits = λ r.
        rw
          (
            history_at-record round r i vote s.precommit_history,
            tallies_at-insert round r (count_precommit vote w) s.votes,
          )
          (elim (Bool-cases (round == r)) [
            | inl e ↦ rw e (
                count_precommit-Matches _ (n r) (c r) _ _ vote i w (ground arith) known
                  (v.precommits r))
            | inr e ↦ rw e (v.precommits r)
          ]);
    prevotes = λ r.
        rw (tallies_at-insert round r (count_precommit vote w) s.votes)
          (elim (Bool-cases (round == r)) [
            | inl e ↦ rw e (count_precommit-prevotes _ (n r) (c r) _ _ vote w (v.prevotes r))
            | inr e ↦ rw e (v.prevotes r)
          ]);
  }

  pub credit_proposal-IsTallied :
      (p : BlockIdentifier) (i : ValidatorIndex) (favor : Bool) (round : Round) (time : Timestamp)
      → IsTallied (ledger s) n c
      → let e = block_proposal_received p none i round time favor in
        IsTallied
          (ledger (credit_proposal p favor round (own_power s.height_info) s))
          (λ r. n r + credits e r)
          (λ r q. c r q + credits_for e r q)
  unfolding credit_proposal
  credit_proposal-IsTallied p i favor round time v = record {
    prevotes = λ r.
        rw (tallies_at-insert round r (credit_votes p favor (own_power s.height_info)) s.votes)
          (elim (Bool-cases (round == r)) [
            | inl e ↦ rw e (credit_votes-prevotes _ (n r) (c r) _ _ p favor (v.prevotes r))
            | inr e ↦ rw e (
                Matches-mono _ _ _ _ (n r) _ (c r) _ (omega arith) (λ q. omega arith)
                  (v.prevotes r))
          ]);
    precommits = λ r.
        rw (tallies_at-insert round r (credit_votes p favor (own_power s.height_info)) s.votes)
          (elim (Bool-cases (round == r)) [
            | inl e ↦ rw e (credit_votes-precommits _ (n r) (c r) _ _ p favor (v.precommits r))
            | inr e ↦ rw e (
                Matches-mono _ _ _ _ (n r) _ (c r) _ (omega arith) (λ q. omega arith)
                  (v.precommits r))
          ]);
  }

-- ===== src/Vetomint/Runs.antt =====
-- Runs of the state machine from `ConsensusState::new`, and what the tallies hold along them.
use pdao_simperby.Prelude.{
  ℕ, ◌≡◌, List, [], ◌∷◌, Outcome, returns, ◌+◌, ◌>>=◌, subst, sym, arith, >>=-eq-returns,
  returns-injective, ap,
}
use pdao_simperby.Vetomint.Audit.{IsTallied, credits, credits_for, IsTallied-more, IsTallied-mono}
use pdao_simperby.Vetomint.State.{
  ConsensusState, ConsensusEvent, Round, BlockIdentifier, new, HeightInfo,
}
use pdao_simperby.Vetomint.Progress.{progress}
use pdao_simperby.Vetomint.Moves.{
  Move, ledger, kept, opened_prevotes, opened_precommits, prevoted, precommitted, credited, Ledger,
}
use pdao_simperby.BtreeMap.{get}
use pdao_simperby.Vetomint.Casts.{
  open_prevotes-IsTallied, open_precommits-IsTallied, cast_prevote-IsTallied,
  cast_precommit-IsTallied, this_node_voting_power-eq-own, credit_proposal-IsTallied,
}
use pdao_simperby.Vetomint.Transitions.{progress-Move}
use pdao_simperby.Vetomint.Ballots.{open_prevotes, open_precommits}
use pdao_simperby.Vetomint.Rounds.{credit_proposal}

-- The events one after another; the responses go to the caller and do not come back by themselves.
unfoldable pub run : ConsensusState → List ConsensusEvent → Outcome ConsensusState
run s [] = returns s
run s (e ∷ es) = progress s e >>= λ (r, t). run t es

abbrev pub credits_of : List ConsensusEvent → Round → ℕ
credits_of [] r = 0
credits_of (e ∷ es) r = credits e r + credits_of es r

abbrev pub credits_for_of : List ConsensusEvent → Round → BlockIdentifier → ℕ
credits_for_of [] r p = 0
credits_for_of (e ∷ es) r p = credits_for e r p + credits_for_of es r p

IsTallied-subst :
    {k l : Ledger} {n : Round → ℕ} {c : Round → BlockIdentifier → ℕ}
    → k ≡ l
    → IsTallied l n c
    → IsTallied k n c
IsTallied-subst {n} {c} e v = subst (λ l. IsTallied l n c) (sym e) v

Move-IsTallied :
    {s t : ConsensusState} {e : ConsensusEvent} (n : Round → ℕ) (c : Round → BlockIdentifier → ℕ)
    → Move s e t
    → IsTallied (ledger s) n c
    → IsTallied (ledger t) (λ r. n r + credits e r) (λ r p. c r p + credits_for e r p)
unfolding open_prevotes open_precommits
Move-IsTallied {s} {t} {e} n c (kept f) v = IsTallied-subst f (IsTallied-more e n c v)
Move-IsTallied {s} {t} {e} n c (opened_prevotes r f) v =
    IsTallied-subst f (IsTallied-more e n c (open_prevotes-IsTallied s n c r v))
Move-IsTallied {s} {t} {e} n c (opened_precommits r f) v =
    IsTallied-subst f (IsTallied-more e n c (open_precommits-IsTallied s n c r v))
Move-IsTallied {s} {t} {e} n c (prevoted b i r w fresh known f) v = IsTallied-subst f (
    IsTallied-more e n c (
      cast_prevote-IsTallied (open_prevotes r s) n c b i r w fresh known
        (open_prevotes-IsTallied s n c r v)))
Move-IsTallied {s} {t} {e} n c (precommitted b i r w fresh known f) v = IsTallied-subst f (
    IsTallied-more e n c (
      cast_precommit-IsTallied (open_precommits r s) n c b i r w fresh known
        (open_precommits-IsTallied s n c r v)))
Move-IsTallied {s} {t} {e} n c (credited p i favor r time w g q f) v =
    subst (λ x. IsTallied (ledger t) (λ k. n k + credits x k) (λ k b. c k b + credits_for x k b))
      (sym g)
      (IsTallied-subst f (
        IsTallied-subst
          (ap (λ x. ledger (credit_proposal p favor r x s)) (this_node_voting_power-eq-own s w q))
          (credit_proposal-IsTallied s n c p i favor r time v)))

-- From a state whose tallies count its histories, any run leads to another, with at most the
-- credits of its proposals more.
pub run-IsTallied :
    (s t : ConsensusState) (es : List ConsensusEvent) (n : Round → ℕ)
    (c : Round → BlockIdentifier → ℕ)
    → run s es ≡ returns t
    → IsTallied (ledger s) n c
    → IsTallied (ledger t) (λ r. n r + credits_of es r) (λ r p. c r p + credits_for_of es r p)
unfolding run
run-IsTallied s t [] n c h v =
    IsTallied-subst (ap (λ x. ledger x) (sym (returns-injective h)))
      (IsTallied-mono (ledger s) n _ c _ (λ r. omega arith) (λ r p. omega arith) v)
run-IsTallied s t (e ∷ es) n c h v =
    let (a, p, k) = >>=-eq-returns (progress s e) _ h in
    IsTallied-mono (ledger t) _ _ _ _ (λ r. omega arith) (λ r p. omega arith)
      (run-IsTallied a.1 t es _ _ k (Move-IsTallied n c (progress-Move s a.1 e a.0 p) v))

new-IsTallied : (info : HeightInfo) → IsTallied (ledger (new info)) (λ r. 0) (λ r p. 0)
unfolding new get
new-IsTallied info = record {
  prevotes = λ r. record {
    once = tt;
    in_total = (0, omega arith, omega arith);
    in_favor = λ p. (0, omega arith, omega arith);
  };
  precommits = λ r. record {
    once = tt;
    in_total = (0, omega arith, omega arith);
    in_favor = λ p. (0, omega arith, omega arith);
  };
}

-- After any run from a new state, in every round: no validator has two entries in a history, the
-- total of the prevotes is the power of the validators in the prevote history, the tally of a block
-- is the power of those whose entry is that block, and so for the precommits; modulo 2 ^ 64, and
-- with this node's own power on top, at most once for each proposal of the round (for the block, in
-- favour of it) among the events.
pub run-new-IsTallied :
    (info : HeightInfo) (es : List ConsensusEvent) (t : ConsensusState)
    → run (new info) es ≡ returns t
    → IsTallied (ledger t) (credits_of es) (credits_for_of es)
run-new-IsTallied info es t h =
    IsTallied-mono (ledger t) _ _ _ _ (λ r. omega arith) (λ r p. omega arith)
      (run-IsTallied (new info) t es (λ r. 0) (λ r p. 0) h (new-IsTallied info))

-- ===== src/Vetomint/Steps.antt =====
-- What each rule of progress.rs may do to the step, and the votes that it broadcasts.
use pdao_simperby.Prelude.{
  ℕ, suc, ◌+◌, ◌≡◌, ◌⊎◌, inl, inr, returns, List, [], ◌∷◌, ◌++◌, arith, true, false, Bool,
  Option-cases,
}
use pdao_simperby.Vetomint.State.{
  propose, prevote, precommit, start, ConsensusResponse, ConsensusEvent, ConsensusState,
  broadcast_non_nil_prevote, broadcast_non_nil_precommit, Round, broadcast_nil_prevote,
  broadcast_nil_precommit, VotingPower, Timestamp, BlockIdentifier,
}
use pdao_simperby.Vetomint.Rounds.{
  lock_entries, lock_entry, on_5f_prevote, start_round, on_4f_non_nil_prevote_in_prevote_step,
  on_4f_nil_prevote, total_voting_power,
}
use pdao_simperby.BtreeMap.{BtreeMap, get}
use pdao_simperby.Vetomint.Ballots.{after_non_nil_prevote, after_nil_prevote}

-- How many prevotes, and how many precommits, are broadcast by these responses.
abbrev pub prevote_count : List ConsensusResponse → ℕ
prevote_count [] = 0
prevote_count (broadcast_non_nil_prevote p r ∷ rs) = suc (prevote_count rs)
prevote_count (broadcast_nil_prevote r ∷ rs) = suc (prevote_count rs)
prevote_count (_ ∷ rs) = prevote_count rs

abbrev pub precommit_count : List ConsensusResponse → ℕ
precommit_count [] = 0
precommit_count (broadcast_non_nil_precommit p r ∷ rs) = suc (precommit_count rs)
precommit_count (broadcast_nil_precommit r ∷ rs) = suc (precommit_count rs)
precommit_count (_ ∷ rs) = precommit_count rs

abbrev pub is_start : ConsensusEvent → Bool
is_start (start time) = true
is_start _ = false

-- What an event may do to the step within the round, with the votes that it broadcasts: nothing and
-- none, a prevote, or a precommit.
abbrev pub Within : ConsensusState → List ConsensusResponse → ConsensusState → Type 0
Within s rs t =
    ((t.step ≡ s.step) × (t.round ≡ s.round) × (prevote_count rs ≡ 0) × (precommit_count rs ≡ 0))
    ⊎ ((s.step ≡ propose)
        × (t.step ≡ prevote)
        × (t.round ≡ s.round)
        × (prevote_count rs ≡ 1)
        × (precommit_count rs ≡ 0))
    ⊎ ((s.step ≡ prevote)
        × (t.step ≡ precommit)
        × (t.round ≡ s.round)
        × (prevote_count rs ≡ 0)
        × (precommit_count rs ≡ 1))

-- Or the next round.
abbrev pub Advance : ConsensusState → List ConsensusResponse → ConsensusState → Type 0
Advance s rs t =
    Within s rs t
    ⊎ ((s.step ≡ precommit)
        × (t.step ≡ propose)
        × (t.round ≡ suc s.round)
        × (prevote_count rs ≡ 0)
        × (precommit_count rs ≡ 0))

counts-append :
    (xs ys : List ConsensusResponse)
    → (prevote_count (xs ++ ys) ≡ prevote_count xs + prevote_count ys)
      × (precommit_count (xs ++ ys) ≡ precommit_count xs + precommit_count ys)
counts-append [] ys = omega arith
counts-append (x ∷ xs) ys = ground (arith, counts-append xs ys)

abbrev IsVoting : ConsensusState → Type 0
IsVoting s = (s.step ≡ prevote) ⊎ (s.step ≡ precommit)

-- The loop over the tallies precommits once at most, and from the prevote step only.
lock_entry-Within :
    (round : Round) (total : VotingPower) (p : BlockIdentifier) (w : VotingPower)
    (s : ConsensusState)
    → IsVoting s
    → Within s (lock_entry round total p w s).0 (lock_entry round total p w s).1
      × IsVoting (lock_entry round total p w s).1
unfolding lock_entry
lock_entry-Within round total p w s h = ground arith

Within-append :
    (s u t : ConsensusState) (xs ys : List ConsensusResponse)
    → IsVoting s
    → Within s xs u × IsVoting u
    → Within u ys t × IsVoting t
    → Within s (xs ++ ys) t × IsVoting t
Within-append s u t xs ys h a b = ground (arith, counts-append xs ys)

lock_entries-Within :
    (round : Round) (total : VotingPower) (m : BtreeMap VotingPower) (s : ConsensusState)
    → IsVoting s
    → Within s (lock_entries round total m s).0 (lock_entries round total m s).1
      × IsVoting (lock_entries round total m s).1
unfolding lock_entries
lock_entries-Within round total [] s h = ground arith
lock_entries-Within round total ((p, w) ∷ m) s h =
    let u = (lock_entry round total p w s).1 in
    let first = lock_entry-Within round total p w s h in
    let rest = lock_entries-Within round total m u first.1 in
    Within-append s u (lock_entries round total m u).1 (lock_entry round total p w s).0
      (lock_entries round total m u).0 h first rest

on_5f_prevote-Within :
    (s t : ConsensusState) (round : Round) (rs : List ConsensusResponse)
    → s.step ≡ prevote
    → on_5f_prevote s round ≡ returns (rs, t)
    → Within s rs t
unfolding on_5f_prevote
on_5f_prevote-Within s t round rs g h = ground arith

pub after_non_nil_prevote-Within :
    (p : BlockIdentifier) (round : Round) (s t : ConsensusState) (rs : List ConsensusResponse)
    → after_non_nil_prevote p round s ≡ returns (rs, t)
    → Within s rs t
unfolding after_non_nil_prevote on_4f_non_nil_prevote_in_prevote_step
after_non_nil_prevote-Within p round s t rs h = elim (Option-cases (get s.votes round)) [
  | inl e ↦ ground (arith, on_5f_prevote-Within s t round rs)
  | inr (v, e) ↦ ground (
    arith,
    on_5f_prevote-Within s t round rs,
    lock_entries-Within round (total_voting_power s) v.prevotes_favor s,
  )
]

pub after_nil_prevote-Within :
    (round : Round) (s t : ConsensusState) (rs : List ConsensusResponse)
    → after_nil_prevote round s ≡ returns (rs, t)
    → Within s rs t
unfolding after_nil_prevote on_4f_nil_prevote
after_nil_prevote-Within round s t rs h = ground (arith, on_5f_prevote-Within s t round rs)

pub start_round-next :
    (s t : ConsensusState) (round : Round) (time : Timestamp) (rs : List ConsensusResponse)
    → start_round s round time ≡ returns (rs, t)
    → (t.step ≡ propose) × (t.round ≡ round) × (prevote_count rs ≡ 0) × (precommit_count rs ≡ 0)
unfolding start_round
start_round-next s t round time rs h = ground arith

-- ===== src/Vetomint/Counting.antt =====
-- The exact power behind the entries of a vote history: the specification of the tallies.
use pdao_simperby.Prelude.{
  ℕ, suc, ◌+◌, ◌*◌, ◌%◌, ◌≤◌, Option, none, some, List, [], ◌∷◌, ◌≢◌, ◌≡◌, arith, get_or as nth_or,
  drop, sum, sum-drop-le, sum-drop_head, ◌==◌, if◌then◌else◌, u64_mod, add64,
}
use pdao_simperby.BtreeMap.{get, insert}
use pdao_simperby.BtreeMap.Laws.{Ascending}
use pdao_simperby.Vetomint.State.{BlockIdentifier, ValidatorIndex, VotingPower, VoteHistory}

-- The power of all validators with an entry.
abbrev pub cast_power : List VotingPower → VoteHistory → ℕ
cast_power vs [] = 0
cast_power vs ((i, vote) ∷ h) = nth_or vs i 0 + cast_power vs h

abbrev pub weight_for : BlockIdentifier → Option BlockIdentifier → ℕ → ℕ
weight_for p none w = 0
weight_for p (some q) w = if q == p then w else 0

-- The power of the validators whose entry is this block.
abbrev pub cast_for : BlockIdentifier → List VotingPower → VoteHistory → ℕ
cast_for p vs [] = 0
cast_for p vs ((i, vote) ∷ h) = weight_for p vote (nth_or vs i 0) + cast_for p vs h

pub cast_power-insert :
    (vs : List VotingPower) (i : ValidatorIndex) (v : Option BlockIdentifier) (h : VoteHistory)
    → get h i ≡ none
    → cast_power vs (insert i v h) ≡ cast_power vs h + nth_or vs i 0
unfolding get insert
cast_power-insert vs i v [] e = omega arith
cast_power-insert vs i v ((j, w) ∷ h) e = ground (arith, cast_power-insert vs i v h)

pub cast_for-insert :
    (p : BlockIdentifier) (vs : List VotingPower) (i : ValidatorIndex) (v : Option BlockIdentifier)
    (h : VoteHistory)
    → get h i ≡ none
    → cast_for p vs (insert i v h) ≡ cast_for p vs h + weight_for p v (nth_or vs i 0)
unfolding get insert
cast_for-insert p vs i v [] e = omega arith
cast_for-insert p vs i v ((j, w) ∷ h) e = ground (arith, cast_for-insert p vs i v h)

-- Nobody votes twice in a history, so the votes weigh no more than the validators do.
pub cast_power-le-sum :
    (vs : List VotingPower) (k : ℕ) (h : VoteHistory)
    → Ascending k h
    → cast_power vs h ≤ sum (drop k vs)
cast_power-le-sum vs k [] a = omega arith
cast_power-le-sum vs k ((j, v) ∷ h) a =
    omega (arith, cast_power-le-sum vs (suc j) h a.1, sum-drop_head j vs, sum-drop-le k j vs a.0)

pub cast_for-le-cast_power :
    (p : BlockIdentifier) (vs : List VotingPower) (h : VoteHistory)
    → cast_for p vs h ≤ cast_power vs h
cast_for-le-cast_power p vs [] = omega arith
cast_for-le-cast_power p vs ((i, v) ∷ h) = ground (arith, cast_for-le-cast_power p vs h)

-- An entry is for one block at most.
pub cast_for_disjoint :
    (p q : BlockIdentifier) (vs : List VotingPower) (h : VoteHistory)
    → p ≢ q
    → cast_for p vs h + cast_for q vs h ≤ cast_power vs h
cast_for_disjoint p q vs [] d = omega arith
cast_for_disjoint p q vs ((i, none) ∷ h) d = omega (arith, cast_for_disjoint p q vs h d)
cast_for_disjoint p q vs ((i, some b) ∷ h) d = ground (arith, cast_for_disjoint p q vs h d)

-- A tally counts these votes exactly when it is their power, and this node's own power for some of
-- the times that it was credited, modulo 2 ^ 64.
abbrev pub Counts : VotingPower → ℕ → VotingPower → ℕ → Type 0
Counts tally votes own credits = (k : ℕ) × (k ≤ credits) × (tally ≡ (votes + k * own) % u64_mod)

pub Counts-vote :
    (tally votes own credits w : ℕ)
    → Counts tally votes own credits
    → Counts (add64 tally w) (votes + w) own credits
Counts-vote tally votes own credits w (k, l, e) = (k, l, omega arith)

pub Counts-credit :
    (tally votes own credits : ℕ)
    → Counts tally votes own credits
    → Counts (add64 tally own) votes own (suc credits)
Counts-credit tally votes own credits (k, l, e) = (suc k, omega arith, omega arith)

pub Counts-mono :
    (tally votes own credits more : ℕ)
    → credits ≤ more
    → Counts tally votes own credits
    → Counts tally votes own more
Counts-mono tally votes own credits more m (k, l, e) = (k, omega arith, e)

-- ===== src/Vetomint/Leaders.antt =====
-- vetomint/src/lib.rs: `decide_proposer`, the order of the leaders.
use native.Mathlib.Nat.{mod-lt, mod-add-mod, mod-eq_of_lt, add-mod_right}
use pdao_simperby.Prelude.{
  ℕ, ◌+◌, ◌-◌, ◌%◌, ◌≤◌, ◌<◌, ◌≡◌, returns, length, arith, if◌then◌else◌, Bool-cases, leb, inl, inr,
}
use pdao_simperby.Vetomint.State.{decide_proposer, Round, HeightInfo, ValidatorIndex}

-- How long after a round with index `a` a residue comes up again.
wait_for : ℕ → ℕ → ℕ → ℕ
wait_for i m n = if leb m i then i - m else i + n - m

wait_for-lt : (i m n : ℕ) → i < n → m < n → wait_for i m n < n
unfolding wait_for
wait_for-lt i m n h k = ground arith

wait_for_hits : (i m n : ℕ) → i < n → m < n → (m + wait_for i m n) % n ≡ i
unfolding wait_for
wait_for_hits i m n h k = elim (Bool-cases (leb m i)) [
  | inl e ↦ let sum : m + (i - m) ≡ i = ground arith in rw (e, sum) (mod-eq_of_lt h)
  | inr e ↦
      let sum : m + (i + n - m) ≡ i + n = ground arith in
      rw (e, sum, add-mod_right i n) (mod-eq_of_lt h)
]

-- Past the rounds that are repeated for the first leader the leader is the residue of a count.
decide_proposer-returns :
    (round : Round) (info : HeightInfo)
    → 0 < length info.validators
    → info.consensus_params.repeat_round_for_first_leader ≤ round
    → decide_proposer round info
      ≡ returns (
          (round - info.consensus_params.repeat_round_for_first_leader + 1)
          % length info.validators)
unfolding decide_proposer
decide_proposer-returns round info h k = ground arith

-- Every validator leads in turn: past the rounds that are repeated for the first leader, any
-- validator is the proposer of some round among the next ones, as many as there are validators.
pub decide_proposer_fair :
    (from : Round) (i : ValidatorIndex) (info : HeightInfo)
    → info.consensus_params.repeat_round_for_first_leader ≤ from
    → i < length info.validators
    → (round : Round) × (from ≤ round)
      × (round < from + length info.validators)
      × (decide_proposer round info ≡ returns i)
decide_proposer_fair from i info h k = (
  from + d,
  omega arith,
  omega (arith, wait_for-lt i (a % n) n k small),
  rw (
    decide_proposer-returns (from + d) info (omega arith) (omega arith),
    shift,
    ← mod-add-mod a n d,
    wait_for_hits i (a % n) n k small,
  ),
)
  where
    n : ℕ
    n = length info.validators

    a : ℕ
    a = from - info.consensus_params.repeat_round_for_first_leader + 1

    small : a % n < n
    small = mod-lt a (omega arith)

    d : ℕ
    d = wait_for i (a % n) n

    shift : from + d - info.consensus_params.repeat_round_for_first_leader + 1 ≡ a + d
    shift = omega arith

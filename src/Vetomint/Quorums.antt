-- ===== src/Vetomint/Quorums.antt =====
-- The arithmetic of quorums: what two tests of two thirds say together.
use pdao_simperby.Prelude.{
  ℕ, ◌+◌, ◌*◌, ◌%◌, ◌≤◌, ◌<◌, ◌≢◌, ◌≡◌, true, none, some, List, [], ◌∷◌, u64_mod, arith,
}
use pdao_simperby.Vetomint.State.{ConsensusEvent, Round, BlockIdentifier, block_proposal_received}
use pdao_simperby.Vetomint.Rounds.{is_quorum}
use pdao_simperby.Vetomint.Audit.{credits_for, credits}
use pdao_simperby.Vetomint.Runs.{credits_for_of, credits_of}

-- A proposal is for one block.
pub credits_for-le :
    (e : ConsensusEvent) (r : Round) (p q : BlockIdentifier)
    → p ≢ q
    → credits_for e r p + credits_for e r q ≤ credits e r
credits_for-le (block_proposal_received b none i round time favor) r p q d = ground arith
credits_for-le (block_proposal_received b (some vr) i round time favor) r p q d = omega arith
credits_for-le _ r p q d = omega arith

pub credits_for_of-le :
    (es : List ConsensusEvent) (r : Round) (p q : BlockIdentifier)
    → p ≢ q
    → credits_for_of es r p + credits_for_of es r q ≤ credits_of es r
credits_for_of-le [] r p q d = omega arith
credits_for_of-le (e ∷ es) r p q d =
    omega (arith, credits_for-le e r p q d, credits_for_of-le es r p q d)

-- Without a wrap the test of two thirds is the test of the exact numbers.
pub quorum_exact :
    (x total : ℕ)
    → 3 * x < u64_mod
    → 2 * total < u64_mod
    → is_quorum (x % u64_mod) (total % u64_mod) ≡ true
    → 2 * total < 3 * x
quorum_exact x total a b h = ground arith

pub credits_mono : (k m own : ℕ) → k ≤ m → k * own ≤ m * own
credits_mono k m own h = grind arith

-- Two quorums over disjoint votes ask for more power than there is.
pub quorums_meet :
    (total own fp fq kp kq c : ℕ)
    → fp + fq ≤ total
    → kp + kq ≤ c
    → 3 * (total + c * own) < u64_mod
    → 3 * (c * own) ≤ total
    → is_quorum ((fp + kp * own) % u64_mod) (total % u64_mod) ≡ true
    → is_quorum ((fq + kq * own) % u64_mod) (total % u64_mod) ≡ true
    → ⊥
quorums_meet total own fp fq kp kq c f k small third a b =
    let m = credits_mono (kp + kq) c own k in
    let x = quorum_exact (fp + kp * own) total (omega (arith, m)) (omega arith) a in
    let y = quorum_exact (fq + kq * own) total (omega (arith, m)) (omega arith) b in
    omega (arith, m, x, y)

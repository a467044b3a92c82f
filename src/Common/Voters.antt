-- ===== src/Common/Voters.antt =====
-- What common/src/verify.rs demands of a header: `verify_header_to_header` and
-- `verify_finalization_proof`.
use pdao_simperby.Prelude.{
  ◌≡◌, ◌⊎◌, inl, inr, arith, true, none, List, [], ◌∷◌, ◌+◌, ◌*◌, ◌<◌, ◌≤◌, Bool-cases, sum, sum64,
  mul64, add64, u64_mod, sum64-eq-sum, Option-cases, ◌<ℤ◌, leb, subst, ◌↔◌, sym,
}
use pdao_simperby.Common.Headers.{
  has_key, voted_powers, powers, keys, signers, verify_finalization_proof, verify_header_to_header,
  first_forged,
}
use pdao_simperby.Common.Types.{PublicKey, VotingPower, BlockHeader, FinalizationProof}
use pdao_simperby.Common.Encoding.{Crates, header_hash}
use pdao_simperby.Common.Hash.{hash_eq, eq_of_hash_eq, hash_eq_refl}

-- A key that two lists have.
pub Common : List PublicKey → List PublicKey → Type 0
Common ks ls = (k : PublicKey) × (has_key k ks ≡ true) × (has_key k ls ≡ true)

-- Two sets of voters share one, or have no more power together than all validators.
voters_meet :
    (ks ls : List PublicKey) (vs : List (PublicKey × VotingPower))
    → Common ks ls ⊎ (sum (voted_powers ks vs) + sum (voted_powers ls vs) ≤ sum (powers vs))
unfolding Common voted_powers powers
voters_meet ks ls [] = inr (omega arith)
voters_meet ks ls ((k, power) ∷ vs) = elim (voters_meet ks ls vs) [
  | inl c ↦ inl c
  | inr h ↦ elim (Bool-cases (has_key k ks)) [
    | inl a ↦ elim (Bool-cases (has_key k ls)) [
      | inl b ↦ inl (k, a, b)
      | inr b ↦ inr (ground arith)
    ]
    | inr a ↦ inr (ground arith)
  ]
]

voted_powers-le :
    (ks : List PublicKey) (vs : List (PublicKey × VotingPower))
    → sum (voted_powers ks vs) ≤ sum (powers vs)
unfolding voted_powers powers
voted_powers-le ks [] = omega arith
voted_powers-le ks ((k, power) ∷ vs) = ground (arith, voted_powers-le ks vs)

module _ (crates : Crates) where
  -- An accepted proof has more than two thirds of the power.
  quorum_of :
      (h : BlockHeader) (p : FinalizationProof)
      → sum (powers h.validator_set) * 3 < u64_mod
      → verify_finalization_proof crates h p ≡ none
      → sum (powers h.validator_set) * 2 < sum (voted_powers (signers p) h.validator_set) * 3
  unfolding verify_finalization_proof
  quorum_of h p small v = elim (Option-cases (first_forged crates (header_hash crates h) p)) [
    | inr (e, k) ↦ absurd (ground arith)
    | inl k ↦
        let voted = voted_powers (signers p) h.validator_set in
        let all = powers h.validator_set in
        elim (Bool-cases (leb (mul64 (sum64 voted) 3) (mul64 (sum64 all) 2))) [
          | inl b ↦ absurd (ground arith)
          | inr b ↦ ground (
            arith,
            b,
            sum64-eq-sum voted,
            sum64-eq-sum all,
            small,
            voted_powers-le (signers p) h.validator_set,
          )
        ]
  ]

  -- Two finalization proofs that `verify_finalization_proof` accepts for headers with the same
  -- validator set have a signer in common, given that three times the power of the validators is a
  -- `u64`.
  pub verify_finalization_proof_overlap :
      (g h : BlockHeader) (p q : FinalizationProof)
      → g.validator_set ≡ h.validator_set
      → sum (powers h.validator_set) * 3 < u64_mod
      → verify_finalization_proof crates g p ≡ none
      → verify_finalization_proof crates h q ≡ none
      → Common (signers p) (signers q)
  verify_finalization_proof_overlap g h p q same small v w =
      elim (voters_meet (signers p) (signers q) h.validator_set) [
        | inl c ↦ c
        | inr k ↦
            let small' = subst (λ vs. sum (powers vs) * 3 < u64_mod) (sym same) small in
            let v' =
              subst (λ vs. sum (powers vs) * 2 < sum (voted_powers (signers p) vs) * 3) same
                (quorum_of g p small' v) in
            absurd (omega (arith, v', quorum_of h q small w, k))
      ]

  -- What `verify_header_to_header` accepts.
  unfoldable pub IsChild : BlockHeader → BlockHeader → Type 0
  IsChild h1 h2 =
      (h2.height ≡ add64 h1.height 1)
      × (h2.previous_hash ≡ header_hash crates h1)
      × (has_key h2.author (keys h1.validator_set) ≡ true)
      × (◌<ℤ◌ h1.timestamp h2.timestamp)
      × (verify_finalization_proof crates h1 h2.prev_block_finalization_proof ≡ none)

  -- `verify_header_to_header` accepts a header after another just where its height is the next one, its
  -- previous hash is the hash of the other, its author is a validator of the other, its timestamp is
  -- later, and its finalization proof is accepted for the other.
  pub verify_header_to_header_iff :
      (h1 h2 : BlockHeader) → (verify_header_to_header crates h1 h2 ≡ none) ↔ IsChild h1 h2
  unfolding verify_header_to_header IsChild
  verify_header_to_header_iff h1 h2 = (
    λ v. elim (Bool-cases (hash_eq h2.previous_hash (header_hash crates h1))) [
      | inl e ↦
          let same = eq_of_hash_eq h2.previous_hash (header_hash crates h1) e in
          (ground arith, same, ground arith, ground arith, ground arith)
      | inr e ↦ absurd (ground arith)
    ],
    λ (height, previous, author, time, proof).
        let e : hash_eq h2.previous_hash (header_hash crates h1) ≡ true =
          subst (λ k. hash_eq h2.previous_hash k ≡ true) previous (hash_eq_refl h2.previous_hash) in
        ground (arith, height, e, author, time, proof),
  )

-- ===== src/Common/Headers.antt =====
-- common/src/verify.rs: the verification of one header after another.
use pdao_simperby.Prelude.{
  Bool, Option, none, some, List, [], ◌∷◌, if◌then◌else◌, not, ◌==◌, ◌||◌, sum64, mul64, add64, leb,
  ltb_ℤ, false,
}
use pdao_simperby.Common.Types.{
  key_eq, PublicKey, TypedSignature, BlockHeader, VotingPower, FinalizationProof,
}
use pdao_simperby.Common.Errors.{Error, invalid_argument, invalid_proof, crypto_error}
use pdao_simperby.Common.Hash.{hash_eq, Hash256}
use pdao_simperby.Common.Encoding.{Crates, CryptoError, verify_typed, header_hash}

-- Whether a key is one of those given.
unfoldable pub has_key : PublicKey → List PublicKey → Bool
has_key k [] = false
has_key k (l ∷ ls) = key_eq l k || has_key k ls

unfoldable pub keys : List (PublicKey × VotingPower) → List PublicKey
keys [] = []
keys ((k, power) ∷ rest) = k ∷ keys rest

unfoldable pub powers : List (PublicKey × VotingPower) → List VotingPower
powers [] = []
powers ((k, power) ∷ rest) = power ∷ powers rest

-- The powers of the validators that the set of voters contains.
unfoldable pub voted_powers : List PublicKey → List (PublicKey × VotingPower) → List VotingPower
unfolding has_key
voted_powers voters [] = []
voted_powers voters ((k, power) ∷ rest) =
    let others = voted_powers voters rest in if has_key k voters then power ∷ others else others

unfoldable pub signers : List TypedSignature → List PublicKey
signers [] = []
signers (t ∷ ts) = t.signer ∷ signers ts

module _ (crates : Crates) where
  -- The `for` over the signatures: the first that does not verify ends it.
  unfoldable pub first_forged : Hash256 → List TypedSignature → Option CryptoError
  first_forged data' [] = none
  first_forged data' (t ∷ ts) = elim (verify_typed crates t data') [
    | some e ↦ some e
    | none ↦ first_forged data' ts
  ]

  -- `none` is `Ok(())`.
  unfoldable pub verify_finalization_proof : BlockHeader → FinalizationProof → Option Error
  unfolding voted_powers signers powers
  verify_finalization_proof header proof = elim (first_forged (header_hash crates header) proof) [
    | some e ↦ some (crypto_error "invalid finalization proof" e)
    | none ↦
        if leb (mul64 (sum64 (voted_powers (signers proof) header.validator_set)) 3)
          (mul64 (sum64 (powers header.validator_set)) 2)
        then some (invalid_proof "invalid finalization proof - voted voting power is too low")
        else none
  ]

  unfoldable pub verify_header_to_header : BlockHeader → BlockHeader → Option Error
  unfolding has_key keys
  verify_header_to_header h1 h2 =
      if not (h2.height == add64 h1.height 1)
      then some (invalid_argument "invalid height")
      else (if not (hash_eq h2.previous_hash (header_hash crates h1))
          then some (invalid_argument "invalid previous hash")
          else (if not (has_key h2.author (keys h1.validator_set))
              then some (invalid_argument "invalid author")
              else (if not (ltb_ℤ h1.timestamp h2.timestamp)
                  then some (invalid_argument "invalid timestamp")
                  else verify_finalization_proof h1 h2.prev_block_finalization_proof)))

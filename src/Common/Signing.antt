-- ===== src/Common/Signing.antt =====
-- common/src/crypto.rs: keys and the making of signatures. What ed25519_dalek does is a parameter.
use pdao_simperby.Prelude.{
  ◌≡◌, refl, arith, Bool, true, Option, none, some, [], ◌∷◌, if◌then◌else◌, Outcome, returns,
  panics, Bool-cases, inl, inr,
}
use pdao_simperby.Results.{Result, Call, ok, err}
use pdao_simperby.Common.Bytes.{Bytes}
use pdao_simperby.Common.Hash.{Hash256, hash_bytes}
use pdao_simperby.Common.Types.{PublicKey, Signature, TypedSignature}
use pdao_simperby.Common.Encoding.{
  Crates, CryptoError, invalid_format, verify_signature, verify_typed,
}

-- Whether `SecretKey::from_bytes` accepts the bytes, the public key of a secret key, and the signature
-- that a secret key makes for a message.
pub record Keys : Type 0 where
  pub is_secret_key : Bytes → Bool
  pub public_of : Bytes → Bytes
  pub sign_with : Bytes → Bytes → Bytes

pub record PrivateKey : Type 0 where
  pub key : Bytes

module _ (crates : Crates) where
  unfoldable pub public_key_from_bytes : Bytes → Result CryptoError PublicKey
  public_key_from_bytes bytes =
      if crates.is_public_key bytes then ok (record { key = bytes }) else err invalid_format

module _ (keys : Keys) where
  unfoldable pub private_key_from_bytes : Bytes → Result CryptoError PrivateKey
  private_key_from_bytes bytes =
      if keys.is_secret_key bytes then ok (record { key = bytes }) else err invalid_format

  -- `PrivateKey::public_key`, which panics at a key that is none.
  unfoldable pub public_key : PrivateKey → Outcome PublicKey
  public_key k =
      if keys.is_secret_key k.key then returns (record { key = keys.public_of k.key }) else panics

  unfoldable pub sign : Hash256 → PrivateKey → Result CryptoError Signature
  sign hash k =
      if keys.is_secret_key k.key
      then ok (record { signature = keys.sign_with k.key hash.hash })
      else err invalid_format

  -- `TypedSignature::sign`: the data is hashed and signed. The first argument is the `to_hash256` of the
  -- type of the data.
  unfoldable pub sign_typed :
      {T : Type 0} → (T → Hash256) → T → PrivateKey → Call CryptoError TypedSignature
  unfolding sign public_key
  sign_typed to_hash256 data' k = elim (sign (to_hash256 data') k) [
    | err e ↦ returns (err e)
    | ok s ↦ elim (public_key k) [
      | panics ↦ panics
      | returns p ↦ returns (ok (record { signature = s; signer = p }))
    ]
  ]

-- `Some Random Message` in ASCII.
abbrev pub probe : Bytes
probe =
    83 ∷ 111 ∷ 109 ∷ 101 ∷ 32 ∷ 82 ∷ 97 ∷ 110 ∷ 100 ∷ 111 ∷ 109 ∷ 32 ∷ 77 ∷ 101 ∷ 115 ∷ 115 ∷ 97
    ∷ 103 ∷ 101 ∷ []

-- A result `Ok(())` or an error, as a result.
abbrev pub unit_result : {E : Type 0} → Option E → Result E (Unit {0})
unit_result none = ok tt
unit_result (some e) = err e

module _ (crates : Crates) (keys : Keys) where
  unfoldable pub check_keypair_match : PublicKey → PrivateKey → Result CryptoError (Unit {0})
  unfolding sign verify_signature hash_bytes
  check_keypair_match p k = elim (sign keys (hash_bytes crates.blake3 probe) k) [
    | err e ↦ err e
    | ok s ↦ unit_result (verify_signature crates s (hash_bytes crates.blake3 probe) p)
  ]

-- What ed25519_dalek documents of a key pair: a signature that a secret key makes is one that its
-- public key verifies.
pub record IsKeyPair (crates : Crates) (keys : Keys) : Type 0 where
  pub public_of-IsKey :
      (k : Bytes) → keys.is_secret_key k ≡ true → crates.is_public_key (keys.public_of k) ≡ true
  pub sign_with-IsSignature :
      (k m : Bytes) → keys.is_secret_key k ≡ true → crates.is_signature (keys.sign_with k m) ≡ true
  pub sign_with-verifies :
      (k m : Bytes)
      → keys.is_secret_key k ≡ true
      → crates.verifies (keys.public_of k) m (keys.sign_with k m) ≡ true

module _ (crates : Crates) (keys : Keys) (pair : IsKeyPair crates keys) where
  made_signature_verifies :
      (m : Hash256) (k : PrivateKey)
      → keys.is_secret_key k.key ≡ true
      → verify_signature crates
          (record { signature = keys.sign_with k.key m.hash })
          m
          (record { key = keys.public_of k.key })
        ≡ none
  unfolding verify_signature
  made_signature_verifies m k e =
      rw
        (
          pair.sign_with-IsSignature k.key m.hash e,
          pair.public_of-IsKey k.key e,
          pair.sign_with-verifies k.key m.hash e,
        )
        refl

  pub sign_typed-verify_typed :
      {T : Type 0} (to_hash256 : T → Hash256) (data' : T) (k : PrivateKey) (t : TypedSignature)
      → sign_typed keys to_hash256 data' k ≡ returns (ok t)
      → (verify_typed crates t (to_hash256 data') ≡ none)
        × (t.signer ≡ record { key = keys.public_of k.key })
  unfolding sign_typed sign public_key verify_typed
  sign_typed-verify_typed to_hash256 data' k t h = elim (Bool-cases (keys.is_secret_key k.key)) [
    | inl e ↦
        let hash = to_hash256 data' in
        let e' : t ≡ record {
          signature = record { signature = keys.sign_with k.key hash.hash };
          signer = record { key = keys.public_of k.key };
        } =
          ground (arith, e, h) in
        rw (e') (made_signature_verifies hash k e, refl)
    | inr e ↦ absurd (ground (arith, e, h))
  ]

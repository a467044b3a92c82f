-- ===== src/Common/Encoding.antt =====
-- common/src/hash.rs and the verification of signatures of common/src/crypto.rs. The crates blake3,
-- ed25519_dalek and serde_json are parameters.
use pdao_simperby.Prelude.{Bool, Option, none, some, List, [], ◌∷◌, map, if◌then◌else◌, not}
use pdao_simperby.Common.Bytes.{Bytes, decimal}
use pdao_simperby.Common.Hash.{Hash256, hash_bytes, aggregate}
use pdao_simperby.Common.Merkle.{create, root}
use pdao_simperby.Common.Types.{
  chat_log, BlockHeader, Signature, TypedSignature, Transaction, Agenda, Commit, BlockHeight,
  AgendaProof, PublicKey, block, ExtraAgendaTransaction, transaction, agenda, agenda_proof,
  extra_agenda_transaction,
}

-- `blake3::hash`; whether `Signature::from_bytes` and `PublicKey::from_bytes` accept the bytes; whether
-- a public key verifies a message with a signature; and `serde_json::to_vec` of the types that are
-- hashed, which does not fail on them.
pub record Crates : Type 0 where
  pub blake3 : Bytes → Bytes
  pub is_signature : Bytes → Bool
  pub is_public_key : Bytes → Bool
  pub verifies : Bytes → Bytes → Bytes → Bool
  pub header_json : BlockHeader → Bytes
  pub transaction_json : Transaction → Bytes
  pub agenda_json : Agenda → Bytes
  pub agenda_proof_json : AgendaProof → Bytes
  pub extra_agenda_transaction_json : ExtraAgendaTransaction → Bytes
  pub chat_log_json : Bytes

pub data CryptoError : Type 0 where
  invalid_format : CryptoError
  verification_failed : CryptoError

module _ (crates : Crates) where
  -- `Signature::verify`; `none` is `Ok(())`.
  unfoldable pub verify_signature : Signature → Hash256 → PublicKey → Option CryptoError
  verify_signature s data' k =
      if not (crates.is_signature s.signature)
      then some invalid_format
      else (if not (crates.is_public_key k.key)
          then some invalid_format
          else (if crates.verifies k.key data'.hash s.signature
              then none
              else some verification_failed))

  -- `TypedSignature::verify` of data with the given hash.
  unfoldable pub verify_typed : TypedSignature → Hash256 → Option CryptoError
  unfolding verify_signature
  verify_typed t data' = verify_signature t.signature data' t.signer

  unfoldable pub header_hash : BlockHeader → Hash256
  header_hash h = hash_bytes crates.blake3 (crates.header_json h)

  unfoldable pub transaction_hash : Transaction → Hash256
  transaction_hash t = hash_bytes crates.blake3 (crates.transaction_json t)

  unfoldable pub agenda_hash_of : Agenda → Hash256
  agenda_hash_of a = hash_bytes crates.blake3 (crates.agenda_json a)

  unfoldable pub commit_hash : Commit → Hash256
  unfolding header_hash transaction_hash agenda_hash_of
  commit_hash (block x) = header_hash x
  commit_hash (transaction x) = transaction_hash x
  commit_hash (agenda x) = agenda_hash_of x
  commit_hash (agenda_proof x) = hash_bytes crates.blake3 (crates.agenda_proof_json x)
  commit_hash (extra_agenda_transaction x) =
      hash_bytes crates.blake3 (crates.extra_agenda_transaction_json x)
  commit_hash chat_log = hash_bytes crates.blake3 crates.chat_log_json

  -- The `for` of `Agenda::calculate_hash`.
  unfoldable pub aggregate_all : Hash256 → List Transaction → Hash256
  unfolding transaction_hash
  aggregate_all h [] = h
  aggregate_all h (tx ∷ txs) = aggregate_all (aggregate crates.blake3 h (transaction_hash tx)) txs

  unfoldable pub calculate_hash : BlockHeight → List Transaction → Hash256
  unfolding aggregate_all
  calculate_hash height transactions =
      aggregate_all (hash_bytes crates.blake3 (decimal height)) transactions

  unfoldable pub calculate_commit_merkle_root : List Commit → Option Hash256
  calculate_commit_merkle_root commits = root crates.blake3 (create (map commit_hash commits))

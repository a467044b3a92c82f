-- ===== src/Common/Types.antt =====
-- common/src/types.rs, with the keys and signatures of common/src/crypto.rs and `ReservedState` of
-- common/src/reserved.rs. A `String` is the bytes of its UTF-8.
use pdao_simperby.Prelude.{ℕ, ℤ, Bool, Option, List}
use pdao_simperby.Common.Bytes.{Bytes, bytes_eq}
use pdao_simperby.Common.Hash.{Hash256}

abbrev pub VotingPower : Type 0
VotingPower = ℕ

abbrev pub Timestamp : Type 0
Timestamp = ℤ

abbrev pub BlockHeight : Type 0
BlockHeight = ℕ

pub record PublicKey : Type 0 where
  pub key : Bytes

pub record Signature : Type 0 where
  pub signature : Bytes

-- The type parameter of the source marks what is signed, and is not stored.
pub record TypedSignature : Type 0 where
  pub signature : Signature
  pub signer : PublicKey

abbrev pub FinalizationProof : Type 0
FinalizationProof = List TypedSignature

pub record Member : Type 0 where
  pub public_key : PublicKey
  pub name : Bytes
  pub governance_voting_power : VotingPower
  pub consensus_voting_power : VotingPower
  pub governance_delegations : Option PublicKey
  pub consensus_delegations : Option PublicKey

pub record BlockHeader : Type 0 where
  pub author : PublicKey
  pub prev_block_finalization_proof : FinalizationProof
  pub previous_hash : Hash256
  pub height : BlockHeight
  pub timestamp : Timestamp
  pub commit_merkle_root : Hash256
  pub repository_merkle_root : Hash256
  pub validator_set : List (PublicKey × VotingPower)
  pub version : Bytes

pub record Agenda : Type 0 where
  pub author : PublicKey
  pub timestamp : Timestamp
  pub hash : Hash256

pub record AgendaProof : Type 0 where
  pub agenda_hash : Hash256
  pub proof : List TypedSignature

pub record GenesisInfo : Type 0 where
  pub header : BlockHeader
  pub genesis_proof : FinalizationProof
  pub chain_name : Bytes

pub record ReservedState : Type 0 where
  pub genesis_info : GenesisInfo
  pub members : List Member
  pub consensus_leader_order : List ℕ
  pub version : Bytes

pub data Diff : Type 0 where
  no_diff : Diff
  general : Hash256 → Diff
  reserved : ReservedState → Hash256 → Diff

pub record Transaction : Type 0 where
  pub author : PublicKey
  pub timestamp : Timestamp
  pub head : Bytes
  pub body : Bytes
  pub diff : Diff

pub record TxDelegate : Type 0 where
  pub delegator : PublicKey
  pub delegatee : PublicKey
  pub governance : Bool
  pub proof : TypedSignature
  pub timestamp : Timestamp

pub record TxUndelegate : Type 0 where
  pub delegator : PublicKey
  pub proof : TypedSignature
  pub timestamp : Timestamp

pub data ExtraAgendaTransaction : Type 0 where
  delegate : TxDelegate → ExtraAgendaTransaction
  undelegate : TxUndelegate → ExtraAgendaTransaction
  report : ExtraAgendaTransaction

pub data Commit : Type 0 where
  block : BlockHeader → Commit
  transaction : Transaction → Commit
  agenda : Agenda → Commit
  agenda_proof : AgendaProof → Commit
  extra_agenda_transaction : ExtraAgendaTransaction → Commit
  chat_log : Commit

-- `==` of `PublicKey`.
abbrev pub key_eq : PublicKey → PublicKey → Bool
key_eq a b = bytes_eq a.key b.key

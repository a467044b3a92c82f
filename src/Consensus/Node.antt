-- ===== src/Consensus/Node.antt =====
-- consensus/src/lib.rs: the state of a node, its creation and opening, and the filter of messages.
use pdao_simperby.Prelude.{
  ℕ, ◌^◌, ◌-◌, Option, none, some, List, [], ◌∷◌, map, Bool, false, if◌then◌else◌, not, returns,
  panics, unwrap, get_elem?, ◌++◌,
}
use pdao_simperby.Results.{Call, pure, raise, lift, map_err, ok_or, completes, ◌>>=◌}
use pdao_simperby.Results.Actions.{Action}
use pdao_simperby.Common.Bytes.{Bytes}
use pdao_simperby.Common.Hash.{Hash256}
use pdao_simperby.Common.Types.{PublicKey, VotingPower, key_eq}
use pdao_simperby.Common.Headers.{has_key, keys}
use pdao_simperby.Common.Encoding.{Crates}
use pdao_simperby.Common.Signing.{Keys, PrivateKey, public_key}
use pdao_simperby.Network.Storage.{Storage}
use pdao_simperby.Network.Message.{Codec, Error, storage_error, json_error, custom, message_hash}
use pdao_simperby.Network.MessageSet.{Filter, stored}
use pdao_simperby.Network.Reading.{has_hash}
use pdao_simperby.Vetomint.State.{ConsensusState, ConsensusParams, HeightInfo, Round, Timestamp}
use pdao_simperby.Vetomint.State

-- `state.json` in ASCII.
abbrev pub state_file_name : Bytes
state_file_name = 115 ∷ 116 ∷ 97 ∷ 116 ∷ 101 ∷ 46 ∷ 106 ∷ 115 ∷ 111 ∷ 110 ∷ []

-- `BlockIdentifier::MAX`.
abbrev pub nil_block_proposal_index : ℕ
nil_block_proposal_index = 2 ^ 64 - 1

pub record DriverState : Type 0 where
  pub consensus_state : ConsensusState
  pub updated_messages : List Hash256
  pub verified_block_hashes : List Hash256
  pub validator_set : List (PublicKey × VotingPower)
  pub this_node_index : Option ℕ
  pub finalized : Bool

pub data ConsensusMessage : Type 0 where
  proposal : Hash256 → ConsensusMessage
  non_nil_pre_voted : Round → Hash256 → ConsensusMessage
  non_nil_pre_committed : Round → Hash256 → ConsensusMessage
  nil_pre_voted : Round → ConsensusMessage
  nil_pre_committed : Round → ConsensusMessage

-- `serde_json` on the messages of the consensus and on the state.
pub record DriverCodec : Type 0 where
  pub message_json : ConsensusMessage → Bytes
  pub parse_message : Bytes → Option ConsensusMessage
  pub state_json : DriverState → Bytes
  pub parse_state : Bytes → Option DriverState

-- `Consensus`: the disk of the message set, the own storage, the state in memory, and the hashes that
-- the filter shares. The filter also has the keys of the validators.
pub record Node (S : Type 0) : Type 0 where
  pub dms : S
  pub storage : S
  pub state : DriverState
  pub verified_block_hashes : List Hash256
  pub this_node_key : Option PrivateKey
  pub filter_validators : List PublicKey

module _ {E S : Type 0} (storage : Storage E S) (driver : DriverCodec) where
  unfoldable pub create :
      List (PublicKey × VotingPower)
      → Option ℕ
      → Timestamp
      → ConsensusParams
      → Action (Error E) S (Unit {0})
  create validators index timestamp params =
      let state : DriverState = record {
        consensus_state = State.new (record {
          validators = map (λ (k, power). power) validators;
          this_node_index = index;
          timestamp = timestamp;
          consensus_params = params;
          initial_block_candidate = nil_block_proposal_index;
        });
        updated_messages = [];
        verified_block_hashes = [];
        validator_set = validators;
        this_node_index = index;
        finalized = false;
      } in
      stored (storage.add_or_overwrite_file state_file_name (driver.state_json state))

  -- The private key belongs to the validator that the state names; an index out of range panics.
  unfoldable pub check_key : Keys → DriverState → Option PrivateKey → Call (Error E) (Unit {0})
  check_key ks state key = elim state.this_node_index [
    | none ↦ pure tt
    | some i ↦ do
      validator ← completes (unwrap (get_elem? state.validator_set i))
      own ← lift (ok_or key (custom "private key is required"))
      public ← completes (public_key ks own)
      if key_eq validator.0 public then pure tt else raise (custom "private key does not match")
  ]

  -- `Consensus::new`: the hashes shared with the filter begin empty.
  unfoldable pub new : Keys → S → S → Option PrivateKey → Call (Error E) (Node S)
  unfolding check_key
  new ks dms own_storage key = do
    content ← lift (map_err storage_error (storage.read_file state_file_name own_storage))
    state ← lift (ok_or (driver.parse_state content) json_error)
    checked ← check_key ks state key
    pure (record {
      dms = dms;
      storage = own_storage;
      state = state;
      verified_block_hashes = [];
      this_node_key = key;
      filter_validators = keys state.validator_set;
    })

  unfoldable pub register_verified_block_hash : Hash256 → Action (Error E) (Node S) (Unit {0})
  register_verified_block_hash hash n =
      let state' = record n.state {
        verified_block_hashes = n.state.verified_block_hashes ++ (hash ∷ []);
      } in
      let n' = record n {
        state = state';
        verified_block_hashes = hash ∷ n.verified_block_hashes;
      } in
      elim (stored (storage.add_or_overwrite_file state_file_name (driver.state_json state'))
        n.storage) [ panics ↦ panics | returns (r, s) ↦ returns (r, record n' { storage = s }) ]

module _ {S : Type 0} (crates : Crates) (codec : Codec) (driver : DriverCodec) where
  -- `ConsensusMessageFilter::filter`: the hash that is looked up is that of the message.
  unfoldable pub filter : Node S → Filter
  filter n m = elim (driver.parse_message m.text) [
    | none ↦ some "json"
    | some message ↦
        if not (has_key m.signature.signer n.filter_validators)
        then some "the signer is not in the validator set"
        else (if has_hash (message_hash crates codec m) n.verified_block_hashes
            then none
            else some "the block hash is not verified yet.")
  ]

-- ===== src/Consensus/Opening.antt =====
-- `create` and `new` of consensus/src/lib.rs: a node that was created opens with its state.
use pdao_simperby.Prelude.{
  ◌≡◌, ◌≢◌, inl, inr, refl, arith, false, Option, some, List, [], returns, map, String, ap, length,
  Option-cases, Bool-cases, ℕ,
}
use pdao_simperby.Results.{ok}
use pdao_simperby.Common.Bytes.{bytes_eq_refl}
use pdao_simperby.Common.Encoding.{Crates}
use pdao_simperby.Common.Types.{PublicKey, VotingPower}
use pdao_simperby.Common.Headers.{has_key}
use pdao_simperby.Common.Headers
use pdao_simperby.Common.Signing.{Keys, PrivateKey}
use pdao_simperby.Network.Storage.{Storage, IsReliable, lock_file}
use pdao_simperby.Network.Message.{Message, Codec}
use pdao_simperby.Network.Reading.{has_hash}
use pdao_simperby.Vetomint.State.{ConsensusParams, Timestamp}
use pdao_simperby.Vetomint.State
use pdao_simperby.Consensus.Node.{
  Node, DriverState, DriverCodec, create, new, check_key, filter, state_file_name,
  nil_block_proposal_index,
}

state_file_name-ne-lock : state_file_name ≢ lock_file
state_file_name-ne-lock h = absurd (omega (arith, ap length h))

-- The state of a new node.
abbrev pub first_state :
    List (PublicKey × VotingPower) → Option ℕ → Timestamp → ConsensusParams → DriverState
first_state validators index timestamp params = record {
  consensus_state = State.new (record {
    validators = map (λ (k, power). power) validators;
    this_node_index = index;
    timestamp = timestamp;
    consensus_params = params;
    initial_block_candidate = nil_block_proposal_index;
  });
  updated_messages = [];
  verified_block_hashes = [];
  validator_set = validators;
  this_node_index = index;
  finalized = false;
}

module _ {E S : Type 0} (storage : Storage E S) (crates : Crates) (codec : Codec)
    (disk : IsReliable storage) (driver : DriverCodec) (keys : Keys) where
  -- The state that was printed is parsed again.
  abbrev pub IsPrinted : DriverState → Type 0
  IsPrinted st = driver.parse_state (driver.state_json st) ≡ some st

  -- The node opens with the state, and its filter refuses every message.
  abbrev pub Opens : DriverState → S → S → Option PrivateKey → Type 0
  Opens st dms s key =
      (n : Node S) × (new storage driver keys dms s key ≡ returns (ok n))
      × (n.state ≡ st)
      × ((m : Message) → (reason : String) × (filter crates codec driver n m ≡ some reason))

  refuses :
      (n : Node S)
      → n.verified_block_hashes ≡ []
      → (m : Message) → (reason : String) × (filter crates codec driver n m ≡ some reason)
  unfolding filter has_hash
  refuses n e m = elim (Option-cases (driver.parse_message m.text)) [
    | inl p ↦ ("json", rw (filter, p) refl)
    | inr (x, p) ↦ elim (Bool-cases (has_key m.signature.signer n.filter_validators)) [
      | inl q ↦ ("the block hash is not verified yet.", rw (filter, p, q, e) refl)
      | inr q ↦ ("the signer is not in the validator set", rw (filter, p, q) refl)
    ]
  ]

  -- On a disk that does not fail, a node opens with any state that its storage has, if the state
  -- is printed and parsed without loss and the key check
  -- passes, and its filter refuses every message until a block hash is registered, the hashes of the
  -- state notwithstanding.
  pub new-Opens :
      (st : DriverState) (dms s : S) (key : Option PrivateKey)
      → IsPrinted st
      → disk.view s state_file_name ≡ some (driver.state_json st)
      → check_key storage driver keys st key ≡ returns (ok tt)
      → Opens st dms s key
  unfolding new
  new-Opens st dms s key printed v k =
      let n : Node S = record {
        dms = dms;
        storage = s;
        state = st;
        verified_block_hashes = [];
        this_node_key = key;
        filter_validators = Headers.keys st.validator_set;
      } in
      (
        n,
        rw (disk.read_file-eq state_file_name (driver.state_json st) s v, printed, k) refl,
        refl,
        refuses n refl,
      )

  -- On a disk that does not fail, `create` ends with `Ok`, and a node that passes the key check then
  -- opens with the first state, if that is printed and parsed without loss; its filter refuses every
  -- message.
  create-new :
      (validators : List (PublicKey × VotingPower)) (index : Option ℕ) (timestamp : Timestamp)
      (params : ConsensusParams) (dms s : S) (key : Option PrivateKey)
      → IsPrinted (first_state validators index timestamp params)
      → check_key storage driver keys (first_state validators index timestamp params) key
        ≡ returns (ok tt)
      → (t : S) × (create storage driver validators index timestamp params s ≡ returns (ok tt, t))
        × Opens (first_state validators index timestamp params) dms t key
  unfolding create
  create-new validators index timestamp params dms s key printed k =
      let st = first_state validators index timestamp params in
      (
        disk.put state_file_name (driver.state_json st) s,
        ground
            (arith, disk.add-eq state_file_name (driver.state_json st) s state_file_name-ne-lock),
        new-Opens st dms (disk.put state_file_name (driver.state_json st) s) key printed
            (ground (
              arith,
              disk.view-put state_file_name (driver.state_json st) state_file_name s
                  state_file_name-ne-lock,
              bytes_eq_refl state_file_name,
            ))
            k,
      )

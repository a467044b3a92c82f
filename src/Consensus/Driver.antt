-- ===== src/Consensus/Driver.antt =====
-- consensus/src/lib.rs: `progress`, the events that the messages become and the answers to them.
use pdao_simperby.Prelude.{
  ℕ, suc, Option, none, some, List, [], ◌∷◌, ◌++◌, if◌then◌else◌, Outcome, returns, panics,
}
use pdao_simperby.Results.{Result, Call, ok, err, lift, completes}
use pdao_simperby.Results.Actions.{Action, reads, pure, ◌>>=◌, ◌>>◌}
use pdao_simperby.Common.Bytes.{Bytes}
use pdao_simperby.Common.Hash.{Hash256, hash_eq, hash_bytes}
use pdao_simperby.Common.Types.{PublicKey, VotingPower, key_eq}
use pdao_simperby.Common.Encoding.{Crates, CryptoError}
use pdao_simperby.Common.Signing.{Keys, PrivateKey, sign_typed}
use pdao_simperby.Network.Storage.{Storage}
use pdao_simperby.Network.Message.{Message, Codec, Error, message_hash, new_message}
use pdao_simperby.Network.MessageSet.{add_message, stored}
use pdao_simperby.Network.Reading.{has_hash, read_messages}
use pdao_simperby.Vetomint.State.{
  ConsensusState, ConsensusEvent, ConsensusResponse, Timestamp, Round, non_nil_prevote,
  broadcast_nil_prevote,
}
use pdao_simperby.Vetomint.Progress
use pdao_simperby.Consensus.Node.{
  Node, DriverState, DriverCodec, non_nil_pre_voted, nil_pre_voted, state_file_name,
}

pub data ProgressResult : Type 0 where
  proposed : Round → Hash256 → Timestamp → ProgressResult
  non_nil_pre_voted_result : Round → Hash256 → Timestamp → ProgressResult
  non_nil_pre_committed_result : Round → Hash256 → Timestamp → ProgressResult
  nil_pre_voted_result : Round → Timestamp → ProgressResult
  nil_pre_committed_result : Round → Timestamp → ProgressResult
  finalized_result : Hash256 → Timestamp → ProgressResult

abbrev next : Option ℕ → Option ℕ
next none = none
next (some i) = some (suc i)

-- `position` of a key among the validators, and of a block among the verified ones.
unfoldable pub signer_position : PublicKey → List (PublicKey × VotingPower) → Option ℕ
signer_position k [] = none
signer_position k ((l, power) ∷ rest) =
    let later = signer_position k rest in if key_eq l k then some 0 else next later

unfoldable pub hash_position : Hash256 → List Hash256 → Option ℕ
hash_position h [] = none
hash_position h (g ∷ rest) =
    let later = hash_position h rest in if hash_eq g h then some 0 else next later

-- The messages that were not updated before.
unfoldable pub new_messages : Crates → Codec → List Hash256 → List Message → List Message
new_messages crates codec updated [] = []
new_messages crates codec updated (m ∷ ms) =
    let others = new_messages crates codec updated ms in
    if has_hash (message_hash crates codec m) updated then others else m ∷ others

module _ (driver : DriverCodec) where
  -- The event of a message. Only prevotes for a block are implemented.
  unfoldable pub event_of : DriverState → Timestamp → Message → Outcome ConsensusEvent
  unfolding signer_position hash_position
  event_of state time m = elim (driver.parse_message m.text) [
    | none ↦ panics
    | some message ↦ elim (signer_position m.signature.signer state.validator_set) [
      | none ↦ panics
      | some signer ↦ elim message [
        | non_nil_pre_voted round hash ↦ elim (hash_position hash state.verified_block_hashes) [
          | none ↦ panics
          | some index ↦ returns (non_nil_prevote index signer round time)
        ]
        | _ ↦ panics
      ]
    ]
  ]

module _ {E S : Type 0} (storage : Storage E S) (crates : Crates) (codec : Codec)
    (driver : DriverCodec) (keys : Keys) (broadcast : Bytes → Result (Error E) (Unit {0})) where
  -- `expect`: an error panics.
  abbrev pub expect : {A : Type 0} → Call CryptoError A → Outcome A
  expect (returns (ok a)) = returns a
  expect (returns (err e)) = panics
  expect panics = panics

  -- The vote of this node is signed and put into the message set.
  unfoldable pub publish : Round → PrivateKey → Action (Error E) S (Unit {0})
  publish round key = do
    let text = driver.message_json (nil_pre_voted round)
    signed ← reads (λ _. completes (expect (sign_typed keys (hash_bytes crates.blake3) text key)))
    message ← reads (λ _. completes (expect (lift (new_message crates text signed))))
    add_message storage crates codec broadcast message

  -- The answer to one response. Only the broadcast of a prevote for nil is implemented.
  unfoldable pub respond :
      Timestamp → Option PrivateKey → ConsensusResponse → Action (Error E) S ProgressResult
  unfolding publish
  respond time none (broadcast_nil_prevote round) = pure (nil_pre_voted_result round time)
  respond time (some key) (broadcast_nil_prevote round) = do
    publish round key
    pure (nil_pre_voted_result round time)
  respond time key _ = λ s. panics

  unfoldable pub respond_all :
      Timestamp
      → Option PrivateKey
      → List ConsensusResponse
      → Action (Error E) S (List ProgressResult)
  unfolding respond
  respond_all time key [] = pure []
  respond_all time key (r ∷ rs) = do
    result ← respond time key r
    results ← respond_all time key rs
    pure (result ∷ results)

  abbrev pub responses : Option (List ConsensusResponse) → List ConsensusResponse
  responses none = []
  responses (some rs) = rs

  -- The state machine's copy is taken over once its responses are answered.
  abbrev pub commit :
      Node S
      → ConsensusState
      → Outcome (Result (Error E) (List ProgressResult) × S)
      → Outcome (Result (Error E) (List ProgressResult) × Node S)
  commit n copy panics = panics
  commit n copy (returns (err e, dms)) = returns (err e, record n { dms = dms })
  commit n copy (returns (ok results, dms)) =
      returns
        (ok results, record n { dms = dms; state = record n.state { consensus_state = copy } })

  abbrev pub answer :
      Node S
      → Timestamp
      → Outcome (Option (List ConsensusResponse) × ConsensusState)
      → Outcome (Result (Error E) (List ProgressResult) × Node S)
  answer n time panics = panics
  answer n time (returns (result, copy)) =
      commit n copy (respond_all time n.this_node_key (responses result) n.dms)

  -- One message.
  abbrev pub take :
      Node S
      → Timestamp
      → Outcome ConsensusEvent
      → Outcome (Result (Error E) (List ProgressResult) × Node S)
  take n time panics = panics
  take n time (returns e) = answer n time (Progress.progress n.state.consensus_state e)

  unfoldable pub update : Timestamp → Message → Action (Error E) (Node S) (List ProgressResult)
  unfolding respond_all event_of
  update time m n = take n time (event_of driver n.state time m)

  unfoldable pub update_all :
      Timestamp → List Message → Action (Error E) (Node S) (List ProgressResult)
  unfolding update
  update_all time [] = pure []
  update_all time (m ∷ ms) = do
    results ← update time m
    others ← update_all time ms
    pure (results ++ others)

  abbrev saved :
      Node S
      → Outcome (Result (Error E) (Unit {0}) × S)
      → Outcome (Result (Error E) (Unit {0}) × Node S)
  saved n panics = panics
  saved n (returns (r, s)) = returns (r, record n { storage = s })

  unfoldable pub save : Action (Error E) (Node S) (Unit {0})
  save n =
      saved n (
        stored (storage.add_or_overwrite_file state_file_name (driver.state_json n.state))
          n.storage)

  unfoldable pub progress : Timestamp → Action (Error E) (Node S) (List ProgressResult)
  unfolding update_all save new_messages
  progress time = do
    messages ← reads (λ n. read_messages storage crates codec n.dms)
    state ← reads (λ n. returns (ok n.state))
    results ← update_all time (new_messages crates codec state.updated_messages messages)
    save
    pure results

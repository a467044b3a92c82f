-- ===== src/Network/MessageSet.antt =====
-- network/src/dms.rs: what writes the storage of a message set.
use pdao_simperby.Prelude.{
  Option, none, some, List, [], ◌∷◌, map, Outcome, returns, panics, String, add64,
}
use pdao_simperby.Common.Bytes.{Bytes}
use pdao_simperby.Common.Hash.{Hash256}
use pdao_simperby.Common.Types.{BlockHeight}
use pdao_simperby.Common.Encoding.{Crates}
use pdao_simperby.Results.{Result, ok, map_err}
use pdao_simperby.Results.Actions.{Action, pure, raise, reads, ◌>>=◌, ◌>>◌}
use pdao_simperby.Network.Storage.{Storage}
use pdao_simperby.Network.Message.{
  Message, RawMessage, State, Codec, Error, storage_error, json_error, custom, state_file_path,
  into_message, message_hash, file_name,
}
use pdao_simperby.Network.Reading.{read_messages, read_state}

-- `filter` of a `MessageFilter`; `none` is `Ok(())`.
abbrev pub Filter : Type 0
Filter = Message → Option String

-- `DummyFilter`.
unfoldable pub dummy_filter : Filter
dummy_filter m = none

-- What a peer answers to `get_message`, with the failures of the network.
abbrev pub PeerAnswer : Type 0 → Type 0
PeerAnswer E = BlockHeight → List Hash256 → Result (Error E) (List RawMessage)

module _ {E S : Type 0} where
  -- An error of the storage as `anyhow::Error`.
  abbrev pub stored_result :
      Outcome (Result E (Unit {0}) × S) → Outcome (Result (Error E) (Unit {0}) × S)
  stored_result (returns (r, s)) = returns (map_err storage_error r, s)
  stored_result panics = panics

  abbrev pub stored : Action E S (Unit {0}) → Action (Error E) S (Unit {0})
  stored m s = stored_result (m s)

  abbrev pub lift_filter : Option String → Action (Error E) S (Unit {0})
  lift_filter none = pure tt
  lift_filter (some e) = raise (custom e)

  abbrev pub lift_result : {A : Type 0} → Result (Error E) A → Action (Error E) S A
  lift_result r s = returns (r, s)

  -- An error is logged and dropped.
  abbrev pub logged_result :
      Outcome (Result (Error E) (Unit {0}) × S) → Outcome (Result (Error E) (Unit {0}) × S)
  logged_result (returns (r, s)) = returns (ok tt, s)
  logged_result panics = panics

  abbrev pub logged : Action (Error E) S (Unit {0}) → Action (Error E) S (Unit {0})
  logged m s = logged_result (m s)

module _ {E S : Type 0} (storage : Storage E S) (crates : Crates) (codec : Codec) where
  unfoldable pub add_message_but_not_broadcast : Message → Action (Error E) S (Unit {0})
  unfolding file_name
  add_message_but_not_broadcast m =
      stored (storage.add_or_overwrite_file (file_name crates codec m) (codec.message_json m))

  unfoldable pub write_state : State → Action (Error E) S (Unit {0})
  write_state state =
      stored (storage.add_or_overwrite_file state_file_path (codec.state_json state))

  -- A message from a peer or from the gossip network: its signature, the filter, the storage.
  unfoldable pub receive : Filter → RawMessage → Action (Error E) S (Unit {0})
  unfolding add_message_but_not_broadcast
  receive filter raw = do
    message ← lift_result (into_message crates raw)
    lift_filter (filter message)
    add_message_but_not_broadcast message

  -- The `for` over the messages of one peer: the first that is refused ends it.
  unfoldable pub receive_all : Filter → List RawMessage → Action (Error E) S (Unit {0})
  unfolding receive
  receive_all filter [] = pure tt
  receive_all filter (raw ∷ raws) = do receive filter raw; receive_all filter raws

  -- The tasks of `fetch`, in the order in which the answers come.
  unfoldable pub fetch_from :
      Filter → BlockHeight → List Hash256 → List (PeerAnswer E) → Action (Error E) S (Unit {0})
  unfolding receive_all
  fetch_from filter height knowns [] = pure tt
  fetch_from filter height knowns (peer ∷ peers) = do
    logged (do raws ← lift_result (peer height knowns); receive_all filter raws)
    fetch_from filter height knowns peers

  unfoldable pub fetch : Filter → List (PeerAnswer E) → Action (Error E) S (Unit {0})
  unfolding fetch_from message_hash
  fetch filter peers = do
    messages ← reads (read_messages storage crates codec)
    state ← reads (read_state storage crates codec)
    fetch_from filter state.height (map (message_hash crates codec) messages) peers

  -- One message of the gossip network; the loop of `serve` logs the error.
  unfoldable pub gossip : Filter → Option RawMessage → Action (Error E) S (Unit {0})
  unfolding receive
  gossip filter none = logged (raise json_error)
  gossip filter (some raw) = logged (receive filter raw)

  unfoldable pub create : BlockHeight → Bytes → Action (Error E) S (Unit {0})
  unfolding write_state
  create height dms_key = do
    stored storage.remove_all_files
    write_state (record { height = height; key = dms_key })

  -- `N::broadcast`, with the message in JSON, is `broadcast`.
  unfoldable pub add_message :
      (Bytes → Result (Error E) (Unit {0})) → Message → Action (Error E) S (Unit {0})
  unfolding add_message_but_not_broadcast
  add_message broadcast m = do
    add_message_but_not_broadcast m
    lift_result (broadcast (codec.message_json m))

  unfoldable pub advance : Action (Error E) S (Unit {0})
  unfolding write_state
  advance = do
    state ← reads (read_state storage crates codec)
    stored storage.remove_all_files
    write_state (record { height = add64 state.height 1; key = state.key })

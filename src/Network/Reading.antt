-- ===== src/Network/Reading.antt =====
-- network/src/dms.rs: what reads the storage of a message set.
use pdao_simperby.Prelude.{List, [], ◌∷◌, Bool, not, if◌then◌else◌, ◌==◌, false, ◌||◌}
use pdao_simperby.Common.Bytes.{Bytes, bytes_eq}
use pdao_simperby.Common.Hash.{Hash256, hash_eq}
use pdao_simperby.Common.Types.{BlockHeight}
use pdao_simperby.Common.Encoding.{Crates}
use pdao_simperby.Results.{
  Result, Call, ok, err, pure, raise, lift, map_err, call_map_err, traverse, ok_or, ◌>>=◌,
}
use pdao_simperby.Network.Storage.{Storage}
use pdao_simperby.Network.Message.{
  Message, RawMessage, State, Codec, Error, storage_error, json_error, custom, state_file_path,
  into_message, from_message, message_hash,
}

-- The contents of the files other than the state's.
unfoldable pub but_state : List (Bytes × Bytes) → List Bytes
but_state [] = []
but_state ((f, c) ∷ rest) =
    let others = but_state rest in if bytes_eq f state_file_path then others else c ∷ others

-- `knowns.contains` of the set of hashes.
unfoldable pub has_hash : Hash256 → List Hash256 → Bool
has_hash h [] = false
has_hash h (k ∷ ks) = hash_eq k h || has_hash h ks

module _ {E S : Type 0} (storage : Storage E S) (crates : Crates) (codec : Codec) where
  -- A file with its content.
  unfoldable pub read_entry : S → Bytes → Result (Error E) (Bytes × Bytes)
  read_entry s f = elim (storage.read_file f s) [ ok c ↦ ok (f, c) | err e ↦ err (storage_error e) ]

  unfoldable pub parse_entry : Bytes → Result (Error E) RawMessage
  parse_entry c = ok_or (codec.parse_message c) json_error

  unfoldable pub read_messages : S → Call (Error E) (List Message)
  unfolding read_entry parse_entry
  read_messages s = do
    files ← call_map_err storage_error (storage.list_files s)
    entries ← lift (traverse (read_entry s) files)
    raws ← lift (traverse parse_entry (but_state entries))
    lift (traverse (into_message crates) raws)

  unfoldable pub read_state : S → Call (Error E) State
  read_state s = do
    content ← lift (map_err storage_error (storage.read_file state_file_path s))
    lift (ok_or (codec.parse_state content) json_error)

  unfoldable pub read_height : S → Call (Error E) BlockHeight
  unfolding read_state
  read_height s = do state ← read_state s; pure state.height

  -- The messages whose hash is not known, as they are sent.
  unfoldable pub unknown_messages : List Hash256 → List Message → List RawMessage
  unfolding has_hash message_hash from_message
  unknown_messages knowns [] = []
  unknown_messages knowns (m ∷ ms) =
      let others = unknown_messages knowns ms in
      if has_hash (message_hash crates codec m) knowns then others else from_message m ∷ others

  -- `get_message` of the RPC interface; the errors go to the peer as texts.
  unfoldable pub get_message : BlockHeight → List Hash256 → S → Call (Error E) (List RawMessage)
  unfolding unknown_messages
  get_message height knowns s = do
    messages ← read_messages s
    state ← read_state s
    if not (height == state.height)
        then raise (custom "height mismatch")
        else pure (unknown_messages knowns messages)

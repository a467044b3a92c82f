-- ===== src/Network/Message.antt =====
-- network/src/dms.rs: the messages, and the names and contents of the files that hold them.
use pdao_simperby.Prelude.{Option, none, some, [], ◌∷◌, ◌++◌, String}
use pdao_simperby.Common.Bytes.{Bytes}
use pdao_simperby.Common.Types.{TypedSignature, BlockHeight}
use pdao_simperby.Common.Hash.{Hash256, hash_bytes}
use pdao_simperby.Common.Encoding.{Crates, CryptoError, verify_typed}
use pdao_simperby.Results.{Result, ok, err, map_err}

-- `_state.json` and `.json` in ASCII.
abbrev pub state_file_path : Bytes
state_file_path = 95 ∷ 115 ∷ 116 ∷ 97 ∷ 116 ∷ 101 ∷ 46 ∷ 106 ∷ 115 ∷ 111 ∷ 110 ∷ []

abbrev pub json_suffix : Bytes
json_suffix = 46 ∷ 106 ∷ 115 ∷ 111 ∷ 110 ∷ []

pub record Message : Type 0 where
  pub text : Bytes
  pub signature : TypedSignature

-- A message before verification: the same fields.
pub record RawMessage : Type 0 where
  pub text : Bytes
  pub signature : TypedSignature

pub record State : Type 0 where
  pub height : BlockHeight
  pub key : Bytes

-- `serde_json` on the messages and on the state, and `hex::encode`; a text that does not parse is
-- `none`.
pub record Codec : Type 0 where
  pub message_json : Message → Bytes
  pub parse_message : Bytes → Option RawMessage
  pub state_json : State → Bytes
  pub parse_state : Bytes → Option State
  pub hex : Bytes → Bytes

-- `anyhow::Error`, by where it comes from: the storage, the parser, a signature, or a text.
pub data Error (E : Type 0) : Type 0 where
  storage_error : E → Error E
  json_error : Error E
  crypto_error : CryptoError → Error E
  custom : String → Error E

module _ (crates : Crates) where
  -- `Message::new`.
  unfoldable pub new_message : Bytes → TypedSignature → Result CryptoError Message
  new_message text signature =
      elim (verify_typed crates signature (hash_bytes crates.blake3 text)) [
        | some e ↦ err e
        | none ↦ ok (record { text = text; signature = signature })
      ]

  unfoldable pub into_message : {E : Type 0} → RawMessage → Result (Error E) Message
  unfolding new_message
  into_message raw = map_err crypto_error (new_message raw.text raw.signature)

unfoldable pub from_message : Message → RawMessage
from_message m = record { text = m.text; signature = m.signature }

module _ (crates : Crates) (codec : Codec) where
  -- `Message::to_hash256`.
  unfoldable pub message_hash : Message → Hash256
  message_hash m = hash_bytes crates.blake3 (codec.message_json m)

  -- `format!("{}.json", message.to_hash256())`.
  unfoldable pub file_name : Message → Bytes
  unfolding message_hash
  file_name m = codec.hex (message_hash m).hash ++ json_suffix

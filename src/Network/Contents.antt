-- ===== src/Network/Contents.antt =====
-- What the files of a message set hold, on a disk that does not fail: network/src/dms.rs.
use pdao_simperby.Prelude.{◌≡◌, ◌≢◌, ◌⊎◌, arith, some, [], ◌∷◌, ◌++◌, length, length-append, ap}
use pdao_simperby.Results.{ok}
use pdao_simperby.Common.Bytes.{Bytes}
use pdao_simperby.Common.Encoding.{Crates}
use pdao_simperby.Network.Storage.{Storage, IsReliable, lock_file}
use pdao_simperby.Network.Message.{
  Message, State, Codec, state_file_path, json_suffix, new_message, from_message, file_name,
  message_hash,
}

-- What the code relies on of `serde_json` and `hex`: a value that was printed is parsed again, and a
-- text in hexadecimal does not begin with `_`.
pub record IsFaithful (codec : Codec) : Type 0 where
  pub parse_message-json :
      (m : Message) → codec.parse_message (codec.message_json m) ≡ some (from_message m)
  pub parse_state-json : (st : State) → codec.parse_state (codec.state_json st) ≡ some st
  pub hex_digits : (b rest : Bytes) → codec.hex b ≢ 95 ∷ rest

not_state_file :
    (xs : Bytes) → ((rest : Bytes) → xs ≢ 95 ∷ rest) → xs ++ json_suffix ≢ state_file_path
not_state_file [] h e = ground (arith, e)
not_state_file (x ∷ xs) h e = h xs (ground (arith, e))

module _ (crates : Crates) where
  -- The signature of the message verifies.
  abbrev pub IsVerified : Message → Type 0
  IsVerified m = new_message crates m.text m.signature ≡ ok m

module _ (crates : Crates) (codec : Codec) (faithful : IsFaithful codec) where
  pub file_name-ne-lock : (m : Message) → file_name crates codec m ≢ lock_file
  unfolding file_name
  file_name-ne-lock m h = absurd (
      omega (
        arith,
        ap length h,
        length-append (codec.hex (message_hash crates codec m).hash) json_suffix,
      ))

  pub file_name-ne-state : (m : Message) → file_name crates codec m ≢ state_file_path
  unfolding file_name
  file_name-ne-state m =
      not_state_file (codec.hex (message_hash crates codec m).hash)
        (faithful.hex_digits (message_hash crates codec m).hash)

module _ {E S : Type 0} (storage : Storage E S) (crates : Crates) (codec : Codec)
    (disk : IsReliable storage) (faithful : IsFaithful codec) where
  -- The message is in the set.
  abbrev pub Holds : S → Message → Type 0
  Holds s m = disk.view s (file_name crates codec m) ≡ some (codec.message_json m)

  abbrev pub IsStored : Bytes → Bytes → Type 0
  IsStored f c =
      (m : Message) × IsVerified crates m
      × (f ≡ file_name crates codec m)
      × (c ≡ codec.message_json m)

  -- Each file but the state's holds a verified message under its hash, and the state is there.
  pub record IsWellFormed (s : S) : Type 0 where
    pub messages : (f c : Bytes) → disk.view s f ≡ some c → (f ≡ state_file_path) ⊎ IsStored f c
    pub state : State
    pub state_file : disk.view s state_file_path ≡ some (codec.state_json state)

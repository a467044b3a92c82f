-- ===== src/Network/Fixtures.antt =====
-- Crates, files and message sets for concrete runs of network/src/dms.rs.
use pdao_simperby.Prelude.{
  ◌≡◌, refl, arith, true, some, [], ◌∷◌, inl, inr, returns, Bool-cases, ◌⊎◌, sym, ap,
}
use mathlib.Core.List.{append_cancel_right}
use pdao_simperby.Results.{ok}
use pdao_simperby.Common.Bytes.{Bytes, bytes_eq, eq_of_bytes_eq}
use pdao_simperby.Common.Encoding.{Crates, verify_typed}
use pdao_simperby.Network.Memory.{
  Files, memory, memory_disk, plain, plain_faithful, look_up, encode, decode, decode_state,
}
use pdao_simperby.Network.Message.{
  Message, file_name, state_file_path, new_message, from_message, json_suffix,
}
use pdao_simperby.Network.Contents.{IsVerified, IsWellFormed, IsStored}
use pdao_simperby.Network.Writes.{NoClash}
use pdao_simperby.Common.Hash.{hash_bytes}
use pdao_simperby.Network.Reading.{read_state}

-- Every signature verifies, and a hash is what is hashed.
abbrev pub open_crates : Crates
open_crates = record {
  blake3 = λ bytes. bytes;
  is_signature = λ bytes. true;
  is_public_key = λ bytes. true;
  verifies = λ key message signature. true;
  header_json = λ h. [];
  transaction_json = λ t. [];
  agenda_json = λ a. [];
  agenda_proof_json = λ p. [];
  extra_agenda_transaction_json = λ tx. [];
  chat_log_json = [];
}

abbrev pub greeting : Message
greeting = record {
  text = 104 ∷ 105 ∷ [];
  signature = record {
    signature = record { signature = 1 ∷ [] };
    signer = record { key = 2 ∷ [] };
  };
}

abbrev pub empty_set : Files
empty_set = (state_file_path, 5 ∷ 7 ∷ []) ∷ []

-- The hash of the greeting is its encoding.
abbrev pub greeting_set : Files
greeting_set =
    (
      48 ∷ 2 ∷ 1 ∷ 104 ∷ 105 ∷ 1 ∷ 2 ∷ 46 ∷ 106 ∷ 115 ∷ 111 ∷ 110 ∷ [],
      2 ∷ 1 ∷ 104 ∷ 105 ∷ 1 ∷ 2 ∷ [],
    )
    ∷ empty_set

abbrev pub IsSound : Files → Type 0
IsSound s = IsWellFormed memory open_crates plain memory_disk plain_faithful s

pub greeting-IsVerified : IsVerified open_crates greeting
unfolding new_message verify_typed hash_bytes
greeting-IsVerified = refl

pub only_state : (f c : Bytes) → look_up empty_set f ≡ some c → f ≡ state_file_path
unfolding look_up
only_state f c h = elim (Bool-cases (bytes_eq state_file_path f)) [
  | inl e ↦ sym (eq_of_bytes_eq state_file_path f e)
  | inr e ↦ absurd (ground (arith, e, h))
]

abbrev pub greeting_file : Bytes
greeting_file = 48 ∷ 2 ∷ 1 ∷ 104 ∷ 105 ∷ 1 ∷ 2 ∷ 46 ∷ 106 ∷ 115 ∷ 111 ∷ 110 ∷ []

greeting_or_state :
    (f c : Bytes)
    → look_up greeting_set f ≡ some c
    → (f ≡ state_file_path) ⊎ ((f ≡ greeting_file) × (c ≡ 2 ∷ 1 ∷ 104 ∷ 105 ∷ 1 ∷ 2 ∷ []))
unfolding look_up
greeting_or_state f c h = elim (Bool-cases (bytes_eq greeting_file f)) [
  | inl e ↦ inr (sym (eq_of_bytes_eq greeting_file f e), ground (arith, e, h))
  | inr e ↦ inl (only_state f c (ground (arith, e, h)))
]

greeting-IsStored :
    (f c : Bytes)
    → look_up greeting_set f ≡ some c
    → (f ≡ state_file_path) ⊎ IsStored memory open_crates plain memory_disk plain_faithful f c
unfolding plain file_name hash_bytes encode
greeting-IsStored f c h = elim (greeting_or_state f c h) [
  | inl e ↦ inl e
  | inr (e, k) ↦ inr (greeting, greeting-IsVerified, e, k)
]

pub empty_set-IsSound : IsSound empty_set
unfolding memory_disk plain look_up bytes_eq
empty_set-IsSound = record {
  messages = λ f c h. inl (only_state f c h);
  state = record { height = 5; key = 7 ∷ [] };
  state_file = refl;
}

pub greeting_set-IsSound : IsSound greeting_set
unfolding memory_disk plain look_up bytes_eq
greeting_set-IsSound = record {
  messages = λ f c h. greeting-IsStored f c h;
  state = record { height = 5; key = 7 ∷ [] };
  state_file = refl;
}

pub no_clash : NoClash memory open_crates plain memory_disk plain_faithful
unfolding file_name hash_bytes plain from_message
no_clash m n e =
    let e' : encode m ≡ encode n =
      append_cancel_right (encode m) (encode n) json_suffix (ground (arith, e)) in
    ground (
      arith,
      ap decode e',
      plain_faithful.parse_message-json m,
      plain_faithful.parse_message-json n,
    )

pub empty_state :
    read_state memory open_crates plain empty_set
    ≡ returns (ok (record { height = 5; key = 7 ∷ [] }))
unfolding read_state memory look_up plain decode_state bytes_eq
empty_state = refl

pub greeting_state :
    read_state memory open_crates plain greeting_set
    ≡ returns (ok (record { height = 5; key = 7 ∷ [] }))
unfolding read_state memory look_up plain decode_state bytes_eq
greeting_state = refl

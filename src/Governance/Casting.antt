-- ===== src/Governance/Casting.antt =====
-- governance/src/lib.rs: the making of a vote, and the change of height.
use pdao_simperby.Prelude.{not, if◌then◌else◌, ◌==◌}
use pdao_simperby.Results.{Result, map_err, call_map_err, completes}
use pdao_simperby.Results.Actions.{Action, raise, reads, ◌>>=◌}
use pdao_simperby.Common.Bytes.{Bytes}
use pdao_simperby.Common.Hash.{Hash256, hash_bytes}
use pdao_simperby.Common.Types.{BlockHeight}
use pdao_simperby.Common.Encoding.{Crates}
use pdao_simperby.Common.Signing.{Keys, PrivateKey, public_key, sign, sign_typed}
use pdao_simperby.Network.Storage.{Storage}
use pdao_simperby.Network.Message.{Codec, Error, crypto_error, custom, new_message}
use pdao_simperby.Network.Reading.{read_height}
use pdao_simperby.Network.MessageSet.{lift_result, add_message}
use pdao_simperby.Network.MessageSet
use pdao_simperby.Governance.Votes.{VoteCodec}

module _ {E S : Type 0} (storage : Storage E S) (crates : Crates) (codec : Codec) where
  -- The vote is signed by `key`, and its message by the key of the network.
  unfoldable pub vote :
      VoteCodec
      → Keys
      → (Bytes → Result (Error E) (Unit {0}))
      → Hash256
      → PrivateKey
      → PrivateKey
      → Action (Error E) S (Unit {0})
  vote votes keys broadcast agenda_hash key network_key = do
    voter ← reads (λ _. completes (public_key keys key))
    signature ← lift_result (map_err crypto_error (sign keys agenda_hash key))
    let text =
        votes.vote_json (record { agenda_hash = agenda_hash; voter = voter; signature = signature })
    signed ← reads (λ _.
        call_map_err crypto_error (sign_typed keys (hash_bytes crates.blake3) text network_key))
    message ← lift_result (map_err crypto_error (new_message crates text signed))
    add_message storage crates codec broadcast message

  unfoldable pub advance : BlockHeight → Action (Error E) S (Unit {0})
  advance height_to_assert = do
    height ← reads (read_height storage crates codec)
    if not (height == height_to_assert)
        then raise (custom "the height of the governance status is not the expected one")
        else MessageSet.advance storage crates codec

-- ===== src/Network/Scenarios.antt =====
-- Concrete message sets for the theorems on network/src/dms.rs.
use pdao_simperby.Network.Serving.{
  fetch_begins, peer_asks, gossip_arrives, peer_answers, broadcast_is_due, ServeEvent, serve_events,
  serve_total,
}
use pdao_simperby.Prelude.{◌≡◌, refl, [], ◌∷◌, returns, ◌⊎◌, ℕ, none, some}
use mathlib.Core.List.{List}
use pdao_simperby.Results.{ok}
use pdao_simperby.Network.Memory.{Files, memory, memory_disk, plain, plain_faithful}
use pdao_simperby.Network.Message.{Message, from_message}
use pdao_simperby.Network.Contents.{IsVerified, Holds}
use pdao_simperby.Network.Reading.{read_messages}
use pdao_simperby.Network.MessageSet.{PeerAnswer, fetch, dummy_filter}
use pdao_simperby.Network.Reads.{IsListed, read_messages_total}
use pdao_simperby.Network.Peers.{answers}
use pdao_simperby.Network.Fetch.{fetch_total}
use pdao_simperby.Network.Sync.{fetch_merges}
use pdao_simperby.Network.Fixtures.{
  open_crates, greeting, empty_set, greeting_set, IsSound, empty_set-IsSound, greeting_set-IsSound,
  no_clash, empty_state, greeting_state,
}

abbrev HasMessage : Files → Message → Type 0
HasMessage s m = Holds memory open_crates plain memory_disk plain_faithful s m

read_messages_total_example :
    (ms : List Message) × (read_messages memory open_crates plain greeting_set ≡ returns (ok ms))
    × IsListed memory open_crates plain memory_disk plain_faithful greeting_set ms
read_messages_total_example =
    read_messages_total memory open_crates plain memory_disk plain_faithful greeting_set
      greeting_set-IsSound

-- A peer that sends the greeting.
abbrev greeter : PeerAnswer ℕ
greeter height knowns = ok (record { text = greeting.text; signature = greeting.signature } ∷ [])

fetch_total_example :
    (t : Files) × (fetch memory open_crates plain dummy_filter (greeter ∷ []) empty_set
      ≡ returns (ok tt, t))
    × IsSound t
    × ((m : Message) → HasMessage empty_set m → HasMessage t m)
    × ((m : Message) → HasMessage t m → HasMessage empty_set m ⊎ (dummy_filter m ≡ none))
fetch_total_example =
    fetch_total memory open_crates plain memory_disk plain_faithful dummy_filter (greeter ∷ [])
      empty_set no_clash empty_set-IsSound

fetch_merges_example :
    (t : Files) × (fetch memory open_crates plain dummy_filter
        (answers memory open_crates plain memory_disk plain_faithful greeting_set ∷ [])
        empty_set
      ≡ returns (ok tt, t))
    × ((m : Message)
        → IsVerified open_crates m
        → HasMessage empty_set m ⊎ HasMessage greeting_set m
        → HasMessage t m)
fetch_merges_example =
    fetch_merges memory open_crates plain memory_disk plain_faithful empty_set greeting_set
      (record { height = 5; key = 7 ∷ [] }) (record { height = 5; key = 7 ∷ [] }) no_clash
      empty_set-IsSound greeting_set-IsSound empty_state greeting_state refl

-- A fetch whose peer answers after another peer has asked and a message came by gossip.
abbrev one_of_each : List (ServeEvent ℕ)
one_of_each =
    fetch_begins
    ∷ peer_asks 5 []
    ∷ gossip_arrives none
    ∷ gossip_arrives (some (from_message greeting))
    ∷ peer_answers 5 [] greeter
    ∷ broadcast_is_due
    ∷ []

serve_total_example :
    (t : Files) × (serve_events memory open_crates plain dummy_filter one_of_each empty_set
      ≡ returns (ok tt, t))
    × IsSound t
    × ((m : Message) → HasMessage empty_set m → HasMessage t m)
    × ((m : Message) → HasMessage t m → HasMessage empty_set m ⊎ (dummy_filter m ≡ none))
serve_total_example =
    serve_total memory open_crates plain memory_disk plain_faithful dummy_filter one_of_each
      empty_set no_clash empty_set-IsSound

-- ===== src/Network/Serving.antt =====
-- `serve` of network/src/dms.rs: its four tasks share the lock of the storage, and take it in any order.
use pdao_simperby.Prelude.{
  [], ◌∷◌, returns, ◌≡◌, ◌⊎◌, refl, Option, none, some, List, Bool-cases, ◌==◌, inl, inr,
}
use pdao_simperby.Results.{ok}
use pdao_simperby.Results.Actions.{Action, pure, reads, ◌>>=◌, ◌>>◌}
use pdao_simperby.Network.MessageSet.{logged, gossip, fetch_from, receive, Filter, PeerAnswer}
use pdao_simperby.Network.Reading.{read_messages, read_state, get_message}
use pdao_simperby.Common.Types.{BlockHeight}
use pdao_simperby.Network.Storage.{Storage, IsReliable}
use pdao_simperby.Common.Hash.{Hash256}
use pdao_simperby.Network.Message.{RawMessage, Codec, Error, Message}
use pdao_simperby.Common.Encoding.{Crates}
use pdao_simperby.Network.Contents.{IsFaithful, IsWellFormed, Holds}
use pdao_simperby.Network.Writes.{
  Accepts, NoClash, same, Accepts-IsWellFormed, Accepts-trans, Accepts-Holds, Accepts-filtered,
}
use pdao_simperby.Network.Reads.{read_messages_total}
use pdao_simperby.Network.Fetch.{
  read_state-eq, fetch_from-Accepts, logged-Receives, receive-Receives,
}

-- What a task does with the lock in one go. A fetch reads what is known, and later, as each peer answers,
-- takes the lock again to store the answer. A gossip message that is no JSON is `none`.
pub data ServeEvent (E : Type 0) : Type 0 where
  fetch_begins : ServeEvent E
  peer_answers : BlockHeight → List Hash256 → PeerAnswer E → ServeEvent E
  gossip_arrives : Option RawMessage → ServeEvent E
  peer_asks : BlockHeight → List Hash256 → ServeEvent E
  broadcast_is_due : ServeEvent E

module _ {E S : Type 0} (storage : Storage E S) (crates : Crates) (codec : Codec) where
  -- A broadcast that can not read ends `serve`; other errors are logged, or given to the peer that asks.
  unfoldable pub serve_event : Filter → ServeEvent E → Action (Error E) S (Unit {0})
  unfolding fetch_from gossip get_message
  serve_event filter fetch_begins = logged (do
    messages ← reads (read_messages storage crates codec)
    state ← reads (read_state storage crates codec)
    pure tt)
  serve_event filter (peer_answers height knowns peer) =
      fetch_from storage crates codec filter height knowns (peer ∷ [])
  serve_event filter (gossip_arrives raw) = gossip storage crates codec filter raw
  serve_event filter (peer_asks height knowns) =
      logged (do raws ← reads (get_message storage crates codec height knowns); pure tt)
  serve_event filter broadcast_is_due = do
    messages ← reads (read_messages storage crates codec)
    pure tt

  -- The events in the order in which they took the lock.
  unfoldable pub serve_events : Filter → List (ServeEvent E) → Action (Error E) S (Unit {0})
  unfolding serve_event
  serve_events filter [] = pure tt
  serve_events filter (event ∷ events) = do serve_event filter event; serve_events filter events

module _ {E S : Type 0} (storage : Storage E S) (crates : Crates) (codec : Codec)
    (disk : IsReliable storage) (faithful : IsFaithful codec) where
  -- The event is handled, and added at most accepted messages.
  Handles : Filter → ServeEvent E → S → Type 0
  Handles filter event s =
      (t : S) × (serve_event storage crates codec filter event s ≡ returns (ok tt, t))
      × Accepts storage crates codec disk faithful filter s t

  serve_event-Handles :
      (filter : Filter) (event : ServeEvent E) (s : S)
      → IsWellFormed storage crates codec disk faithful s
      → Handles filter event s
  unfolding serve_event Handles gossip get_message
  serve_event-Handles filter fetch_begins s w =
      let (ms, p, listed) = read_messages_total storage crates codec disk faithful s w in
      let q = read_state-eq storage crates codec disk faithful s w.state w.state_file in
      (s, rw (p, q) refl, same)
  serve_event-Handles filter (peer_answers height knowns peer) s w =
      fetch_from-Accepts storage crates codec disk faithful filter height knowns (peer ∷ []) s
  serve_event-Handles filter (gossip_arrives none) s w = (s, refl, same)
  serve_event-Handles filter (gossip_arrives (some raw)) s w =
      logged-Receives storage crates codec disk faithful filter s
        (receive storage crates codec filter raw)
        (receive-Receives storage crates codec disk faithful filter raw s)
  serve_event-Handles filter (peer_asks height knowns) s w =
      let (ms, p, listed) = read_messages_total storage crates codec disk faithful s w in
      let q = read_state-eq storage crates codec disk faithful s w.state w.state_file in
      elim (Bool-cases (height == w.state.height)) [
        | inl h ↦ (s, rw (p, q, h) refl, same)
        | inr h ↦ (s, rw (p, q, h) refl, same)
      ]
  serve_event-Handles filter broadcast_is_due s w =
      let (ms, p, listed) = read_messages_total storage crates codec disk faithful s w in
      (s, rw p refl, same)

  serve_events-Accepts :
      (filter : Filter) (events : List (ServeEvent E)) (s : S)
      → IsWellFormed storage crates codec disk faithful s
      → (t : S) × (serve_events storage crates codec filter events s ≡ returns (ok tt, t))
        × Accepts storage crates codec disk faithful filter s t
  unfolding serve_events Handles
  serve_events-Accepts filter [] s w = (s, refl, same)
  serve_events-Accepts filter (event ∷ events) s w =
      let (t, p, a) = serve_event-Handles filter event s w in
      let (u, q, b) =
        serve_events-Accepts filter events t
          (Accepts-IsWellFormed storage crates codec disk faithful a w) in
      (u, rw (p, q) refl, Accepts-trans storage crates codec disk faithful a b)

  -- On a disk that does not fail, the tasks of `serve` on a well-formed storage go on without an error
  -- through any interleaving of their events, whatever the peers send: the storage stays well formed, keeps
  -- every message that it held, and gains others only if they pass the filter. No two messages may have the
  -- same file name.
  pub serve_total :
      (filter : Filter) (events : List (ServeEvent E)) (s : S)
      → NoClash storage crates codec disk faithful
      → IsWellFormed storage crates codec disk faithful s
      → (t : S) × (serve_events storage crates codec filter events s ≡ returns (ok tt, t))
        × IsWellFormed storage crates codec disk faithful t
        × ((m : Message)
            → Holds storage crates codec disk faithful s m
            → Holds storage crates codec disk faithful t m)
        × ((m : Message)
            → Holds storage crates codec disk faithful t m
            → Holds storage crates codec disk faithful s m ⊎ (filter m ≡ none))
  serve_total filter events s clash w =
      let (t, e, a) = serve_events-Accepts filter events s w in
      (
        t,
        e,
        Accepts-IsWellFormed storage crates codec disk faithful a w,
        λ m h. Accepts-Holds storage crates codec disk faithful m clash a h,
        λ m h. Accepts-filtered storage crates codec disk faithful m clash a h,
      )

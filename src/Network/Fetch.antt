-- ===== src/Network/Fetch.antt =====
-- `fetch` and the gossip of network/src/dms.rs on a disk that does not fail: messages that are verified
-- and pass the filter are added, and nothing else changes.
use pdao_simperby.Prelude.{
  ◌≡◌, ◌⊎◌, inl, inr, refl, arith, none, List, [], ◌∷◌, returns, Option-cases, subst, map, Outcome,
  some,
}
use pdao_simperby.Results.{Result, ok, err, Result-cases}
use pdao_simperby.Results.Actions.{◌>>=◌, continue, Action}
use pdao_simperby.Common.Encoding.{Crates, verify_typed}
use pdao_simperby.Network.Storage.{Storage, IsReliable}
use pdao_simperby.Network.Message.{
  Message, RawMessage, Codec, file_name, into_message, new_message, Error, custom, state_file_path,
  message_hash, State,
}
use pdao_simperby.Network.MessageSet.{
  add_message_but_not_broadcast, receive, receive_all, Filter, logged, fetch, fetch_from,
  PeerAnswer, lift_result,
}
use pdao_simperby.Network.Contents.{IsFaithful, IsVerified, Holds, IsWellFormed, file_name-ne-lock}
use pdao_simperby.Network.Writes.{
  Accepts, with_message, same, stores, Accepts-trans, NoClash, Accepts-IsWellFormed, Accepts-Holds,
  Accepts-filtered,
}
use pdao_simperby.Common.Types.{BlockHeight}
use pdao_simperby.Common.Hash.{hash_bytes, Hash256}
use pdao_simperby.Network.Reading.{read_state}
use pdao_simperby.Network.Reads.{read_messages_total}

module _ {E S : Type 0} (storage : Storage E S) (crates : Crates) (codec : Codec)
    (disk : IsReliable storage) (faithful : IsFaithful codec) where
  -- The action ends, in a storage to which accepted messages were added.
  abbrev pub Receives : Filter → S → Outcome (Result (Error E) (Unit {0}) × S) → Type 0
  Receives filter s o =
      (r : Result (Error E) (Unit {0})) × (t : S) × (o ≡ returns (r, t))
      × Accepts storage crates codec disk faithful filter s t

  pub add_message_but_not_broadcast-eq :
      (m : Message) (s : S)
      → add_message_but_not_broadcast storage crates codec m s
        ≡ returns (ok tt, with_message storage crates codec disk faithful m s)
  unfolding add_message_but_not_broadcast
  add_message_but_not_broadcast-eq m s = ground (
    arith,
    disk.add-eq (file_name crates codec m) (codec.message_json m) s
        (file_name-ne-lock crates codec faithful m),
  )

  into_message-IsVerified :
      (raw : RawMessage) (m : Message)
      → into_message crates {E = E} raw ≡ ok m
      → IsVerified crates m
  unfolding into_message new_message
  into_message-IsVerified raw m h =
      elim (Option-cases (verify_typed crates raw.signature (hash_bytes crates.blake3 raw.text))) [
        | inl e ↦
            let made : Message = record { text = raw.text; signature = raw.signature } in
            let verified : IsVerified crates made = ground (arith, e) in
            subst (IsVerified crates) (ground (arith, e, h)) verified
        | inr (x, e) ↦ absurd (ground (arith, e, h))
      ]

  pub receive-Receives :
      (filter : Filter) (raw : RawMessage) (s : S)
      → Receives filter s (receive storage crates codec filter raw s)
  unfolding receive
  receive-Receives filter raw s = elim (Result-cases (into_message crates {E = E} raw)) [
    | inl (e, p) ↦ (err e, s, rw p refl, same)
    | inr (m, p) ↦ elim (Option-cases (filter m)) [
      | inl q ↦ (
        ok tt,
        with_message storage crates codec disk faithful m s,
        rw (p, q) (add_message_but_not_broadcast-eq m s),
        stores m same (into_message-IsVerified raw m p) q refl,
      )
      | inr (x, q) ↦ (err (custom x), s, rw (p, q) refl, same)
    ]
  ]

  -- One action after another.
  Receives-continue :
      (filter : Filter) (s t : S) (r : Result (Error E) (Unit {0}))
      (o : Outcome (Result (Error E) (Unit {0}) × S)) (k : Action (Error E) S (Unit {0}))
      → o ≡ returns (r, t)
      → Accepts storage crates codec disk faithful filter s t
      → Receives filter t (k t)
      → Receives filter s (continue o (λ _. k))
  Receives-continue filter s t (ok x) o k p a (r, u, q, b) =
      (r, u, rw p q, Accepts-trans storage crates codec disk faithful a b)
  Receives-continue filter s t (err e) o k p a h = (err e, t, rw p refl, a)

  receive_all-Receives :
      (filter : Filter) (raws : List RawMessage) (s : S)
      → Receives filter s (receive_all storage crates codec filter raws s)
  unfolding receive_all
  receive_all-Receives filter [] s = (ok tt, s, refl, same)
  receive_all-Receives filter (raw ∷ raws) s =
      let (r, t, p, a) = receive-Receives filter raw s in
      Receives-continue filter s t r (receive storage crates codec filter raw s)
        (receive_all storage crates codec filter raws) p a (receive_all-Receives filter raws t)

  pub logged-Receives :
      (filter : Filter) (s : S) (m : Action (Error E) S (Unit {0}))
      → Receives filter s (m s)
      → (t : S) × (logged m s ≡ returns (ok tt, t))
        × Accepts storage crates codec disk faithful filter s t
  logged-Receives filter s m (r, t, p, a) = (t, rw p refl, a)

  -- The task of one peer.
  task_of : Filter → BlockHeight → List Hash256 → PeerAnswer E → Action (Error E) S (Unit {0})
  task_of filter height knowns peer = do
    raws ← lift_result (peer height knowns)
    receive_all storage crates codec filter raws

  task_of-Receives :
      (filter : Filter) (height : BlockHeight) (knowns : List Hash256) (peer : PeerAnswer E) (s : S)
      → Receives filter s (task_of filter height knowns peer s)
  unfolding task_of
  task_of-Receives filter height knowns peer s = elim (Result-cases (peer height knowns)) [
    | inl (e, p) ↦ (err e, s, rw p refl, same)
    | inr (raws, p) ↦ let (r, t, q, a) = receive_all-Receives filter raws s in (r, t, rw p q, a)
  ]

  -- `fetch_from` always ends with `Ok`.
  pub fetch_from-Accepts :
      (filter : Filter) (height : BlockHeight) (knowns : List Hash256) (peers : List (PeerAnswer E))
      (s : S)
      → (t : S) × (fetch_from storage crates codec filter height knowns peers s
          ≡ returns (ok tt, t))
        × Accepts storage crates codec disk faithful filter s t
  unfolding fetch_from task_of
  fetch_from-Accepts filter height knowns [] s = (s, refl, same)
  fetch_from-Accepts filter height knowns (peer ∷ peers) s =
      let (t, p, a) =
        logged-Receives filter s (task_of filter height knowns peer)
          (task_of-Receives filter height knowns peer s) in
      let (u, q, b) = fetch_from-Accepts filter height knowns peers t in
      (u, rw p q, Accepts-trans storage crates codec disk faithful a b)

  pub read_state-eq :
      (s : S) (st : State)
      → disk.view s state_file_path ≡ some (codec.state_json st)
      → read_state storage crates codec s ≡ returns (ok st)
  unfolding read_state
  read_state-eq s st e =
      rw (disk.read_file-eq state_file_path (codec.state_json st) s e, faithful.parse_state-json st)
        refl

  -- On a disk that does not fail, `fetch` from a well-formed storage ends with `Ok` whatever the peers
  -- answer; the storage is well formed after it, keeps every message that it held, and holds others
  -- only if they pass the filter. No two messages may have the same file name.
  pub fetch_total :
      (filter : Filter) (peers : List (PeerAnswer E)) (s : S)
      → NoClash storage crates codec disk faithful
      → IsWellFormed storage crates codec disk faithful s
      → (t : S) × (fetch storage crates codec filter peers s ≡ returns (ok tt, t))
        × IsWellFormed storage crates codec disk faithful t
        × ((m : Message)
            → Holds storage crates codec disk faithful s m
            → Holds storage crates codec disk faithful t m)
        × ((m : Message)
            → Holds storage crates codec disk faithful t m
            → Holds storage crates codec disk faithful s m ⊎ (filter m ≡ none))
  unfolding fetch
  fetch_total filter peers s clash w =
      let (ms, p, listed) = read_messages_total storage crates codec disk faithful s w in
      let st = w.state in
      let q = read_state-eq s st w.state_file in
      let (t, e, a) =
        fetch_from-Accepts filter st.height (map (message_hash crates codec) ms) peers s in
      (
        t,
        rw (p, q) e,
        Accepts-IsWellFormed storage crates codec disk faithful a w,
        λ m h. Accepts-Holds storage crates codec disk faithful m clash a h,
        λ m h. Accepts-filtered storage crates codec disk faithful m clash a h,
      )

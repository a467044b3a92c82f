-- ===== src/Network/Sync.antt =====
-- Two nodes at one height: after a `fetch` from the other, a node holds what both held.
use pdao_simperby.Prelude.{
  ◌≡◌, ◌⊎◌, inl, inr, refl, arith, List, [], ◌∷◌, true, returns, map, subst, ◌==◌,
}
use pdao_simperby.Results.{ok}
use pdao_simperby.Results.Actions.{◌>>=◌}
use pdao_simperby.Common.Encoding.{Crates}
use pdao_simperby.Network.Storage.{Storage, IsReliable}
use pdao_simperby.Network.Message.{Message, Codec, State, message_hash, RawMessage}
use pdao_simperby.Network.Reading.{get_message, read_messages, read_state, unknown_messages}
use pdao_simperby.Network.MessageSet.{receive_all, fetch, fetch_from, dummy_filter, PeerAnswer}
use pdao_simperby.Network.Contents.{IsFaithful, IsVerified, Holds, IsWellFormed}
use pdao_simperby.Network.Writes.{NoClash, Accepts-Holds}
use pdao_simperby.Network.Peers.{
  answers, receive_all-stores, unknown_messages_from, unknown_messages-Elem, has_hash-map,
}
use pdao_simperby.Common.Types.{BlockHeight}
use pdao_simperby.Network.Reads.{read_messages_total}
use pdao_simperby.Common.Hash.{Hash256}

module _ {E S : Type 0} (storage : Storage E S) (crates : Crates) (codec : Codec)
    (disk : IsReliable storage) (faithful : IsFaithful codec) where
  get_message-eq :
      (h : BlockHeight) (ks : List Hash256) (u : S) (ms : List Message) (b : State)
      → read_messages storage crates codec u ≡ returns (ok ms)
      → read_state storage crates codec u ≡ returns (ok b)
      → h ≡ b.height
      → get_message storage crates codec h ks u
        ≡ returns (ok (unknown_messages storage crates codec ks ms))
  unfolding get_message
  get_message-eq h ks u ms b p q e =
      let same : (h == b.height) ≡ true = ground arith in rw (p, ◌>>=◌, q, same) refl

  answers-eq :
      (h : BlockHeight) (ks : List Hash256) (u : S) (ms : List Message) (b : State)
      → read_messages storage crates codec u ≡ returns (ok ms)
      → read_state storage crates codec u ≡ returns (ok b)
      → h ≡ b.height
      → answers storage crates codec disk faithful u h ks
        ≡ ok (unknown_messages storage crates codec ks ms)
  unfolding answers
  answers-eq h ks u ms b p q e = rw (get_message-eq h ks u ms b p q e, answers) refl

  fetch_from-one :
      (h : BlockHeight) (ks : List Hash256) (peer : PeerAnswer E) (raws : List RawMessage) (s t : S)
      → peer h ks ≡ ok raws
      → receive_all storage crates codec dummy_filter raws s ≡ returns (ok tt, t)
      → fetch_from storage crates codec dummy_filter h ks (peer ∷ []) s ≡ returns (ok tt, t)
  unfolding fetch_from
  fetch_from-one h ks peer raws s t e k = rw (e, k) refl

  fetch-eq :
      (s t u : S) (ms ns : List Message) (a b : State)
      → read_messages storage crates codec s ≡ returns (ok ms)
      → read_state storage crates codec s ≡ returns (ok a)
      → read_messages storage crates codec u ≡ returns (ok ns)
      → read_state storage crates codec u ≡ returns (ok b)
      → a.height ≡ b.height
      → receive_all storage crates codec dummy_filter
          (unknown_messages storage crates codec (map (message_hash crates codec) ms) ns)
          s
        ≡ returns (ok tt, t)
      → fetch storage crates codec dummy_filter
          (answers storage crates codec disk faithful u ∷ [])
          s
        ≡ returns (ok tt, t)
  unfolding fetch
  fetch-eq s t u ms ns a b p q p' q' e k =
      let knowns = map (message_hash crates codec) ms in
      rw (p, q)
        (fetch_from-one a.height knowns (answers storage crates codec disk faithful u)
          (unknown_messages storage crates codec knowns ns) s t
          (answers-eq a.height knowns u ns b p' q' e) k)

  -- On disks that do not fail, and over a network that does not, a node with a well-formed storage
  -- that fetches from a peer with a well-formed storage at the same height ends with `Ok`, and holds
  -- every verified message that it or the peer held. It has no filter of its own, and no two
  -- messages may have the same file name.
  pub fetch_merges :
      (s u : S) (a b : State)
      → NoClash storage crates codec disk faithful
      → IsWellFormed storage crates codec disk faithful s
      → IsWellFormed storage crates codec disk faithful u
      → read_state storage crates codec s ≡ returns (ok a)
      → read_state storage crates codec u ≡ returns (ok b)
      → a.height ≡ b.height
      → (t : S) × (fetch storage crates codec dummy_filter
            (answers storage crates codec disk faithful u ∷ [])
            s
          ≡ returns (ok tt, t))
        × ((m : Message)
            → IsVerified crates m
            → Holds storage crates codec disk faithful s m
              ⊎ Holds storage crates codec disk faithful u m
            → Holds storage crates codec disk faithful t m)
  fetch_merges s u a b clash w w' q q' e =
      let (ms, p, listed) = read_messages_total storage crates codec disk faithful s w in
      let (ns, p', listed') = read_messages_total storage crates codec disk faithful u w' in
      let knowns = map (message_hash crates codec) ms in
      let (t, run, grown, stored) =
        receive_all-stores storage crates codec disk faithful
          (unknown_messages storage crates codec knowns ns) s clash
          (λ raw i.
            let (m, k, from) =
              unknown_messages_from storage crates codec disk faithful knowns raw ns i in
            (m, ((listed' m).0 k).0, from)) in
      let keeps = λ (m : Message) (h : Holds storage crates codec disk faithful s m).
        Accepts-Holds storage crates codec disk faithful m clash grown h in
      (
        t,
        fetch-eq s t u ms ns a b p q p' q' e run,
        λ m v h. elim h [
          | inl h ↦ keeps m h
          | inr h ↦
              elim (unknown_messages-Elem storage crates codec disk faithful knowns m ns
                ((listed' m).1 (v, h))) [
                  | inl i ↦ stored m i
                  | inr known ↦
                      let (n, i, f) = has_hash-map storage crates codec disk faithful m ms known in
                      keeps m (
                        subst (Holds storage crates codec disk faithful s) (clash n m f)
                          ((listed n).0 i).1)
                ]
        ],
      )

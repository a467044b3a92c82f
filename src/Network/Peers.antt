-- ===== src/Network/Peers.antt =====
-- `fetch` and `get_message` of network/src/dms.rs together: what one node learns from another.
use pdao_simperby.Prelude.{
  ◌≡◌, ◌⊎◌, inl, inr, refl, arith, List, [], ◌∷◌, true, false, returns, panics, Bool-cases, Elem,
  here, there, map, sym, ap, subst, not-Elem-nil, ◌++◌, ◌∙◌,
}
use pdao_simperby.Results.{ok, err}
use pdao_simperby.Common.Encoding.{Crates}
use pdao_simperby.Network.Storage.{Storage, IsReliable}
use pdao_simperby.Network.Message.{
  Message, RawMessage, Codec, file_name, from_message, message_hash, custom, json_suffix,
}
use pdao_simperby.Network.Reading.{get_message, unknown_messages, has_hash}
use pdao_simperby.Network.MessageSet.{receive, receive_all, dummy_filter, PeerAnswer}
use pdao_simperby.Network.Contents.{IsFaithful, IsVerified, Holds}
use pdao_simperby.Network.Writes.{
  Accepts, same, stores, with_message, NoClash, Accepts-trans, Accepts-Holds, Holds-with_message,
}
use pdao_simperby.Common.Hash.{Hash256, hash_eq, eq_of_hash_eq}
use pdao_simperby.Network.Reads.{into_message-ok}
use pdao_simperby.Network.Fetch.{add_message_but_not_broadcast-eq}

module _ {E S : Type 0} (storage : Storage E S) (crates : Crates) (codec : Codec)
    (disk : IsReliable storage) (faithful : IsFaithful codec) where
  -- A node that answers over a network that does not fail.
  unfoldable pub answers : S → PeerAnswer E
  answers s height knowns = elim (get_message storage crates codec height knowns s) [
    | returns r ↦ r
    | panics ↦ err (custom "connection closed")
  ]

  unknown_messages-known :
      (knowns : List Hash256) (n : Message) (ms : List Message)
      → has_hash (message_hash crates codec n) knowns ≡ true
      → unknown_messages storage crates codec knowns (n ∷ ms)
        ≡ unknown_messages storage crates codec knowns ms
  unfolding unknown_messages
  unknown_messages-known knowns n ms e = rw e

  unknown_messages-new :
      (knowns : List Hash256) (n : Message) (ms : List Message)
      → has_hash (message_hash crates codec n) knowns ≡ false
      → unknown_messages storage crates codec knowns (n ∷ ms)
        ≡ from_message n ∷ unknown_messages storage crates codec knowns ms
  unfolding unknown_messages
  unknown_messages-new knowns n ms e = rw e

  pub unknown_messages-Elem :
      (knowns : List Hash256) (m : Message) (ms : List Message)
      → Elem m ms
      → Elem (from_message m) (unknown_messages storage crates codec knowns ms)
        ⊎ (has_hash (message_hash crates codec m) knowns ≡ true)
  unknown_messages-Elem knowns m [] k = absurd (not-Elem-nil k)
  unknown_messages-Elem knowns m (n ∷ ms) k =
      elim (Bool-cases (has_hash (message_hash crates codec n) knowns)) [
        | inl e ↦ elim k [
          | here i ↦
              inr (subst (λ x. has_hash (message_hash crates codec x) knowns ≡ true) (sym i) e)
          | there i ↦
              subst
                (λ raws.
                  Elem (from_message m) raws
                  ⊎ (has_hash (message_hash crates codec m) knowns ≡ true))
                (sym (unknown_messages-known knowns n ms e)) (unknown_messages-Elem knowns m ms i)
        ]
        | inr e ↦
            subst
              (λ raws.
                Elem (from_message m) raws ⊎ (has_hash (message_hash crates codec m) knowns ≡ true))
              (sym (unknown_messages-new knowns n ms e))
              (elim k [
                | here i ↦ inl (here (ap from_message i))
                | there i ↦ elim (unknown_messages-Elem knowns m ms i) [
                  | inl a ↦ inl (there a)
                  | inr a ↦ inr a
                ]
              ])
      ]

  pub unknown_messages_from :
      (knowns : List Hash256) (raw : RawMessage) (ms : List Message)
      → Elem raw (unknown_messages storage crates codec knowns ms)
      → (m : Message) × Elem m ms × (raw ≡ from_message m)
  unfolding unknown_messages
  unknown_messages_from knowns raw [] k = absurd (not-Elem-nil k)
  unknown_messages_from knowns raw (n ∷ ms) k =
      elim (Bool-cases (has_hash (message_hash crates codec n) knowns)) [
        | inl e ↦
            let i = subst (Elem raw) (unknown_messages-known knowns n ms e) k in
            let (m, a, b) = unknown_messages_from knowns raw ms i in (m, there a, b)
        | inr e ↦ elim (subst (Elem raw) (unknown_messages-new knowns n ms e) k) [
          | here i ↦ (n, here refl, i)
          | there i ↦ let (m, a, b) = unknown_messages_from knowns raw ms i in (m, there a, b)
        ]
      ]

  pub has_hash-map :
      (m : Message) (ms : List Message)
      → has_hash (message_hash crates codec m) (map (message_hash crates codec) ms) ≡ true
      → (n : Message) × Elem n ms × (file_name crates codec n ≡ file_name crates codec m)
  unfolding has_hash file_name
  has_hash-map m [] h = absurd (ground arith)
  has_hash-map m (n ∷ ms) h =
      elim (Bool-cases (hash_eq (message_hash crates codec n) (message_hash crates codec m))) [
        | inl e ↦ (
          n,
          here refl,
          ap (λ (h : Hash256). codec.hex h.hash ++ json_suffix)
              (eq_of_hash_eq (message_hash crates codec n) (message_hash crates codec m) e),
        )
        | inr e ↦ let (k, i, f) = has_hash-map m ms (ground arith) in (k, there i, f)
      ]

  receive-stores :
      (m : Message) (s : S)
      → IsVerified crates m
      → receive storage crates codec dummy_filter (from_message m) s
        ≡ returns (ok tt, with_message storage crates codec disk faithful m s)
  unfolding receive dummy_filter
  receive-stores m s v =
      rw (into_message-ok storage crates codec disk faithful m v)
        (add_message_but_not_broadcast-eq storage crates codec disk faithful m s)

  receive_all-cons :
      (m : Message) (raw : RawMessage) (raws : List RawMessage) (s t : S)
      → IsVerified crates m
      → raw ≡ from_message m
      → receive_all storage crates codec dummy_filter raws
          (with_message storage crates codec disk faithful m s)
        ≡ returns (ok tt, t)
      → receive_all storage crates codec dummy_filter (raw ∷ raws) s ≡ returns (ok tt, t)
  unfolding receive_all
  receive_all-cons m raw raws s t v e p = rw (e, receive-stores m s v) p

  from_message-injective : (m n : Message) → from_message m ≡ from_message n → m ≡ n
  unfolding from_message
  from_message-injective m n e = cc

  first_stored :
      (m : Message) (s : S)
      → IsVerified crates m
      → Accepts storage crates codec disk faithful dummy_filter s
          (with_message storage crates codec disk faithful m s)
  unfolding dummy_filter
  first_stored m s v = stores m same v refl refl

  pub receive_all-stores :
      (raws : List RawMessage) (s : S)
      → NoClash storage crates codec disk faithful
      → ((raw : RawMessage)
          → Elem raw raws
          → (m : Message) × IsVerified crates m × (raw ≡ from_message m))
      → (t : S) × (receive_all storage crates codec dummy_filter raws s ≡ returns (ok tt, t))
        × Accepts storage crates codec disk faithful dummy_filter s t
        × ((m : Message)
            → Elem (from_message m) raws
            → Holds storage crates codec disk faithful t m)
  unfolding receive_all
  receive_all-stores [] s clash h = (s, refl, same, λ m k. absurd (not-Elem-nil k))
  receive_all-stores (raw ∷ raws) s clash h =
      let (m, v, e) = h raw (here refl) in
      let (t, p, a, k) =
        receive_all-stores raws (with_message storage crates codec disk faithful m s) clash
          (λ r i. h r (there i)) in
      (
        t,
        receive_all-cons m raw raws s t v e p,
        Accepts-trans storage crates codec disk faithful (first_stored m s v) a,
        λ n i. elim i [
          | here e' ↦
              subst (Holds storage crates codec disk faithful t)
                (sym (from_message-injective n m (e' ∙ e)))
                (Accepts-Holds storage crates codec disk faithful m clash a
                  (Holds-with_message storage crates codec disk faithful m s))
          | there i' ↦ k n i'
        ],
      )

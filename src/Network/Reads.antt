-- ===== src/Network/Reads.antt =====
-- `read_messages` of network/src/dms.rs on a well-formed storage.
use pdao_simperby.Prelude.{
  ◌≡◌, inl, inr, refl, arith, some, List, [], ◌∷◌, Elem, here, there, ap, not-Elem-nil, subst, sym,
  ◌∙◌, ◌↔◌, returns, ◌>>=◌,
}
use pdao_simperby.Results.{ok, traverse, traverse-cons, call_map_err}
use pdao_simperby.Common.Bytes.{Bytes}
use pdao_simperby.Common.Encoding.{Crates}
use pdao_simperby.Network.Storage.{Storage, IsReliable, readable}
use pdao_simperby.Network.Message.{
  Message, RawMessage, Codec, from_message, file_name, into_message,
}
use pdao_simperby.Network.Reading.{read_entry, parse_entry, but_state, read_messages}
use pdao_simperby.Network.Entries.{
  IsRead, IsRead-all, but_state-state, but_state-other, names_view, has_name-view,
}
use pdao_simperby.Network.Contents.{IsFaithful, IsVerified, Holds, IsWellFormed, file_name-ne-state}

module _ {E S : Type 0} (storage : Storage E S) (crates : Crates) (codec : Codec)
    (disk : IsReliable storage) (faithful : IsFaithful codec) where
  -- A message is what its text parses to.
  Message-of_json : (m n : Message) → codec.message_json m ≡ codec.message_json n → m ≡ n
  unfolding from_message
  Message-of_json m n e =
      ground (arith, faithful.parse_message-json m, faithful.parse_message-json n, e)

  parse_entry-ok :
      (m : Message) (c : Bytes)
      → c ≡ codec.message_json m
      → parse_entry storage crates codec c ≡ ok (from_message m)
  unfolding parse_entry
  parse_entry-ok m c e = ground (arith, faithful.parse_message-json m)

  pub into_message-ok :
      (m : Message) → IsVerified crates m → into_message crates {E = E} (from_message m) ≡ ok m
  unfolding into_message from_message
  into_message-ok m v = ground (arith, v)

  -- What is parsed and verified of the entries.
  IsParsed : S → List (Bytes × Bytes) → List Message → Type 0
  IsParsed s es ms =
      (raws : List RawMessage) × (traverse (parse_entry storage crates codec) (but_state es)
        ≡ ok raws)
      × (traverse (into_message crates {E = E}) raws ≡ ok ms)
      × ((m : Message)
          → Elem m ms
          → IsVerified crates m × Holds storage crates codec disk faithful s m)
      × ((m : Message) → Elem (file_name crates codec m, codec.message_json m) es → Elem m ms)

  Holds-at :
      (s : S) (f c : Bytes) (m : Message)
      → f ≡ file_name crates codec m
      → c ≡ codec.message_json m
      → disk.view s f ≡ some c
      → Holds storage crates codec disk faithful s m
  Holds-at s f c m name content v = cc

  parse_all :
      (s : S) (es : List (Bytes × Bytes))
      → IsWellFormed storage crates codec disk faithful s
      → ((f c : Bytes) → Elem (f, c) es → disk.view s f ≡ some c)
      → (ms : List Message) × IsParsed s es ms
  unfolding traverse IsParsed but_state
  parse_all s [] w h =
      ([], ([], refl, refl, λ m k. absurd (not-Elem-nil k), λ m k. absurd (not-Elem-nil k)))
  parse_all s ((f, c) ∷ es) w h =
      let (ms, (raws, p, q, sound, complete)) = parse_all s es w (λ g d m. h g d (there m)) in
      elim (w.messages f c (h f c (here refl))) [
        | inl e ↦ (
          ms,
          (
            raws,
            subst (λ cs. traverse (parse_entry storage crates codec) cs ≡ ok raws)
                (sym (but_state-state storage crates codec (readable storage disk) f c es e)) p,
            q,
            sound,
            λ n k. elim k [
              | here e' ↦ absurd (
                  file_name-ne-state crates codec faithful n
                    (ap (λ (x : Bytes × Bytes). x.0) e' ∙ e))
              | there k' ↦ complete n k'
            ],
          ),
        )
        | inr (m, v, name, content) ↦ (
          m ∷ ms,
          (
            from_message m ∷ raws,
            (subst
                (λ cs. traverse (parse_entry storage crates codec) cs ≡ ok (from_message m ∷ raws))
                (sym (
                  but_state-other storage crates codec (readable storage disk) f c es
                    (λ e. file_name-ne-state crates codec faithful m (sym name ∙ e))))
                (traverse-cons (parse_entry storage crates codec) c (but_state es)
                  (parse_entry-ok m c content) p)),
            ground (arith, into_message-ok m v, q),
            (λ n k. elim k [
              | here e' ↦
                  subst (λ x. IsVerified crates x × Holds storage crates codec disk faithful s x)
                    (sym e') (v, Holds-at s f c m name content (h f c (here refl)))
              | there k' ↦ sound n k'
            ]),
            (λ n k. elim k [
              | here e' ↦ here (Message-of_json n m (ap (λ (x : Bytes × Bytes). x.1) e' ∙ content))
              | there k' ↦ there (complete n k')
            ]),
          ),
        )
      ]

  -- The list has the verified messages that the set holds, and no others.
  abbrev pub IsListed : S → List Message → Type 0
  IsListed s ms =
      (m : Message)
      → (Elem m ms ↔ (IsVerified crates m × Holds storage crates codec disk faithful s m))

  read_messages-eq :
      (s : S) (fs : List Bytes) (es : List (Bytes × Bytes)) (raws : List RawMessage)
      (ms : List Message)
      → storage.list_files s ≡ returns (ok fs)
      → traverse (read_entry storage crates codec s) fs ≡ ok es
      → traverse (parse_entry storage crates codec) (but_state es) ≡ ok raws
      → traverse (into_message crates {E = E}) raws ≡ ok ms
      → read_messages storage crates codec s ≡ returns (ok ms)
  unfolding read_messages
  read_messages-eq s fs es raws ms a t p q = rw (a, ◌>>=◌, call_map_err, t, p, q) refl

  -- On a disk that does not fail, `read_messages` of a well-formed storage returns a list, and the list
  -- has just the messages that are verified and stored.
  pub read_messages_total :
      (s : S)
      → IsWellFormed storage crates codec disk faithful s
      → (ms : List Message) × (read_messages storage crates codec s ≡ returns (ok ms))
        × IsListed s ms
  unfolding read_messages IsRead IsParsed
  read_messages_total s w =
      let (es, (t, sound, complete)) =
        IsRead-all storage crates codec (readable storage disk) s (disk.names s)
          (names_view storage crates codec (readable storage disk) s) in
      let (ms, (raws, p, q, below, above)) = parse_all s es w sound in
      (
        ms,
        read_messages-eq s (disk.names s) es raws ms (disk.list_files-eq s) t p q,
        λ m. (
          below m,
          λ (v, h). above m (
              complete (file_name crates codec m) (codec.message_json m)
                (has_name-view storage crates codec (readable storage disk) s
                  (file_name crates codec m) (codec.message_json m) h)
                h),
        ),
      )

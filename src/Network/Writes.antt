-- ===== src/Network/Writes.antt =====
-- What the writes of network/src/dms.rs do to a well-formed storage: the messages only grow.
use pdao_simperby.Prelude.{
  ◌≡◌, ◌≢◌, ◌⊎◌, inl, inr, arith, none, some, Bool-cases, sym, ◌∙◌, subst, if◌then◌else◌,
}
use pdao_simperby.Common.Bytes.{Bytes, bytes_eq, bytes_eq_refl, eq_of_bytes_eq}
use pdao_simperby.Common.Encoding.{Crates}
use pdao_simperby.Network.Storage.{Storage, IsReliable}
use pdao_simperby.Network.Message.{Message, Codec, file_name, state_file_path}
use pdao_simperby.Network.MessageSet.{Filter}
use pdao_simperby.Network.Contents.{
  IsFaithful, IsVerified, Holds, IsWellFormed, file_name-ne-state, file_name-ne-lock,
}

module _ {E S : Type 0} (storage : Storage E S) (crates : Crates) (codec : Codec)
    (disk : IsReliable storage) (faithful : IsFaithful codec) where
  -- The storage after a message is added.
  abbrev pub with_message : Message → S → S
  with_message m s = disk.put (file_name crates codec m) (codec.message_json m) s

  -- Storages that come about by storing messages that are verified and pass the filter.
  pub data Accepts (filter : Filter) (s : S) : S → Type 0 where
    same : Accepts filter s s
    stores :
        {t u : S} (m : Message)
        → Accepts filter s t
        → IsVerified crates m
        → filter m ≡ none
        → u ≡ with_message m t
        → Accepts filter s u

  pub Accepts-trans :
      {filter : Filter} {s t u : S} → Accepts filter s t → Accepts filter t u → Accepts filter s u
  Accepts-trans a same = a
  Accepts-trans a (stores m b v f e) = stores m (Accepts-trans a b) v f e

  view-with_message :
      (m : Message) (f : Bytes) (s : S)
      → disk.view (with_message m s) f ≡ (
          if bytes_eq (file_name crates codec m) f
          then some (codec.message_json m)
          else disk.view s f)
  view-with_message m f s =
      disk.view-put (file_name crates codec m) (codec.message_json m) f s
        (file_name-ne-lock crates codec faithful m)

  -- Another file is left alone.
  view-other :
      (m : Message) (f : Bytes) (s : S)
      → file_name crates codec m ≢ f
      → disk.view (with_message m s) f ≡ disk.view s f
  view-other m f s n = elim (Bool-cases (bytes_eq (file_name crates codec m) f)) [
    | inl e ↦ absurd (n (eq_of_bytes_eq (file_name crates codec m) f e))
    | inr e ↦ ground (arith, view-with_message m f s, e)
  ]

  pub Holds-with_message :
      (m : Message) (s : S) → Holds storage crates codec disk faithful (with_message m s) m
  Holds-with_message m s = ground (
    arith,
    view-with_message m (file_name crates codec m) s,
    bytes_eq_refl (file_name crates codec m),
  )

  pub with_message-IsWellFormed :
      (m : Message) (s : S)
      → IsVerified crates m
      → IsWellFormed storage crates codec disk faithful s
      → IsWellFormed storage crates codec disk faithful (with_message m s)
  with_message-IsWellFormed m s v w = record {
    messages = λ f c h. elim (Bool-cases (bytes_eq (file_name crates codec m) f)) [
      | inl e ↦ inr (
        m,
        v,
        sym (eq_of_bytes_eq (file_name crates codec m) f e),
        ground (arith, view-with_message m f s, h, e),
      )
      | inr e ↦ w.messages f c (ground (arith, view-with_message m f s, h, e))
    ];
    state = w.state;
    state_file =
        view-other m state_file_path s (file_name-ne-state crates codec faithful m) ∙ w.state_file;
  }

  pub Accepts-IsWellFormed :
      {filter : Filter} {s t : S}
      → Accepts filter s t
      → IsWellFormed storage crates codec disk faithful s
      → IsWellFormed storage crates codec disk faithful t
  Accepts-IsWellFormed same w = w
  Accepts-IsWellFormed (stores {t} m a v f e) w =
      subst (IsWellFormed storage crates codec disk faithful) (sym e)
        (with_message-IsWellFormed m t v (Accepts-IsWellFormed a w))

  -- No two messages have one file name: their hashes do not collide.
  abbrev pub NoClash : Type 0
  NoClash = (m n : Message) → file_name crates codec m ≡ file_name crates codec n → m ≡ n

  pub Holds-with_message_mono :
      (m n : Message) (s : S)
      → (file_name crates codec m ≡ file_name crates codec n → m ≡ n)
      → Holds storage crates codec disk faithful s n
      → Holds storage crates codec disk faithful (with_message m s) n
  Holds-with_message_mono m n s clash h =
      elim (Bool-cases (bytes_eq (file_name crates codec m) (file_name crates codec n))) [
        | inl e ↦
            subst (Holds storage crates codec disk faithful (with_message m s))
              (clash (eq_of_bytes_eq (file_name crates codec m) (file_name crates codec n) e))
              (Holds-with_message m s)
        | inr e ↦ ground (arith, view-with_message m (file_name crates codec n) s, e, h)
      ]

  -- What is held stays held.
  pub Accepts-Holds :
      {filter : Filter} {s t : S} (n : Message)
      → NoClash
      → Accepts filter s t
      → Holds storage crates codec disk faithful s n
      → Holds storage crates codec disk faithful t n
  Accepts-Holds n clash same h = h
  Accepts-Holds n clash (stores {t} m a v f e) h =
      subst (λ u. Holds storage crates codec disk faithful u n) (sym e)
        (Holds-with_message_mono m n t (clash m n) (Accepts-Holds n clash a h))

  -- What is held later was held before, or passed the filter.
  pub Accepts-filtered :
      {filter : Filter} {s t : S} (n : Message)
      → NoClash
      → Accepts filter s t
      → Holds storage crates codec disk faithful t n
      → Holds storage crates codec disk faithful s n ⊎ (filter n ≡ none)
  Accepts-filtered n clash same h = inl h
  Accepts-filtered {filter} n clash (stores {t} m a v f e) h =
      elim (Bool-cases (bytes_eq (file_name crates codec m) (file_name crates codec n))) [
        | inl k ↦ inr (
            subst (λ x. filter x ≡ none)
              (clash m n (eq_of_bytes_eq (file_name crates codec m) (file_name crates codec n) k))
              f)
        | inr k ↦ Accepts-filtered n clash a (
            ground (
              arith,
              view-with_message m (file_name crates codec n) t,
              k,
              subst (λ x. Holds storage crates codec disk faithful x n) e h,
            ))
      ]

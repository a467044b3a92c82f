-- ===== src/Network/Heights.antt =====
-- `create` and `advance` of network/src/dms.rs: a new height begins with an empty set.
use pdao_simperby.Prelude.{
  ◌≡◌, ◌≢◌, inl, inr, arith, none, some, returns, Bool-cases, add64, if◌then◌else◌, sym, ap, length,
}
use pdao_simperby.Results.{ok}
use pdao_simperby.Common.Encoding.{Crates}
use pdao_simperby.Network.Storage.{Storage, IsReliable, lock_file}
use pdao_simperby.Network.Message.{Message, Codec, file_name, State, state_file_path}
use pdao_simperby.Network.MessageSet.{create, advance, write_state}
use pdao_simperby.Network.Contents.{IsFaithful, Holds, IsWellFormed, file_name-ne-state}
use pdao_simperby.Network.Fetch.{read_state-eq}
use pdao_simperby.Common.Bytes.{Bytes, bytes_eq, eq_of_bytes_eq, bytes_eq_refl}
use pdao_simperby.Common.Types.{BlockHeight}
use pdao_simperby.Network.Reading.{read_state}

state_file-ne-lock : state_file_path ≢ lock_file
state_file-ne-lock h = absurd (omega (arith, ap length h))

module _ {E S : Type 0} (storage : Storage E S) (crates : Crates) (codec : Codec)
    (disk : IsReliable storage) (faithful : IsFaithful codec) where
  -- An empty set with the state.
  abbrev fresh : State → S → S
  fresh st s = disk.put state_file_path (codec.state_json st) (disk.clear s)

  fresh_view :
      (st : State) (f : Bytes) (s : S)
      → disk.view (fresh st s) f
        ≡ (if bytes_eq state_file_path f then some (codec.state_json st) else none)
  fresh_view st f s = ground (
    arith,
    disk.view-put state_file_path (codec.state_json st) f (disk.clear s) state_file-ne-lock,
    disk.view-clear f s,
  )

  fresh_state :
      (st : State) (s : S) → disk.view (fresh st s) state_file_path ≡ some (codec.state_json st)
  fresh_state st s = ground (arith, fresh_view st state_file_path s, bytes_eq_refl state_file_path)

  fresh-IsWellFormed :
      (st : State) (s : S) → IsWellFormed storage crates codec disk faithful (fresh st s)
  fresh-IsWellFormed st s = record {
    messages = λ f c h. elim (Bool-cases (bytes_eq state_file_path f)) [
      | inl e ↦ inl (sym (eq_of_bytes_eq state_file_path f e))
      | inr e ↦ absurd (ground (arith, fresh_view st f s, e, h))
    ];
    state = st;
    state_file = fresh_state st s;
  }

  fresh-Holds_none :
      (st : State) (s : S) (m : Message)
      → Holds storage crates codec disk faithful (fresh st s) m
      → ⊥
  fresh-Holds_none st s m h =
      elim (Bool-cases (bytes_eq state_file_path (file_name crates codec m))) [
        | inl e ↦
            file_name-ne-state crates codec faithful m
              (sym (eq_of_bytes_eq state_file_path (file_name crates codec m) e))
        | inr e ↦ ground (arith, fresh_view st (file_name crates codec m) s, e, h)
      ]

  write_fresh :
      (st : State) (s : S)
      → write_state storage crates codec st (disk.clear s) ≡ returns (ok tt, fresh st s)
  unfolding write_state
  write_fresh st s =
      ground
        (arith, disk.add-eq state_file_path (codec.state_json st) (disk.clear s) state_file-ne-lock)

  -- An empty set at the height, with the key.
  pub IsNew : BlockHeight → Bytes → S → Type 0
  IsNew h key t =
      IsWellFormed storage crates codec disk faithful t
      × (read_state storage crates codec t ≡ returns (ok (record { height = h; key = key })))
      × ((m : Message) → Holds storage crates codec disk faithful t m → ⊥)

  fresh-IsNew : (st : State) (s : S) → IsNew st.height st.key (fresh st s)
  unfolding IsNew
  fresh-IsNew st s = (
    fresh-IsWellFormed st s,
    read_state-eq storage crates codec disk faithful (fresh st s) st (fresh_state st s),
    fresh-Holds_none st s,
  )

  -- On a disk that does not fail, `create` ends with `Ok` in a well-formed storage that has the given
  -- height and key, and holds no message.
  create-IsNew :
      (h : BlockHeight) (key : Bytes) (s : S)
      → (t : S) × (create storage crates codec h key s ≡ returns (ok tt, t)) × IsNew h key t
  unfolding create IsNew
  create-IsNew h key s =
      let st : State = record { height = h; key = key } in
      (fresh st s, rw (disk.remove_all_files-eq s) (write_fresh st s), fresh-IsNew st s)

  -- On a disk that does not fail, `advance` of a well-formed storage ends with `Ok` in a well-formed
  -- storage that has the next height, modulo 2^64, and the same key, and holds no message.
  pub advance-IsNew :
      (s : S) (st : State)
      → IsWellFormed storage crates codec disk faithful s
      → read_state storage crates codec s ≡ returns (ok st)
      → (t : S) × (advance storage crates codec s ≡ returns (ok tt, t))
        × IsNew (add64 st.height 1) st.key t
  unfolding advance IsNew
  advance-IsNew s st w e =
      let st' : State = record { height = add64 st.height 1; key = st.key } in
      (fresh st' s, rw (e, disk.remove_all_files-eq s) (write_fresh st' s), fresh-IsNew st' s)

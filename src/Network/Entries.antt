-- ===== src/Network/Entries.antt =====
-- Reading every file of a storage, in network/src/dms.rs, and leaving out the file of the state.
use pdao_simperby.Prelude.{
  ◌≡◌, ◌≢◌, inl, inr, refl, arith, some, List, [], ◌∷◌, true, Elem, here, there, not-Elem-nil,
  Bool-cases, subst, sym, Option-cases,
}
use pdao_simperby.Results.{ok, traverse}
use pdao_simperby.Common.Bytes.{Bytes, bytes_eq, bytes_eq_refl, eq_of_bytes_eq}
use pdao_simperby.Common.Encoding.{Crates}
use pdao_simperby.Network.Storage.{Storage, IsReadable, has_name}
use pdao_simperby.Network.Message.{Codec, state_file_path}
use pdao_simperby.Network.Reading.{read_entry, but_state}

module _ {E S : Type 0} (storage : Storage E S) (crates : Crates) (codec : Codec)
    (disk : IsReadable storage) where
  pub read_entry-ok :
      (s : S) (f c : Bytes)
      → disk.view s f ≡ some c
      → read_entry storage crates codec s f ≡ ok (f, c)
  unfolding read_entry
  read_entry-ok s f c h = ground (arith, disk.read_file-eq f c s h)

  entry_view :
      (s : S) (f c g d : Bytes)
      → disk.view s f ≡ some c
      → ◌≡◌ {A = Bytes × Bytes} (g, d) (f, c)
      → disk.view s g ≡ some d
  entry_view s f c g d k e = subst (λ (p : Bytes × Bytes). disk.view s p.0 ≡ some p.1) (sym e) k

  entry_at :
      (s : S) (f c g d : Bytes)
      → bytes_eq f g ≡ true
      → disk.view s f ≡ some c
      → disk.view s g ≡ some d
      → ◌≡◌ {A = Bytes × Bytes} (g, d) (f, c)
  entry_at s f c g d e k v = let same = eq_of_bytes_eq f g e in cc

  -- All the files are read.
  unfoldable pub IsRead : S → List Bytes → List (Bytes × Bytes) → Type 0
  IsRead s fs es =
      (traverse (read_entry storage crates codec s) fs ≡ ok es)
      × ((f c : Bytes) → Elem (f, c) es → disk.view s f ≡ some c)
      × ((f c : Bytes) → has_name f fs ≡ true → disk.view s f ≡ some c → Elem (f, c) es)

  pub IsRead-all :
      (s : S) (fs : List Bytes)
      → ((f : Bytes) → has_name f fs ≡ true → (c : Bytes) × (disk.view s f ≡ some c))
      → (es : List (Bytes × Bytes)) × IsRead s fs es
  unfolding traverse IsRead
  IsRead-all s [] h =
      ([], (refl, λ f c m. absurd (not-Elem-nil m), λ f c e k. absurd (ground arith)))
  IsRead-all s (f ∷ fs) h =
      let (c, k) = h f (ground (arith, bytes_eq_refl f)) in
      let (es, (t, sound, complete)) = IsRead-all s fs (λ g m. h g (ground arith)) in
      (
        (f, c) ∷ es,
        (
          ground (arith, read_entry-ok s f c k, t),
          λ g d m. elim m [ here e ↦ entry_view s f c g d k e | there m' ↦ sound g d m' ],
          λ g d n v. elim (Bool-cases (bytes_eq f g)) [
            | inl e ↦ here (entry_at s f c g d e k v)
            | inr e ↦ there (complete g d (ground arith) v)
          ],
        ),
      )

  pub but_state-state :
      (f c : Bytes) (es : List (Bytes × Bytes))
      → f ≡ state_file_path
      → but_state ((f, c) ∷ es) ≡ but_state es
  unfolding but_state
  but_state-state f c es e =
      let same : bytes_eq f state_file_path ≡ true =
        subst (λ g. bytes_eq f g ≡ true) e (bytes_eq_refl f) in
      rw same

  pub but_state-other :
      (f c : Bytes) (es : List (Bytes × Bytes))
      → f ≢ state_file_path
      → but_state ((f, c) ∷ es) ≡ c ∷ but_state es
  unfolding but_state
  but_state-other f c es e = elim (Bool-cases (bytes_eq f state_file_path)) [
    | inl same ↦ absurd (e (eq_of_bytes_eq f state_file_path same))
    | inr other ↦ rw other
  ]

  pub names_view :
      (s : S) (f : Bytes)
      → has_name f (disk.names s) ≡ true
      → (c : Bytes) × (disk.view s f ≡ some c)
  names_view s f h = elim (Option-cases (disk.view s f)) [
    | inl e ↦ absurd (ground (arith, disk.has_name-names f s, e))
    | inr (c, e) ↦ (c, e)
  ]

  pub has_name-view :
      (s : S) (f c : Bytes) → disk.view s f ≡ some c → has_name f (disk.names s) ≡ true
  has_name-view s f c e = ground (arith, disk.has_name-names f s, e)

-- ===== src/Governance/Advance.antt =====
-- `advance` of governance/src/lib.rs: the height that the caller asserts.
use pdao_simperby.Prelude.{
  ◌≡◌, ◌≢◌, ◌⊎◌, inl, inr, refl, arith, returns, add64, Bool-cases, subst, ◌==◌,
}
use pdao_simperby.Results.{ok, err}
use pdao_simperby.Common.Encoding.{Crates}
use pdao_simperby.Common.Types.{BlockHeight}
use pdao_simperby.Network.Storage.{Storage, IsReliable}
use pdao_simperby.Network.Message.{Codec, custom, State}
use pdao_simperby.Network.Contents.{IsFaithful, IsWellFormed}
use pdao_simperby.Network.Reading.{read_state, read_height}
use pdao_simperby.Network.Heights.{IsNew, advance-IsNew}
use pdao_simperby.Governance.Casting.{advance}

module _ {E S : Type 0} (storage : Storage E S) (crates : Crates) (codec : Codec)
    (disk : IsReliable storage) (faithful : IsFaithful codec) where
  -- The action gives the error of a wrong height and changes nothing.
  abbrev pub IsRefused : BlockHeight → S → Type 0
  IsRefused expected s =
      advance storage crates codec expected s
      ≡ returns (err (custom "the height of the governance status is not the expected one"), s)

  -- The action gives `Ok` and an empty set of the next height.
  abbrev pub IsAdvanced : BlockHeight → State → S → Type 0
  IsAdvanced expected st s =
      (t : S) × (advance storage crates codec expected s ≡ returns (ok tt, t))
      × IsNew storage crates codec disk faithful (add64 expected 1) st.key t

  -- On a disk that does not fail, `advance` of a well-formed storage gives an error and changes nothing
  -- when the height is not the one asserted; when it is, it leaves an empty set of the next height,
  -- modulo 2^64, under the same key.
  pub advance_cases :
      (s : S) (st : State) (expected : BlockHeight)
      → IsWellFormed storage crates codec disk faithful s
      → read_state storage crates codec s ≡ returns (ok st)
      → (st.height ≢ expected) × IsRefused expected s
        ⊎ (st.height ≡ expected) × IsAdvanced expected st s
  unfolding advance read_height
  advance_cases s st expected w e = elim (Bool-cases (st.height == expected)) [
    | inl q ↦
        let (t, p, new) = advance-IsNew storage crates codec disk faithful s st w e in
        let same : st.height ≡ expected = ground (arith, q) in
        inr (
          same,
          (
            t,
            rw (e, q) p,
            subst (λ h. IsNew storage crates codec disk faithful (add64 h 1) st.key t) same new,
          ),
        )
    | inr q ↦ inl ((λ same. ground (arith, q, same)), rw (e, q) refl)
  ]

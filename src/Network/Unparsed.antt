-- ===== src/Network/Unparsed.antt =====
-- A file that does not parse, in network/src/dms.rs: nothing of the set can be read any more.
use pdao_simperby.Prelude.{
  ◌≡◌, ◌≢◌, inl, inr, refl, arith, Option-cases, none, some, List, [], ◌∷◌, Elem, here, there,
  subst, not-Elem-nil, returns, ap, sym, ◌∙◌, Bool-cases,
}
use pdao_simperby.Results.{err, traverse, call_map_err, ◌>>=◌}
use pdao_simperby.Common.Bytes.{Bytes, bytes_eq, eq_of_bytes_eq, bytes_eq_refl}
use pdao_simperby.Common.Encoding.{Crates}
use pdao_simperby.Network.Storage.{Storage, IsReadable}
use pdao_simperby.Network.Message.{Codec, json_error, state_file_path}
use pdao_simperby.Network.Reading.{parse_entry, but_state, read_messages}
use pdao_simperby.Network.Entries.{
  IsRead, IsRead-all, names_view, has_name-view, but_state-state, but_state-other,
}

module _ {E S : Type 0} (storage : Storage E S) (crates : Crates) (codec : Codec)
    (disk : IsReadable storage) where
  parse_all-err :
      (c : Bytes) (cs : List Bytes)
      → Elem c cs
      → codec.parse_message c ≡ none
      → traverse (parse_entry storage crates codec) cs ≡ err json_error
  unfolding traverse parse_entry
  parse_all-err c [] k e = absurd (not-Elem-nil k)
  parse_all-err c (d ∷ ds) k e = elim (Option-cases (codec.parse_message d)) [
    | inl q ↦ ground (arith, q)
    | inr (raw, q) ↦ elim k [
      | here same ↦ absurd (ground (arith, q, e, ap codec.parse_message same))
      | there k' ↦ ground (arith, q, parse_all-err c ds k' e)
    ]
  ]

  Elem-but_state :
      (f c : Bytes) (es : List (Bytes × Bytes))
      → f ≢ state_file_path
      → Elem (f, c) es
      → Elem c (but_state es)
  Elem-but_state f c [] n k = absurd (not-Elem-nil k)
  Elem-but_state f c ((g, d) ∷ es) n k = elim k [
    | here same ↦
        subst (Elem c)
          (sym (
            but_state-other storage crates codec disk g d es
              (λ g_state. n (ap (λ (x : Bytes × Bytes). x.0) same ∙ g_state))))
          (here (ap (λ (x : Bytes × Bytes). x.1) same))
    | there k' ↦ elim (Bool-cases (bytes_eq g state_file_path)) [
      | inl q ↦
          subst (Elem c)
            (sym (
              but_state-state storage crates codec disk g d es
                (eq_of_bytes_eq g state_file_path q)))
            (Elem-but_state f c es n k')
      | inr q ↦
          subst (Elem c)
            (sym (
              but_state-other storage crates codec disk g d es (λ same. absurd (
                ground (
                  arith,
                  q,
                  bytes_eq_refl state_file_path,
                  ap (λ x. bytes_eq x state_file_path) same,
                )))))
            (there (Elem-but_state f c es n k'))
    ]
  ]

  -- On a disk that does not fail, a file other than the state's that does not parse makes
  -- `read_messages` give the error of the parser, whatever else the set holds.
  pub unparsed_file_fails :
      (s : S) (f c : Bytes)
      → f ≢ state_file_path
      → disk.view s f ≡ some c
      → codec.parse_message c ≡ none
      → read_messages storage crates codec s ≡ returns (err json_error)
  unfolding read_messages IsRead
  unparsed_file_fails s f c n v e =
      let (es, (t, sound, complete)) =
        IsRead-all storage crates codec disk s (disk.names s)
          (names_view storage crates codec disk s) in
      let listed = has_name-view storage crates codec disk s f c v in
      let failed =
        parse_all-err c (but_state es) (Elem-but_state f c es n (complete f c listed v)) e in
      rw (disk.list_files-eq s, ◌>>=◌, call_map_err, t, failed) refl

-- ===== src/Common/Agendas.antt =====
-- `Agenda::calculate_hash` of common/src/hash.rs and the agendas of `CommitSequenceVerifier` of
-- common/src/verify.rs: the height is bound by the hash, and an agenda of another hash is refused.
use mathlib.Core.List.{append-nil, append_assoc}
use pdao_simperby.Prelude.{
  ◌≡◌, ◌⊎◌, inl, inr, refl, arith, none, some, returns, [], ◌∷◌, List, ◌++◌, map, false, ap, sym,
  ◌∙◌, >>=-eq-returns, ◌%◌, ◌≢◌, Bool-cases, ltb_ℤ, subst, Option-cases,
}
use pdao_simperby.Common.Sequence.{
  apply_commit, apply_arm, push_commit, first_transaction, next_transaction, CommitSequenceVerifier,
  check_agenda, agenda_after_transactions,
}
use pdao_simperby.Common.Errors.{Error, block_phase, transaction_phase, invalid_argument}
use pdao_simperby.Common.Types.{transaction, agenda, Transaction, BlockHeader, BlockHeight, Agenda}
use pdao_simperby.Common.Chains.{apply_all}
use pdao_simperby.Common.Encoding.{Crates, aggregate_all, calculate_hash, transaction_hash}
use pdao_simperby.Common.Hash.{aggregate, Hash256, hash_eq, hash_bytes, eq_of_hash_eq}
use pdao_simperby.Common.Merkle.Binding.{Collision, siblings_bind, hash_cases}
use pdao_simperby.Common.Bytes.{decimal}
use pdao_simperby.Common.Decimal.{decimal-last}
use pdao_simperby.Common.Arms.{with_diff_keeps}

module _ (crates : Crates) where
  aggregate_all-binds :
      (txs : List Transaction) (g h : Hash256)
      → aggregate_all crates g txs ≡ aggregate_all crates h txs
      → (g ≡ h) ⊎ Collision crates.blake3
  unfolding aggregate_all aggregate
  aggregate_all-binds [] g h e = inl e
  aggregate_all-binds (tx ∷ txs) g h e =
      elim (aggregate_all-binds txs (aggregate crates.blake3 g (transaction_hash crates tx))
        (aggregate crates.blake3 h (transaction_hash crates tx)) e) [
          | inl k ↦ siblings_bind crates.blake3 [] (transaction_hash crates tx).hash g h k
          | inr c ↦ inr c
        ]

  -- Hashes of the same transactions at two heights with other last digits are different, or there is a
  -- collision.
  pub calculate_hash-differs :
      (m n : BlockHeight) (txs : List Transaction)
      → m % 10 ≢ n % 10
      → (hash_eq (calculate_hash crates m txs) (calculate_hash crates n txs) ≡ false)
        ⊎ Collision crates.blake3
  unfolding calculate_hash
  calculate_hash-differs m n txs d =
      elim (Bool-cases (hash_eq (calculate_hash crates m txs) (calculate_hash crates n txs))) [
        | inr e ↦ inl e
        | inl e ↦
            elim (aggregate_all-binds txs (hash_bytes crates.blake3 (decimal m))
              (hash_bytes crates.blake3 (decimal n)) (eq_of_hash_eq _ _ e)) [
                | inr c ↦ inr c
                | inl k ↦ elim (hash_cases crates.blake3 (decimal m) (decimal n) k) [
                  | inl p ↦ absurd (d (decimal-last m n p))
                  | inr c ↦ inr c
                ]
              ]
      ]

  -- The verifier has taken the transactions after its header.
  pub data Gathered (h : BlockHeader) : List Transaction → CommitSequenceVerifier → Type 0 where
    none_yet : {v : CommitSequenceVerifier} → v.header ≡ h → v.phase ≡ block_phase → Gathered h [] v
    some_taken :
        {v : CommitSequenceVerifier} (last : Transaction) (preceding : List Transaction)
        → v.header ≡ h
        → v.phase ≡ transaction_phase last preceding
        → Gathered h (preceding ++ last ∷ []) v

  apply_transaction-Gathered :
      (h : BlockHeader) (tx : Transaction) (txs : List Transaction) (v t : CommitSequenceVerifier)
      → Gathered h txs v
      → apply_commit crates (transaction tx) v ≡ returns (none, t)
      → Gathered h (txs ++ tx ∷ []) t
  unfolding apply_commit apply_arm push_commit first_transaction next_transaction
  apply_transaction-Gathered h tx _ v t (none_yet same phase) e =
      some_taken tx [] (ground (arith, e, phase, same, (with_diff_keeps tx.diff v).0))
        (ground (arith, e, phase))
  apply_transaction-Gathered h tx _ v t (some_taken last preceding same phase) e =
      some_taken tx (preceding ++ last ∷ [])
        (ground (arith, e, phase, same, (with_diff_keeps tx.diff v).0)) (ground (arith, e, phase))

  pub apply_all-Gathered :
      (h : BlockHeader) (txs taken : List Transaction) (v t : CommitSequenceVerifier)
      → Gathered h taken v
      → apply_all crates (map transaction txs) v ≡ returns (none, t)
      → Gathered h (taken ++ txs) t
  unfolding apply_all
  apply_all-Gathered h [] taken v t g e =
      let last : v ≡ t = cc in
      subst (λ xs. Gathered h xs t) (sym (append-nil taken)) (subst (Gathered h taken) last g)
  apply_all-Gathered h (tx ∷ txs) taken v t g e =
      let ((answer, next), p, q) = >>=-eq-returns (apply_commit crates (transaction tx) v) _ e in
      elim (Option-cases answer) [
        | inl k ↦
            let applied =
              apply_transaction-Gathered h tx taken v next g (p ∙ ap (λ x. returns (x, next)) k) in
            subst (λ xs. Gathered h xs t) (append_assoc taken (tx ∷ []) txs)
              (apply_all-Gathered h txs (taken ++ tx ∷ []) next t applied (ground (arith, q, k)))
        | inr (x, k) ↦ absurd (ground (arith, q, k))
      ]

  -- An agenda of another hash than that of the transactions taken is refused, and nothing changes.
  pub agenda-refused :
      (h : BlockHeader) (a : Agenda) (txs : List Transaction) (v : CommitSequenceVerifier)
      → Gathered h txs v
      → hash_eq a.hash (calculate_hash crates h.height txs) ≡ false
      → (e : Error) × (apply_commit crates (agenda a) v ≡ returns (some e, v))
  unfolding apply_commit apply_arm check_agenda agenda_after_transactions
  agenda-refused h a _ v (none_yet same phase) n =
      (invalid_argument "invalid agenda hash", rw (phase, same, n) refl)
  agenda-refused h a _ v (some_taken last preceding same phase) n =
      elim (Bool-cases (ltb_ℤ a.timestamp last.timestamp)) [
        | inl l ↦ (invalid_argument "invalid agenda timestamp", rw (phase, l) refl)
        | inr l ↦ (invalid_argument "invalid agenda hash", rw (phase, l, same, n) refl)
      ]

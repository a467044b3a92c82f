-- ===== src/Repository/Refused.antt =====
-- The agendas of repository/src/lib.rs against the verifier of common/src/verify.rs.
use pdao_simperby.Common.Errors.{Error}
use pdao_simperby.Prelude.{
  refl, ◌≡◌, ◌⊎◌, inl, inr, arith, none, some, returns, [], map, ◌<◌, ◌≢◌, ℕ, ◌^◌, add64, ◌%◌, List,
}
use pdao_simperby.Common.Sequence.{new, CommitSequenceVerifier, apply_commit}
use pdao_simperby.Common.Types.{
  transaction, agenda, PublicKey, Timestamp, BlockHeader, ReservedState, Transaction,
}
use pdao_simperby.Common.Agendas.{
  none_yet, apply_all-Gathered, calculate_hash-differs, agenda-refused,
}
use pdao_simperby.Repository.Pending.{agenda_of}
use pdao_simperby.Common.Encoding.{Crates}
use pdao_simperby.Common.Chains.{apply_all}
use pdao_simperby.Common.Merkle.Binding.{Collision}

-- The last digits of a height and of the next one, in 64 bits, differ.
next_digit : (n : ℕ) → n < 2 ^ 64 → add64 n 1 % 10 ≢ n % 10
next_digit n h e = omega arith

-- The code that makes agendas and the code that verifies them do not agree. Take transactions that the
-- verifier accepts one after another from a last header whose height is a `u64`. It then refuses the agenda
-- that lib.rs builds from the same header, the same transactions and any time, and is left as it was; or
-- there are two different byte sequences with the same `blake3`. One side hashes the next height, and the
-- other the height of the header.
pub agenda_of-refused :
    (crates : Crates) (author : PublicKey) (now : Timestamp) (last_header : BlockHeader)
    (reserved_state : ReservedState) (transactions : List Transaction) (v : CommitSequenceVerifier)
    → last_header.height < 2 ^ 64
    → apply_all crates (map transaction transactions) (new last_header reserved_state)
      ≡ returns (none, v)
    → ((e : Error) × (apply_commit crates
            (agenda (agenda_of crates author now last_header transactions))
            v
          ≡ returns (some e, v)))
      ⊎ Collision crates.blake3
unfolding agenda_of new
agenda_of-refused crates author now h rs txs v small accepted =
    let gathered = apply_all-Gathered crates h txs [] (new h rs) v (none_yet refl refl) accepted in
    elim (calculate_hash-differs crates (add64 h.height 1) h.height txs
      (next_digit h.height small)) [
        | inl n ↦ inl (agenda-refused crates h (agenda_of crates author now h txs) txs v gathered n)
        | inr c ↦ inr c
      ]

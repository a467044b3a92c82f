-- ===== src/Common/Arms.antt =====
-- What each arm of `apply_commit` of common/src/verify.rs may do.
use pdao_simperby.Prelude.{
  ◌≡◌, ◌⊎◌, inl, inr, refl, arith, false, none, List, [], ◌∷◌, ◌++◌, returns, panics, Bool-cases,
  Option-cases, ltb_ℤ, Option, is_none,
}
use pdao_simperby.Common.Sequence.{
  CommitSequenceVerifier, apply_arm, close_block, block_after_proof, block_after_extra,
  check_agenda, agenda_after_transactions, check_agenda_proof, first_extra, next_extra,
  extra_effect, first_transaction, next_transaction, with_diff, apply_delegate, apply_undelegate,
  refuse,
}
use pdao_simperby.Common.Types.{
  block, transaction, agenda, agenda_proof, extra_agenda_transaction, chat_log, delegate,
  undelegate, report, no_diff, general, reserved, Commit, ExtraAgendaTransaction, BlockHeader,
  Timestamp, Transaction, Agenda, AgendaProof, Diff,
}
use pdao_simperby.Common.Errors.{
  transaction_phase, agenda_phase, agenda_proof_phase, extra_agenda_transaction_phase, block_phase,
  Phase, Error, phase_mismatch,
}
use pdao_simperby.Common.Headers.{verify_header_to_header}
use pdao_simperby.Common.Encoding.{Crates}

-- What an arm of `apply_commit` may do: refuse and change nothing, close a block, or keep the header
-- and the commits.
abbrev pub Refused : CommitSequenceVerifier → Option Error → CommitSequenceVerifier → Type 0
Refused v answer t = (is_none answer ≡ false) × (t ≡ v)

abbrev pub Kept : CommitSequenceVerifier → Option Error → CommitSequenceVerifier → Type 0
Kept v answer t = (answer ≡ none) × (t.header ≡ v.header) × (t.commits ≡ v.commits)

-- No extra-agenda transaction is applied: the source does not implement it.
first_extra-panics :
    (tx : ExtraAgendaTransaction) (v : CommitSequenceVerifier) → first_extra tx v ≡ panics
unfolding first_extra extra_effect apply_delegate apply_undelegate
first_extra-panics (delegate tx) v = refl
first_extra-panics (undelegate tx) v = refl
first_extra-panics report v = refl

next_extra-panics :
    (tx : ExtraAgendaTransaction) (last : Timestamp) (v : CommitSequenceVerifier)
    → next_extra tx last v ≡ panics
unfolding next_extra extra_effect apply_delegate apply_undelegate
next_extra-panics (delegate tx) last v = refl
next_extra-panics (undelegate tx) last v = refl
next_extra-panics report last v = refl

pub with_diff_keeps :
    (d : Diff) (v : CommitSequenceVerifier)
    → ((with_diff d v).header ≡ v.header) × ((with_diff d v).commits ≡ v.commits)
unfolding with_diff
with_diff_keeps no_diff v = (refl, refl)
with_diff_keeps (general g) v = (refl, refl)
with_diff_keeps (reserved rs g) v = (refl, refl)

first_transaction-Kept :
    (tx : Transaction) (v t : CommitSequenceVerifier) (answer : Option Error)
    → first_transaction tx v ≡ returns (answer, t)
    → Refused v answer t ⊎ Kept v answer t
unfolding first_transaction
first_transaction-Kept tx v t answer e =
    let (a, b) = with_diff_keeps tx.diff v in inr (ground arith)

next_transaction-Kept :
    (tx last : Transaction) (preceding : List Transaction) (v t : CommitSequenceVerifier)
    (answer : Option Error)
    → next_transaction tx last preceding v ≡ returns (answer, t)
    → Refused v answer t ⊎ Kept v answer t
unfolding next_transaction
next_transaction-Kept tx last preceding v t answer e =
    let (a, b) = with_diff_keeps tx.diff v in
    elim (Bool-cases (ltb_ℤ tx.timestamp last.timestamp)) [
      | inl k ↦ inl (ground arith)
      | inr k ↦ inr (ground arith)
    ]

module _ (crates : Crates) where
  abbrev pub Closed :
      BlockHeader → CommitSequenceVerifier → Option Error → CommitSequenceVerifier → Type 0
  Closed h v answer t =
      (answer ≡ none)
      × (verify_header_to_header crates v.header h ≡ none)
      × (t ≡ record v { header = h; phase = block_phase; commits = [] })

  abbrev pub Arm : Commit → CommitSequenceVerifier → Option Error → CommitSequenceVerifier → Type 0
  Arm (block h) v answer t = Refused v answer t ⊎ Closed h v answer t
  Arm _ v answer t = Refused v answer t ⊎ Kept v answer t

  close_block-Closed :
      (h : BlockHeader) (v t : CommitSequenceVerifier) (answer : Option Error)
      → verify_header_to_header crates v.header h ≡ none
      → close_block crates h v ≡ returns (answer, t)
      → Refused v answer t ⊎ Closed h v answer t
  unfolding close_block
  close_block-Closed h v t answer k e = ground arith

  block_after_proof-Arm :
      (h : BlockHeader) (v t : CommitSequenceVerifier) (answer : Option Error)
      → block_after_proof crates h v ≡ returns (answer, t)
      → Refused v answer t ⊎ Closed h v answer t
  unfolding block_after_proof
  block_after_proof-Arm h v t answer e =
      elim (Option-cases (verify_header_to_header crates v.header h)) [
        | inl k ↦ close_block-Closed h v t answer k (ground arith)
        | inr (x, k) ↦ inl (ground arith)
      ]

  block_after_extra-Arm :
      (h : BlockHeader) (last : Timestamp) (v t : CommitSequenceVerifier) (answer : Option Error)
      → block_after_extra crates h last v ≡ returns (answer, t)
      → Refused v answer t ⊎ Closed h v answer t
  unfolding block_after_extra
  block_after_extra-Arm h last v t answer e =
      elim (Option-cases (verify_header_to_header crates v.header h)) [
        | inl k ↦ elim (Bool-cases (ltb_ℤ h.timestamp last)) [
          | inl b ↦ inl (ground arith)
          | inr b ↦ close_block-Closed h v t answer k (ground arith)
        ]
        | inr (x, k) ↦ inl (ground arith)
      ]

  check_agenda-Kept :
      (a : Agenda) (txs : List Transaction) (v t : CommitSequenceVerifier) (answer : Option Error)
      → check_agenda crates a txs v ≡ returns (answer, t)
      → Refused v answer t ⊎ Kept v answer t
  unfolding check_agenda
  check_agenda-Kept a txs v t answer e = ground arith

  check_agenda_proof-Kept :
      (p : AgendaProof) (a : Agenda) (v t : CommitSequenceVerifier) (answer : Option Error)
      → check_agenda_proof crates p a v ≡ returns (answer, t)
      → Refused v answer t ⊎ Kept v answer t
  unfolding check_agenda_proof
  check_agenda_proof-Kept p a v t answer e = ground arith

  agenda_after_transactions-Kept :
      (a : Agenda) (last : Transaction) (preceding : List Transaction)
      (v t : CommitSequenceVerifier) (answer : Option Error)
      → agenda_after_transactions crates a last preceding v ≡ returns (answer, t)
      → Refused v answer t ⊎ Kept v answer t
  unfolding agenda_after_transactions
  agenda_after_transactions-Kept a last preceding v t answer e =
      elim (Bool-cases (ltb_ℤ a.timestamp last.timestamp)) [
        | inl k ↦ inl (ground arith)
        | inr k ↦ check_agenda-Kept a (preceding ++ last ∷ []) v t answer (ground arith)
      ]

  refuse-Refused :
      (x : Error) (v t : CommitSequenceVerifier) (answer : Option Error)
      → refuse x v ≡ returns (answer, t)
      → Refused v answer t
  refuse-Refused x v t answer e = ground arith

  pub apply_arm-Arm :
      (c : Commit) (phase : Phase) (v t : CommitSequenceVerifier) (answer : Option Error)
      → apply_arm crates c phase v ≡ returns (answer, t)
      → Arm c v answer t
  unfolding apply_arm
  apply_arm-Arm (block h) (agenda_proof_phase p) v t answer e = block_after_proof-Arm h v t answer e
  apply_arm-Arm (block h) (extra_agenda_transaction_phase last) v t answer e =
      block_after_extra-Arm h last v t answer e
  apply_arm-Arm (transaction tx) block_phase v t answer e = first_transaction-Kept tx v t answer e
  apply_arm-Arm (transaction tx) (transaction_phase last preceding) v t answer e =
      next_transaction-Kept tx last preceding v t answer e
  apply_arm-Arm (agenda a) block_phase v t answer e = check_agenda-Kept a [] v t answer e
  apply_arm-Arm (agenda a) (transaction_phase last preceding) v t answer e =
      agenda_after_transactions-Kept a last preceding v t answer e
  apply_arm-Arm (agenda_proof p) (agenda_phase a) v t answer e =
      check_agenda_proof-Kept p a v t answer e
  apply_arm-Arm (extra_agenda_transaction tx) (agenda_proof_phase p) v t answer e =
      absurd (ground (arith, first_extra-panics tx v))
  apply_arm-Arm (extra_agenda_transaction tx) (extra_agenda_transaction_phase last) v t answer e =
      absurd (ground (arith, next_extra-panics tx last v))
  apply_arm-Arm chat_log phase v t answer e = absurd (ground arith)
  apply_arm-Arm (block h) phase v t answer e =
      inl (refuse-Refused (phase_mismatch (block h) phase) v t answer e)
  apply_arm-Arm c phase v t answer e = inl (refuse-Refused (phase_mismatch c phase) v t answer e)

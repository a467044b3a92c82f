-- ===== src/Common/Sequence.antt =====
-- common/src/verify.rs: `CommitSequenceVerifier`.
use pdao_simperby.Prelude.{
  Option, none, some, List, [], ◌∷◌, ◌++◌, if◌then◌else◌, not, ltb_ℤ, Outcome, returns, panics,
  ◌>>=◌, unwrap,
}
use pdao_simperby.Common.Errors.{
  Error, invalid_argument, crypto_error, phase_mismatch, transaction_phase, agenda_phase,
  agenda_proof_phase, extra_agenda_transaction_phase, block_phase, Phase,
}
use pdao_simperby.Common.Types.{
  report, block, transaction, agenda, agenda_proof, extra_agenda_transaction, chat_log, reserved,
  BlockHeader, Commit, Transaction, TxDelegate, TxUndelegate, ExtraAgendaTransaction, Agenda,
  AgendaProof, ReservedState, Timestamp, delegate, undelegate, Diff,
}
use pdao_simperby.Common.Hash.{hash_eq}
use pdao_simperby.Common.Encoding.{
  Crates, calculate_commit_merkle_root, calculate_hash, agenda_hash_of,
}
use pdao_simperby.Common.Headers.{verify_header_to_header, first_forged}

pub record CommitSequenceVerifier : Type 0 where
  pub header : BlockHeader
  pub phase : Phase
  pub reserved_state : ReservedState
  pub commits : List Commit

-- What a commit does to the verifier: an error, or the next state; `none` is `Ok(())`.
abbrev pub Applied : Type 0
Applied = Outcome (Option Error × CommitSequenceVerifier)

abbrev pub refuse : Error → CommitSequenceVerifier → Applied
refuse e v = returns (some e, v)

-- `CommitSequenceVerifier::new`, which gives no error.
unfoldable pub new : BlockHeader → ReservedState → CommitSequenceVerifier
new start_header start_state = record {
  header = start_header;
  phase = block_phase;
  reserved_state = start_state;
  commits = [];
}

-- `self.commits.push(commit.clone())`.
unfoldable pub push_commit : Commit → CommitSequenceVerifier → CommitSequenceVerifier
push_commit c v = record v { commits = v.commits ++ c ∷ [] }

-- A reserved diff brings its own state.
unfoldable pub with_diff : Diff → CommitSequenceVerifier → CommitSequenceVerifier
with_diff (reserved rs h) v = record v { reserved_state = rs }
with_diff _ v = v

-- `ReservedState::apply_delegate` and `apply_undelegate`: `unimplemented!()`.
unfoldable pub apply_delegate : TxDelegate → ReservedState → Outcome ReservedState
apply_delegate tx rs = panics

unfoldable pub apply_undelegate : TxUndelegate → ReservedState → Outcome ReservedState
apply_undelegate tx rs = panics

-- What an extra-agenda transaction does to the reserved state, with its timestamp.
unfoldable pub extra_effect :
    ExtraAgendaTransaction → ReservedState → Outcome (ReservedState × Timestamp)
unfolding apply_delegate apply_undelegate
extra_effect (delegate tx) rs = apply_delegate tx rs >>= λ next. returns (next, tx.timestamp)
extra_effect (undelegate tx) rs = apply_undelegate tx rs >>= λ next. returns (next, tx.timestamp)
extra_effect report rs = panics

unfoldable pub first_extra : ExtraAgendaTransaction → CommitSequenceVerifier → Applied
unfolding extra_effect
first_extra tx v = extra_effect tx v.reserved_state >>= λ (next, time).
    returns (none, record v { reserved_state = next; phase = extra_agenda_transaction_phase time })

unfoldable pub next_extra : ExtraAgendaTransaction → Timestamp → CommitSequenceVerifier → Applied
unfolding extra_effect
next_extra tx last v = extra_effect tx v.reserved_state >>= λ (next, time).
    if ltb_ℤ time last
    then refuse (invalid_argument "invalid extra-agenda transaction timestamp")
        (record v { reserved_state = next })
    else returns
        (none, record v { reserved_state = next; phase = extra_agenda_transaction_phase time })

unfoldable pub first_transaction : Transaction → CommitSequenceVerifier → Applied
unfolding with_diff
first_transaction tx v =
    returns (none, record (with_diff tx.diff v) { phase = transaction_phase tx [] })

unfoldable pub next_transaction :
    Transaction → Transaction → List Transaction → CommitSequenceVerifier → Applied
unfolding with_diff
next_transaction tx last preceding v =
    if ltb_ℤ tx.timestamp last.timestamp
    then refuse (invalid_argument "invalid transaction timestamp") v
    else returns (
      none,
      record (with_diff tx.diff v) { phase = transaction_phase tx (preceding ++ last ∷ []) },
    )

module _ (crates : Crates) where
  -- Both arms for a block after their own tests: the Merkle root of the commits, and the reset.
  unfoldable pub close_block : BlockHeader → CommitSequenceVerifier → Applied
  close_block h v = unwrap (calculate_commit_merkle_root crates v.commits) >>= λ commit_merkle_root.
      if not (hash_eq commit_merkle_root h.commit_merkle_root)
      then refuse (invalid_argument "invalid commit merkle root") v
      else returns (none, record v { header = h; phase = block_phase; commits = [] })

  unfoldable pub block_after_proof : BlockHeader → CommitSequenceVerifier → Applied
  unfolding close_block
  block_after_proof h v = elim (verify_header_to_header crates v.header h) [
    | some e ↦ refuse e v
    | none ↦ close_block h v
  ]

  unfoldable pub block_after_extra : BlockHeader → Timestamp → CommitSequenceVerifier → Applied
  unfolding close_block
  block_after_extra h last v = elim (verify_header_to_header crates v.header h) [
    | some e ↦ refuse e v
    | none ↦
        if ltb_ℤ h.timestamp last
        then refuse (invalid_argument "invalid block timestamp") v
        else close_block h v
  ]

  -- The hash of an agenda over the transactions before it.
  unfoldable pub check_agenda : Agenda → List Transaction → CommitSequenceVerifier → Applied
  check_agenda a transactions v =
      if not (hash_eq a.hash (calculate_hash crates v.header.height transactions))
      then refuse (invalid_argument "invalid agenda hash") v
      else returns (none, record v { phase = agenda_phase a })

  unfoldable pub agenda_after_transactions :
      Agenda → Transaction → List Transaction → CommitSequenceVerifier → Applied
  unfolding check_agenda
  agenda_after_transactions a last preceding v =
      if ltb_ℤ a.timestamp last.timestamp
      then refuse (invalid_argument "invalid agenda timestamp") v
      else check_agenda a (preceding ++ last ∷ []) v

  unfoldable pub check_agenda_proof : AgendaProof → Agenda → CommitSequenceVerifier → Applied
  check_agenda_proof p a v =
      if not (hash_eq p.agenda_hash a.hash)
      then refuse (invalid_argument "invalid agenda proof: invalid agenda hash") v
      else elim (first_forged crates (agenda_hash_of crates a) p.proof) [
        | some e ↦ refuse (crypto_error "invalid agenda proof: invalid signature" e) v
        | none ↦ returns (none, record v { phase = agenda_proof_phase p })
      ]

  -- The `match` of `apply_commit`.
  unfoldable pub apply_arm : Commit → Phase → CommitSequenceVerifier → Applied
  unfolding first_extra next_extra first_transaction next_transaction block_after_proof
      block_after_extra check_agenda agenda_after_transactions check_agenda_proof
  apply_arm (block h) (agenda_proof_phase p) v = block_after_proof h v
  apply_arm (block h) (extra_agenda_transaction_phase last) v = block_after_extra h last v
  apply_arm (transaction tx) block_phase v = first_transaction tx v
  apply_arm (transaction tx) (transaction_phase last preceding) v =
      next_transaction tx last preceding v
  apply_arm (agenda a) block_phase v = check_agenda a [] v
  apply_arm (agenda a) (transaction_phase last preceding) v =
      agenda_after_transactions a last preceding v
  apply_arm (agenda_proof p) (agenda_phase a) v = check_agenda_proof p a v
  apply_arm (extra_agenda_transaction tx) (agenda_proof_phase p) v = first_extra tx v
  apply_arm (extra_agenda_transaction tx) (extra_agenda_transaction_phase last) v =
      next_extra tx last v
  apply_arm chat_log phase v = panics
  apply_arm c phase v = refuse (phase_mismatch c phase) v

  unfoldable pub apply_commit : Commit → CommitSequenceVerifier → Applied
  unfolding apply_arm push_commit
  apply_commit c v = apply_arm c v.phase v >>= λ (answer, next). elim answer [
    | some e ↦ returns (some e, next)
    | none ↦ returns (none, push_commit c next)
  ]

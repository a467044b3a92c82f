-- ===== src/Common/Errors.antt =====
-- common/src/verify.rs: the phases of a sequence of commits, and the errors. The texts of the errors
-- are kept without the values that they are formatted with.
use pdao_simperby.Prelude.{List, String}
use pdao_simperby.Common.Types.{Transaction, Agenda, Commit, AgendaProof, Timestamp}
use pdao_simperby.Common.Encoding.{CryptoError}

pub data Phase : Type 0 where
  transaction_phase :
      (last_transaction : Transaction) (preceding_transactions : List Transaction) → Phase
  agenda_phase : Agenda → Phase
  agenda_proof_phase : AgendaProof → Phase
  extra_agenda_transaction_phase : (last_extra_agenda_timestamp : Timestamp) → Phase
  block_phase : Phase

-- The last takes the commit and the phase in place of their printed forms.
pub data Error : Type 0 where
  invalid_argument : String → Error
  invalid_proof : String → Error
  crypto_error : String → CryptoError → Error
  phase_mismatch : Commit → Phase → Error

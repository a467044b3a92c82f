-- ===== src/Common/Fixtures.antt =====
-- Crates, a key, headers and a reserved state for concrete runs of the crate `common`.
use pdao_simperby.Prelude.{true, [], ◌∷◌, pos}
use pdao_simperby.Common.Encoding.{Crates}
use pdao_simperby.Common.Types.{PublicKey, TypedSignature, BlockHeader, ReservedState}

-- Every signature verifies, and a hash is what is hashed.
abbrev pub toy : Crates
toy = record {
  blake3 = λ bytes. bytes;
  is_signature = λ bytes. true;
  is_public_key = λ bytes. true;
  verifies = λ key message signature. true;
  header_json = λ h. h.height ∷ [];
  transaction_json = λ t. t.body;
  agenda_json = λ a. a.hash.hash;
  agenda_proof_json = λ p. p.agenda_hash.hash;
  extra_agenda_transaction_json = λ tx. [];
  chat_log_json = [];
}

abbrev pub alice : PublicKey
alice = record { key = 1 ∷ [] }

abbrev pub by_alice : TypedSignature
by_alice = record { signature = record { signature = [] }; signer = alice }

abbrev pub genesis : BlockHeader
genesis = record {
  author = alice;
  prev_block_finalization_proof = [];
  previous_hash = record { hash = [] };
  height = 0;
  timestamp = pos 0;
  commit_merkle_root = record { hash = [] };
  repository_merkle_root = record { hash = [] };
  validator_set = (alice, 1) ∷ [];
  version = [];
}

abbrev pub first_block : BlockHeader
first_block = record genesis {
  prev_block_finalization_proof = by_alice ∷ [];
  previous_hash = record { hash = 0 ∷ [] };
  height = 1;
  timestamp = pos 1;
  commit_merkle_root = record { hash = 48 ∷ 48 ∷ [] };
}

abbrev pub start_state : ReservedState
start_state = record {
  genesis_info = record { header = genesis; genesis_proof = []; chain_name = [] };
  members = [];
  consensus_leader_order = [];
  version = [];
}

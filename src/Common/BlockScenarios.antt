-- ===== src/Common/BlockScenarios.antt =====
-- Concrete headers, commits and updates for the theorems on common/src/verify.rs and
-- common/src/light_client.rs.
use pdao_simperby.Prelude.{
  ℕ, List, Elem, ◌⊎◌, ◌≤◌, ◌≡◌, refl, arith, none, some, [], ◌∷◌, returns, pos, sum64, ◌↔◌,
}
use pdao_simperby.Common.Bytes.{bytes_eq, decimal, decimal_from}
use pdao_simperby.Common.Merkle.{root, merkle_tree, merkle_levels, upper_level, root_of}
use pdao_simperby.Common.Hash.{aggregate, hash_bytes}
use pdao_simperby.Common.Headers.{
  verify_header_to_header, verify_finalization_proof, first_forged, signers, powers,
}
use pdao_simperby.Common.Voters.{
  Common, IsChild, verify_finalization_proof_overlap, verify_header_to_header_iff,
}
use pdao_simperby.Results.{ok, err}
use pdao_simperby.Common.Reserved.{create_validator_set, IsOrdered, create_validator_set_cases}
use pdao_simperby.Common.LightClient
use pdao_simperby.Common.Types.{
  VotingPower, block, agenda, agenda_proof, PublicKey, BlockHeader, ReservedState, Agenda,
  AgendaProof,
}
use pdao_simperby.Common.LightClient.{update_all, IsAligned, update_all-new-IsAligned}
use pdao_simperby.Common.Sequence.{new, apply_commit, CommitSequenceVerifier}
use pdao_simperby.Common.Chains.{
  apply_all, IsChain, blocks_of, apply_all-IsChain, apply_commit-block, apply_commit-error,
}
use pdao_simperby.Common.Encoding.{
  header_hash, verify_typed, calculate_commit_merkle_root, commit_hash, agenda_hash_of,
  calculate_hash,
}
use pdao_simperby.Common.Errors.{agenda_proof_phase, block_phase, invalid_argument}
use pdao_simperby.Common.Fixtures.{alice, by_alice, genesis, first_block, toy, start_state}

abbrev plan : Agenda
plan = record { author = alice; timestamp = pos 1; hash = record { hash = 48 ∷ [] } }

abbrev plan_proof : AgendaProof
plan_proof = record { agenda_hash = record { hash = 48 ∷ [] }; proof = by_alice ∷ [] }

abbrev verifier : CommitSequenceVerifier
verifier = record {
  header = genesis;
  phase = agenda_proof_phase plan_proof;
  reserved_state = start_state;
  commits = agenda plan ∷ agenda_proof plan_proof ∷ [];
}

abbrev closed : CommitSequenceVerifier
closed = record {
  header = first_block;
  phase = block_phase;
  reserved_state = start_state;
  commits = block first_block ∷ [];
}

first_block_closes : apply_commit toy (block first_block) verifier ≡ returns (none, closed)
unfolding apply_commit verify_header_to_header bytes_eq header_hash hash_bytes
    verify_finalization_proof first_forged verify_typed sum64 calculate_commit_merkle_root root
    merkle_tree merkle_levels upper_level root_of aggregate commit_hash
first_block_closes = refl

apply_commit-block_example :
    (verify_header_to_header toy genesis first_block ≡ none) × (closed ≡ closed)
apply_commit-block_example = apply_commit-block toy first_block verifier closed first_block_closes

whole_block_applies :
    apply_all toy
      (agenda plan ∷ agenda_proof plan_proof ∷ block first_block ∷ [])
      (new genesis start_state)
    ≡ returns (none, closed)
unfolding apply_all apply_commit new agenda_hash_of calculate_hash decimal decimal_from
    verify_header_to_header bytes_eq header_hash hash_bytes verify_finalization_proof first_forged
    verify_typed sum64 calculate_commit_merkle_root root merkle_tree merkle_levels upper_level
    root_of aggregate commit_hash
whole_block_applies = refl

apply_all-IsChain_example : IsChain toy genesis (first_block ∷ []) first_block
unfolding new blocks_of
apply_all-IsChain_example =
    apply_all-IsChain toy (agenda plan ∷ agenda_proof plan_proof ∷ block first_block ∷ [])
      (new genesis start_state) closed whole_block_applies

abbrev stale_block : BlockHeader
stale_block = record first_block { height = 2 }

stale_block_refused :
    apply_commit toy (block stale_block) verifier
    ≡ returns (some (invalid_argument "invalid height"), verifier)
unfolding apply_commit verify_header_to_header bytes_eq header_hash hash_bytes
    verify_finalization_proof first_forged verify_typed sum64 calculate_commit_merkle_root root
    merkle_tree merkle_levels upper_level root_of aggregate commit_hash
stale_block_refused = refl

apply_commit-error_example : verifier ≡ verifier
apply_commit-error_example =
    apply_commit-error toy (block stale_block) (invalid_argument "invalid height") verifier verifier
      stale_block_refused

alice_suffices : verify_finalization_proof toy genesis (by_alice ∷ []) ≡ none
unfolding verify_header_to_header bytes_eq header_hash hash_bytes verify_finalization_proof
    first_forged verify_typed sum64 calculate_commit_merkle_root root merkle_tree merkle_levels
    upper_level root_of aggregate commit_hash
alice_suffices = refl

verify_finalization_proof_overlap_example :
    Common (signers (by_alice ∷ [])) (signers (by_alice ∷ []))
unfolding powers
verify_finalization_proof_overlap_example =
    verify_finalization_proof_overlap toy genesis genesis (by_alice ∷ []) (by_alice ∷ []) refl
      (omega arith) alice_suffices alice_suffices

verify_header_to_header_iff_example :
    (verify_header_to_header toy genesis first_block ≡ none) ↔ IsChild toy genesis first_block
verify_header_to_header_iff_example = verify_header_to_header_iff toy genesis first_block

update_all-new-IsAligned_example :
    IsAligned (update_all toy ((first_block, by_alice ∷ []) ∷ []) (LightClient.new genesis))
update_all-new-IsAligned_example =
    update_all-new-IsAligned toy ((first_block, by_alice ∷ []) ∷ []) genesis (omega arith)

-- Two members, of whom the second leads first.
abbrev two_members : ReservedState
two_members = record {
  genesis_info = record { header = genesis; genesis_proof = []; chain_name = [] };
  members =
      record {
        public_key = alice;
        name = [];
        governance_voting_power = 1;
        consensus_voting_power = 3;
        governance_delegations = none;
        consensus_delegations = none;
      }
      ∷ record {
        public_key = record { key = 2 ∷ [] };
        name = [];
        governance_voting_power = 1;
        consensus_voting_power = 4;
        governance_delegations = none;
        consensus_delegations = none;
      }
      ∷ [];
  consensus_leader_order = 1 ∷ 0 ∷ [];
  version = [];
}

create_validator_set_cases_example :
    ((vs : List (PublicKey × VotingPower)) × (create_validator_set two_members ≡ ok vs)
      × IsOrdered two_members.members (1 ∷ 0 ∷ []) vs)
    ⊎ ((l : ℕ) × Elem l (1 ∷ 0 ∷ [])
        × (2 ≤ l)
        × (create_validator_set two_members ≡ err "invalid consensus_leader_order"))
create_validator_set_cases_example = create_validator_set_cases two_members

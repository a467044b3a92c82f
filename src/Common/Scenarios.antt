-- ===== src/Common/Scenarios.antt =====
-- Concrete trees for the theorems on common/src/merkle_tree.rs, with a hash function to compute by.
use pdao_simperby.Common.Merkle.{scan_levels, scan_level}
use pdao_simperby.Prelude.{ℕ, ◌≡◌, refl, arith, true, none, some, List, [], ◌∷◌, ◌⊎◌}
use pdao_simperby.Common.Bytes.{bytes_eq, Bytes}
use pdao_simperby.Common.Hash.{Hash256, hash_bytes, aggregate}
use pdao_simperby.Common.Merkle.{
  contains, MerkleProof, create_merkle_proof, verify, root, merkle_tree, create, climb,
  merkle_levels, root_of, last_hash, upper_level, right_child,
}
use pdao_simperby.Common.Merkle.Binding.{Collision, verify-binds}
use pdao_simperby.Common.Merkle.Proofs.{create_merkle_proof-verify}
use pdao_simperby.Common.Merkle.Levels.{merkle_tree_total}
use pdao_simperby.Common.Merkle.Nodes.{inner_nodes_verify}

abbrev toy_blake3 : Bytes → Bytes
toy_blake3 bytes = 7 ∷ bytes

abbrev leaf : ℕ → Hash256
leaf n = record { hash = 7 ∷ n ∷ [] }

abbrev three_leaves : List Hash256
three_leaves = leaf 1 ∷ leaf 2 ∷ leaf 3 ∷ []

three_leaves_contain : contains three_leaves (hash_bytes toy_blake3 (3 ∷ [])) ≡ true
unfolding contains hash_bytes bytes_eq
three_leaves_contain = refl

create_merkle_proof-verify_example :
    (p : MerkleProof) × (r : Hash256) × (create_merkle_proof toy_blake3
        (create three_leaves)
        (hash_bytes toy_blake3 (3 ∷ []))
      ≡ some p)
    × (root toy_blake3 (create three_leaves) ≡ some r)
    × (verify toy_blake3 p r (3 ∷ []) ≡ none)
create_merkle_proof-verify_example =
    create_merkle_proof-verify toy_blake3 three_leaves (3 ∷ []) three_leaves_contain

three_leaves_lack_four : create_merkle_proof toy_blake3 (create three_leaves) (leaf 4) ≡ none
unfolding create_merkle_proof contains bytes_eq
three_leaves_lack_four = refl

abbrev root_of_two : Hash256
root_of_two = record { hash = 7 ∷ 7 ∷ 1 ∷ 7 ∷ 2 ∷ [] }

-- A hash function with collisions: it keeps two bytes.
unfoldable short_blake3 : Bytes → Bytes
short_blake3 (x ∷ y ∷ rest) = x ∷ y ∷ []
short_blake3 short = short

abbrev shallow_proof : MerkleProof
shallow_proof = record { proof = right_child (leaf 1) ∷ [] }

abbrev shallow_root : Hash256
shallow_root = record { hash = 2 ∷ 3 ∷ [] }

one_datum_verifies : verify short_blake3 shallow_proof shallow_root (2 ∷ 3 ∷ 4 ∷ []) ≡ none
unfolding verify climb aggregate hash_bytes bytes_eq short_blake3
one_datum_verifies = refl

other_datum_verifies : verify short_blake3 shallow_proof shallow_root (2 ∷ 3 ∷ 5 ∷ []) ≡ none
unfolding verify climb aggregate hash_bytes bytes_eq short_blake3
other_datum_verifies = refl

verify-binds_example : ◌≡◌ {A = Bytes} (2 ∷ 3 ∷ 4 ∷ []) (2 ∷ 3 ∷ 5 ∷ []) ⊎ Collision short_blake3
verify-binds_example =
    verify-binds short_blake3 shallow_proof shallow_root (2 ∷ 3 ∷ 4 ∷ []) (2 ∷ 3 ∷ 5 ∷ [])
      one_datum_verifies other_datum_verifies

-- The proof for the first of three leaves has two entries; the first two leaves pass for one datum.
abbrev first_of_three : MerkleProof
first_of_three = record {
  proof = right_child (leaf 2) ∷ right_child (record { hash = 7 ∷ 7 ∷ 3 ∷ [] }) ∷ [];
}

first_of_three_made :
    create_merkle_proof toy_blake3 (create three_leaves) (hash_bytes toy_blake3 (1 ∷ []))
    ≡ some first_of_three
unfolding create_merkle_proof contains merkle_tree merkle_levels upper_level scan_levels scan_level
    aggregate hash_bytes bytes_eq
first_of_three_made = refl

abbrev root_of_three : Hash256
root_of_three = record { hash = 7 ∷ 7 ∷ 7 ∷ 1 ∷ 7 ∷ 2 ∷ 7 ∷ 7 ∷ 3 ∷ [] }

root_of_three_lem : root toy_blake3 (create three_leaves) ≡ some root_of_three
unfolding root merkle_tree merkle_levels root_of last_hash upper_level aggregate hash_bytes
root_of_three_lem = refl

inner_nodes_verify_example :
    verify toy_blake3
      (record { proof = right_child (record { hash = 7 ∷ 7 ∷ 3 ∷ [] }) ∷ [] })
      root_of_three
      (7 ∷ 1 ∷ 7 ∷ 2 ∷ [])
    ≡ none
unfolding climb hash_bytes
inner_nodes_verify_example =
    inner_nodes_verify toy_blake3 three_leaves (1 ∷ []) []
      (right_child (record { hash = 7 ∷ 7 ∷ 3 ∷ [] }) ∷ []) (right_child (leaf 2)) root_of_three
      first_of_three_made root_of_three_lem

merkle_tree_total_example :
    (levels : List (List Hash256)) × (merkle_tree toy_blake3 three_leaves ≡ some levels)
merkle_tree_total_example = merkle_tree_total toy_blake3 three_leaves (omega arith)

-- ===== src/Common/Merkle/Nodes.antt =====
-- `create_merkle_proof` and `verify` of common/src/merkle_tree.rs: the inner nodes of a tree pass for data.
use pdao_simperby.Prelude.{
  ◌≡◌, arith, none, some, true, List, [], ◌∷◌, ◌++◌, refl, sym, Bool-cases, ◌∙◌, inl, ap, inr,
}
use pdao_simperby.Common.Bytes.{Bytes}
use pdao_simperby.Common.Hash.{Hash256, hash_eq_refl, aggregate, hash_bytes}
use pdao_simperby.Common.Merkle.{
  left_child, right_child, only_child, MerkleProofEntry, climb, verify, contains,
  create_merkle_proof, create, root, MerkleProof,
}
use pdao_simperby.Common.Merkle.Proofs.{create_merkle_proof-verify}
use pdao_simperby.Common.Merkle.Binding.{verify_root}

-- The bytes whose hash is the parent of a node: those of its children.
abbrev pub children : MerkleProofEntry → Hash256 → Bytes
children (left_child pair) node = pair.hash ++ node.hash
children (right_child pair) node = node.hash ++ pair.hash
children only_child node = node.hash

module _ (blake3 : Bytes → Bytes) where
  climb-append :
      (below above : List MerkleProofEntry) (node : Hash256)
      → climb blake3 node (below ++ above) ≡ climb blake3 (climb blake3 node below) above
  unfolding climb
  climb-append [] above node = refl
  climb-append (left_child pair ∷ below) above node =
      climb-append below above (aggregate blake3 pair node)
  climb-append (right_child pair ∷ below) above node =
      climb-append below above (aggregate blake3 node pair)
  climb-append (only_child ∷ below) above node =
      climb-append below above (hash_bytes blake3 node.hash)

  climb-cons :
      (step : MerkleProofEntry) (above : List MerkleProofEntry) (node : Hash256)
      → climb blake3 node (step ∷ above)
        ≡ climb blake3 (hash_bytes blake3 (children step node)) above
  unfolding climb aggregate
  climb-cons (left_child pair) above node = refl
  climb-cons (right_child pair) above node = refl
  climb-cons only_child above node = refl

  contains_of_proof :
      (hash_list : List Hash256) (key : Hash256) {p : MerkleProof}
      → create_merkle_proof blake3 (create hash_list) key ≡ some p
      → contains hash_list key ≡ true
  unfolding create_merkle_proof
  contains_of_proof hash_list key h = elim (Bool-cases (contains hash_list key)) [
    | inl e ↦ e
    | inr e ↦ absurd (ground (arith, e, h))
  ]

  -- The tree does not tell a node from a leaf. Take a proof that `create_merkle_proof` gives for data of any
  -- tree, and any place in it: for the node reached by the entries before that place, the bytes of the node
  -- and its sibling together, or of the node alone where it has no sibling, are accepted by `verify` as data
  -- of the tree, with the root of the tree and the entries after that place as the proof.
  pub inner_nodes_verify :
      (hash_list : List Hash256) (bytes : Bytes) (below above : List MerkleProofEntry)
      (step : MerkleProofEntry) (r : Hash256)
      → create_merkle_proof blake3 (create hash_list) (hash_bytes blake3 bytes)
        ≡ some (record { proof = below ++ step ∷ above })
      → root blake3 (create hash_list) ≡ some r
      → verify blake3
          (record { proof = above })
          r
          (children step (climb blake3 (hash_bytes blake3 bytes) below))
        ≡ none
  unfolding verify
  inner_nodes_verify hash_list bytes below above step r made found =
      let (p, q, made', found', accepted) =
        create_merkle_proof-verify blake3 hash_list bytes
          (contains_of_proof hash_list (hash_bytes blake3 bytes) made) in
      let node = climb blake3 (hash_bytes blake3 bytes) below in
      let same : q ≡ r = cc in
      let whole : p ≡ record { proof = below ++ step ∷ above } = cc in
      let top = verify_root blake3 p q bytes accepted in
      let reached : r ≡ climb blake3 (hash_bytes blake3 (children step node)) above =
        sym same
        ∙ top
        ∙ ap (λ (x : MerkleProof). climb blake3 (hash_bytes blake3 bytes) x.proof) whole
        ∙ climb-append below (step ∷ above) (hash_bytes blake3 bytes)
        ∙ climb-cons step above node in
      rw (← reached) (ground (arith, hash_eq_refl r))

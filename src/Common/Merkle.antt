-- ===== src/Common/Merkle.antt =====
-- common/src/merkle_tree.rs: `OneshotMerkleTree` and `MerkleProof`.
pub mod Binding
pub mod Levels
pub mod Proofs
pub mod Nodes
use pdao_simperby.Prelude.{
  ℕ, zero, suc, ◌≡◌, arith, Bool, true, false, ◌||◌, Option, none, some, List, [], ◌∷◌, ◌++◌,
  length, ◌==◌, if◌then◌else◌,
}
use pdao_simperby.Common.Bytes.{Bytes}
use pdao_simperby.Common.Hash.{Hash256, hash_eq, zero_hash, hash_bytes, aggregate}

pub record OneshotMerkleTree : Type 0 where
  pub hash_list : List Hash256

pub data MerkleProofEntry : Type 0 where
  left_child : Hash256 → MerkleProofEntry
  right_child : Hash256 → MerkleProofEntry
  only_child : MerkleProofEntry

pub record MerkleProof : Type 0 where
  pub proof : List MerkleProofEntry

-- The texts of the second are the two hashes in hexadecimal; the hashes stand for them.
pub data MerkleProofError : Type 0 where
  malformed_proof : MerkleProofError
  unmatched_root : (expected found : Hash256) → MerkleProofError

-- `OneshotMerkleTree::create`.
abbrev pub create : List Hash256 → OneshotMerkleTree
create hash_list = record { hash_list = hash_list }

-- `contains`.
unfoldable pub contains : List Hash256 → Hash256 → Bool
contains [] key = false
contains (h ∷ hs) key = hash_eq h key || contains hs key

-- The hash in the last place of the last level.
unfoldable pub last_hash : List Hash256 → Option Hash256
last_hash [] = none
last_hash (h ∷ []) = some h
last_hash (g ∷ h ∷ hs) = last_hash (h ∷ hs)

unfoldable pub root_of : List (List Hash256) → Option Hash256
unfolding last_hash
root_of [] = none
root_of (level ∷ []) = last_hash level
root_of (l ∷ level ∷ levels) = root_of (level ∷ levels)

module _ (blake3 : Bytes → Bytes) where
  -- The `for pair in level.chunks(2)` of `merkle_tree`.
  unfoldable pub upper_level : List Hash256 → List Hash256
  upper_level [] = []
  upper_level (a ∷ []) = hash_bytes blake3 a.hash ∷ []
  upper_level (a ∷ b ∷ rest) = aggregate blake3 a b ∷ upper_level rest

  -- The `while` of `merkle_tree` on fuel: the levels from the given one up to the root. `none` means
  -- that the fuel ran out.
  unfoldable pub merkle_levels : ℕ → List Hash256 → Option (List (List Hash256))
  merkle_levels zero level = if length level == 1 then some (level ∷ []) else none
  merkle_levels (suc fuel) level = elim (length level == 1) [
    | true ↦ some (level ∷ [])
    | false ↦ elim (merkle_levels fuel (upper_level level)) [
      | none ↦ none
      | some levels ↦ some (level ∷ levels)
    ]
  ]

  -- A level of two or more has a shorter one above it, so its length is fuel enough.
  unfoldable pub merkle_tree : List Hash256 → Option (List (List Hash256))
  merkle_tree hash_list = merkle_levels (length hash_list) hash_list

  -- `OneshotMerkleTree::root`; `none` is an `unwrap` that panics or a loop that does not end.
  unfoldable pub root : OneshotMerkleTree → Option Hash256
  root tree = elim tree.hash_list [
    | [] ↦ some zero_hash
    | h ∷ hs ↦ elim (merkle_tree (h ∷ hs)) [ none ↦ none | some levels ↦ root_of levels ]
  ]

  -- The `for pair in level.chunks(2)` of `create_merkle_proof`: the entries so far, and the target.
  unfoldable pub scan_level :
      List Hash256 → List MerkleProofEntry → Hash256 → List MerkleProofEntry × Hash256
  scan_level [] proof target = (proof, target)
  scan_level (a ∷ []) proof target =
      if hash_eq a target
      then (proof ++ only_child ∷ [], hash_bytes blake3 a.hash)
      else (proof, target)
  scan_level (a ∷ b ∷ rest) proof target =
      let found = hash_eq a target || hash_eq b target in
      let entry = if hash_eq a target then right_child b else left_child a in
      scan_level rest (if found then proof ++ entry ∷ [] else proof)
        (if found then aggregate blake3 a b else target)

  -- The levels but the last, which is the root's.
  unfoldable pub scan_levels :
      List (List Hash256) → List MerkleProofEntry → Hash256 → List MerkleProofEntry
  scan_levels [] proof target = proof
  scan_levels (level ∷ []) proof target = proof
  scan_levels (level ∷ above ∷ levels) proof target =
      let (proof', target') = scan_level level proof target in
      scan_levels (above ∷ levels) proof' target'

  unfoldable pub create_merkle_proof : OneshotMerkleTree → Hash256 → Option MerkleProof
  create_merkle_proof tree key =
      if contains tree.hash_list key
      then elim (merkle_tree tree.hash_list) [
        | none ↦ none
        | some levels ↦ some (record { proof = scan_levels levels [] key })
      ]
      else none

  unfoldable pub climb : Hash256 → List MerkleProofEntry → Hash256
  climb calculated [] = calculated
  climb calculated (left_child pair_hash ∷ proof) =
      climb (aggregate blake3 pair_hash calculated) proof
  climb calculated (right_child pair_hash ∷ proof) =
      climb (aggregate blake3 calculated pair_hash) proof
  climb calculated (only_child ∷ proof) = climb (hash_bytes blake3 calculated.hash) proof

  -- `MerkleProof::verify`: `none` is `Ok(())`.
  unfoldable pub verify : MerkleProof → Hash256 → Bytes → Option MerkleProofError
  verify p root data' =
      let calculated = climb (hash_bytes blake3 data') p.proof in
      if hash_eq root calculated then none else some (unmatched_root root calculated)

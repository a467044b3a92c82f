-- ===== src/Common/Merkle/Proofs.antt =====
-- `create_merkle_proof` and `verify` of common/src/merkle_tree.rs: the proofs lead to the root.
use pdao_simperby.Prelude.{
  ℕ, zero, suc, ◌≡◌, ◌⊎◌, inl, inr, refl, arith, true, none, some, List, [], ◌∷◌, ◌++◌, length,
  Bool-cases, ◌||◌, if◌then◌else◌, Option-cases,
}
use pdao_simperby.Common.Bytes.{Bytes}
use pdao_simperby.Common.Merkle.{
  upper_level, merkle_levels, merkle_tree, climb, scan_level, Hash256, contains, MerkleProofEntry,
  left_child, right_child, only_child, root_of, scan_levels, last_hash, create_merkle_proof, root,
  verify, MerkleProof, create, false,
}
use pdao_simperby.Common.Hash.{hash_eq_refl, aggregate, hash_bytes, hash_eq, eq_of_hash_eq}
use pdao_simperby.Common.Merkle.Levels.{merkle_tree_total}

module _ (blake3 : Bytes → Bytes) where
  climb-append :
      (k : Hash256) (xs ys : List MerkleProofEntry)
      → climb blake3 k (xs ++ ys) ≡ climb blake3 (climb blake3 k xs) ys
  unfolding climb
  climb-append k [] ys = refl
  climb-append k (left_child h ∷ xs) ys = climb-append (aggregate blake3 h k) xs ys
  climb-append k (right_child h ∷ xs) ys = climb-append (aggregate blake3 k h) xs ys
  climb-append k (only_child ∷ xs) ys = climb-append (hash_bytes blake3 k.hash) xs ys

  -- A scan leaves the target, or moves it to the level above.
  scan_level_moves :
      (l : List Hash256) (proof : List MerkleProofEntry) (t : Hash256)
      → ((scan_level blake3 l proof t).1 ≡ t)
        ⊎ (contains (upper_level blake3 l) (scan_level blake3 l proof t).1 ≡ true)
  unfolding scan_level upper_level contains
  scan_level_moves [] proof t = inl refl
  scan_level_moves (a ∷ []) proof t = ground (arith, hash_eq_refl (hash_bytes blake3 a.hash))
  scan_level_moves (a ∷ b ∷ l) proof t = elim (Bool-cases (hash_eq a t || hash_eq b t)) [
    | inl e ↦
        elim (scan_level_moves l
          (proof ++ (if hash_eq a t then right_child b else left_child a) ∷ [])
          (aggregate blake3 a b)) [
            | inl k ↦ inr (ground (arith, hash_eq_refl (aggregate blake3 a b)))
            | inr k ↦ inr (ground arith)
          ]
    | inr e ↦ elim (scan_level_moves l proof t) [
      | inl k ↦ inl (ground arith)
      | inr k ↦ inr (ground arith)
    ]
  ]

  -- A target of the level scanned becomes one of the level above.
  scan_level-contains :
      (l : List Hash256) (proof : List MerkleProofEntry) (t : Hash256)
      → contains l t ≡ true
      → contains (upper_level blake3 l) (scan_level blake3 l proof t).1 ≡ true
  unfolding scan_level upper_level contains
  scan_level-contains [] proof t h = absurd (ground arith)
  scan_level-contains (a ∷ []) proof t h = ground (arith, hash_eq_refl (hash_bytes blake3 a.hash))
  scan_level-contains (a ∷ b ∷ l) proof t h = elim (Bool-cases (hash_eq a t || hash_eq b t)) [
    | inl e ↦
        elim (scan_level_moves l
          (proof ++ (if hash_eq a t then right_child b else left_child a) ∷ [])
          (aggregate blake3 a b)) [
            | inl k ↦ ground (arith, hash_eq_refl (aggregate blake3 a b))
            | inr k ↦ ground arith
          ]
    | inr e ↦ ground (arith, scan_level-contains l proof t)
  ]

  climb-step :
      (k t : Hash256) (proof : List MerkleProofEntry) (entry : MerkleProofEntry)
      → climb blake3 k proof ≡ t
      → climb blake3 k (proof ++ entry ∷ []) ≡ climb blake3 t (entry ∷ [])
  climb-step k t proof entry h = ground (arith, climb-append k proof (entry ∷ []))

  -- One pair: the entry pushed leads to the hash of the pair.
  scan_pair-climb :
      (a b : Hash256) (proof : List MerkleProofEntry) (k t : Hash256)
      → climb blake3 k proof ≡ t
      → climb blake3 k (
          if hash_eq a t || hash_eq b t
          then proof ++ (if hash_eq a t then right_child b else left_child a) ∷ []
          else proof)
        ≡ (if hash_eq a t || hash_eq b t then aggregate blake3 a b else t)
  unfolding climb
  scan_pair-climb a b proof k t h = elim (Bool-cases (hash_eq a t)) [
    | inl e ↦ ground (arith, eq_of_hash_eq a t e, climb-step k t proof (right_child b) h)
    | inr e ↦ elim (Bool-cases (hash_eq b t)) [
      | inl f ↦ ground (arith, eq_of_hash_eq b t f, climb-step k t proof (left_child a) h)
      | inr f ↦ ground arith
    ]
  ]

  -- The entries that a scan adds lead from the old target to the new one.
  scan_level-climb :
      (l : List Hash256) (proof : List MerkleProofEntry) (k t : Hash256)
      → climb blake3 k proof ≡ t
      → climb blake3 k (scan_level blake3 l proof t).0 ≡ (scan_level blake3 l proof t).1
  unfolding scan_level climb
  scan_level-climb [] proof k t h = h
  scan_level-climb (a ∷ []) proof k t h = elim (Bool-cases (hash_eq a t)) [
    | inl e ↦ ground (arith, eq_of_hash_eq a t e, climb-step k t proof only_child h)
    | inr e ↦ ground arith
  ]
  scan_level-climb (a ∷ b ∷ l) proof k t h =
      scan_level-climb l
        (if hash_eq a t || hash_eq b t
          then proof ++ (if hash_eq a t then right_child b else left_child a) ∷ []
          else proof)
        k (if hash_eq a t || hash_eq b t then aggregate blake3 a b else t)
        (scan_pair-climb a b proof k t h)

  scan_levels-one :
      (a : Hash256) (proof : List MerkleProofEntry) (k t : Hash256)
      → contains (a ∷ []) t ≡ true
      → climb blake3 k proof ≡ t
      → some a ≡ some (climb blake3 k proof)
  unfolding contains
  scan_levels-one a proof k t c h = elim (Bool-cases (hash_eq a t)) [
    | inl e ↦ ground (arith, eq_of_hash_eq a t e)
    | inr e ↦ absurd (ground arith)
  ]

  -- A level under levels that lead to the root.
  scan_levels-cons :
      (level : List Hash256) (levels : List (List Hash256)) (proof : List MerkleProofEntry)
      (k t : Hash256)
      → root_of levels
        ≡ some (
            climb blake3 k (
              scan_levels blake3 levels
                (scan_level blake3 level proof t).0
                (scan_level blake3 level proof t).1))
      → root_of (level ∷ levels)
        ≡ some (climb blake3 k (scan_levels blake3 (level ∷ levels) proof t))
  unfolding root_of scan_levels
  scan_levels-cons level [] proof k t h = absurd (ground arith)
  scan_levels-cons level (above ∷ levels) proof k t h = h

  -- A proof through the levels leads from the data's hash to the root.
  scan_levels-root :
      (fuel : ℕ) (level : List Hash256) (levels : List (List Hash256))
      (proof : List MerkleProofEntry) (k t : Hash256)
      → merkle_levels blake3 fuel level ≡ some levels
      → contains level t ≡ true
      → climb blake3 k proof ≡ t
      → root_of levels ≡ some (climb blake3 k (scan_levels blake3 levels proof t))
  unfolding merkle_levels root_of scan_levels last_hash contains
  scan_levels-root fuel [] levels proof k t e c h = absurd (ground arith)
  scan_levels-root zero (a ∷ []) levels proof k t e c h =
      ground (arith, scan_levels-one a proof k t c h)
  scan_levels-root (suc fuel) (a ∷ []) levels proof k t e c h =
      ground (arith, scan_levels-one a proof k t c h)
  scan_levels-root zero (a ∷ b ∷ l) levels proof k t e c h = absurd (ground arith)
  scan_levels-root (suc fuel) (a ∷ b ∷ l) levels proof k t e c h =
      elim (Option-cases (merkle_levels blake3 fuel (upper_level blake3 (a ∷ b ∷ l)))) [
        | inl f ↦ absurd (ground arith)
        | inr (ls, f) ↦
            let step = scan_levels-cons (a ∷ b ∷ l) ls proof k t (
              scan_levels-root fuel (upper_level blake3 (a ∷ b ∷ l)) ls
                (scan_level blake3 (a ∷ b ∷ l) proof t).0 k
                (scan_level blake3 (a ∷ b ∷ l) proof t).1 f
                (scan_level-contains (a ∷ b ∷ l) proof t c)
                (scan_level-climb (a ∷ b ∷ l) proof k t h)) in
            ground (arith, step)
      ]

  -- For data whose hash is in the list of a tree, `create_merkle_proof` returns a proof, `root` returns
  -- a hash, and `verify` accepts the proof against that root for that data. It holds of every list
  -- and every hash function.
  pub create_merkle_proof-verify :
      (hash_list : List Hash256) (bytes : Bytes)
      → contains hash_list (hash_bytes blake3 bytes) ≡ true
      → (p : MerkleProof) × (r : Hash256) × (create_merkle_proof blake3
            (create hash_list)
            (hash_bytes blake3 bytes)
          ≡ some p)
        × (root blake3 (create hash_list) ≡ some r)
        × (verify blake3 p r bytes ≡ none)
  unfolding create_merkle_proof root verify contains merkle_tree climb
  create_merkle_proof-verify [] bytes h = absurd (ground arith)
  create_merkle_proof-verify (a ∷ l) bytes h =
      let (levels, e) = merkle_tree_total blake3 (a ∷ l) (omega arith) in
      let key = hash_bytes blake3 bytes in
      let p : MerkleProof = record { proof = scan_levels blake3 levels [] key } in
      let r = climb blake3 key p.proof in
      let k = scan_levels-root (length (a ∷ l)) (a ∷ l) levels [] key key e h refl in
      (p, r, ground (arith, e, h), ground (arith, e, k), ground (arith, hash_eq_refl r))

  -- `create_merkle_proof` returns `None` of a key that is not in the list only.
  create_merkle_proof-none :
      (hash_list : List Hash256) (key : Hash256)
      → create_merkle_proof blake3 (create hash_list) key ≡ none
      → contains hash_list key ≡ false
  unfolding create_merkle_proof contains
  create_merkle_proof-none [] key h = refl
  create_merkle_proof-none (a ∷ l) key h = elim (Bool-cases (contains (a ∷ l) key)) [
    | inl c ↦
        let (levels, e) = merkle_tree_total blake3 (a ∷ l) (omega arith) in absurd (ground arith)
    | inr c ↦ c
  ]

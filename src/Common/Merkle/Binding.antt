-- ===== src/Common/Merkle/Binding.antt =====
-- What `verify` of common/src/merkle_tree.rs tells about the data: a proof binds it.
use mathlib.Core.List.{append-nil, append_cancel_left, append_cancel_right}
use pdao_simperby.Prelude.{◌≡◌, ◌≢◌, ◌⊎◌, inl, inr, arith, none, List, [], ◌∷◌, ◌++◌, Bool-cases}
use pdao_simperby.Common.Bytes.{Bytes, bytes_eq, eq_of_bytes_eq, bytes_eq_refl}
use pdao_simperby.Common.Hash.{Hash256, aggregate, hash_bytes, hash_eq, eq_of_hash_eq}
use pdao_simperby.Common.Merkle.{
  MerkleProof, MerkleProofEntry, left_child, right_child, only_child, climb, verify,
}

module _ (blake3 : Bytes → Bytes) where
  -- Two byte sequences with one hash.
  pub Collision : Type 0
  Collision = (x : Bytes) × (y : Bytes) × (x ≢ y) × (blake3 x ≡ blake3 y)

  hash_eq_of : (g h : Hash256) → g.hash ≡ h.hash → g ≡ h
  hash_eq_of g h e = cc

  pub hash_cases : (x y : Bytes) → hash_bytes blake3 x ≡ hash_bytes blake3 y → (x ≡ y) ⊎ Collision
  unfolding Collision hash_bytes
  hash_cases x y h = elim (Bool-cases (bytes_eq x y)) [
    | inl e ↦ inl (eq_of_bytes_eq x y e)
    | inr e ↦ inr (x, y, (λ k. ground (arith, k, bytes_eq_refl x)), cc)
  ]

  -- Two hashes that hash alike inside the same siblings are the same, or there is a collision.
  pub siblings_bind :
      (before after : Bytes) (g h : Hash256)
      → hash_bytes blake3 (before ++ (g.hash ++ after))
        ≡ hash_bytes blake3 (before ++ (h.hash ++ after))
      → (g ≡ h) ⊎ Collision
  siblings_bind before after g h e =
      elim (hash_cases (before ++ (g.hash ++ after)) (before ++ (h.hash ++ after)) e) [
        | inl k ↦
            let k' = append_cancel_left before (g.hash ++ after) (h.hash ++ after) k in
            let k'' = append_cancel_right g.hash h.hash after k' in inl (hash_eq_of g h k'')
        | inr c ↦ inr c
      ]

  climb-binds :
      (proof : List MerkleProofEntry) (g h : Hash256)
      → climb blake3 g proof ≡ climb blake3 h proof
      → (g ≡ h) ⊎ Collision
  unfolding climb aggregate
  climb-binds [] g h e = inl e
  climb-binds (left_child pair ∷ proof) g h e =
      elim (climb-binds proof (aggregate blake3 pair g) (aggregate blake3 pair h) e) [
        | inl k ↦ siblings_bind pair.hash [] g h (simp (append-nil, k))
        | inr c ↦ inr c
      ]
  climb-binds (right_child pair ∷ proof) g h e =
      elim (climb-binds proof (aggregate blake3 g pair) (aggregate blake3 h pair) e) [
        | inl k ↦ siblings_bind [] pair.hash g h k
        | inr c ↦ inr c
      ]
  climb-binds (only_child ∷ proof) g h e =
      elim (climb-binds proof (hash_bytes blake3 g.hash) (hash_bytes blake3 h.hash) e) [
        | inl k ↦ siblings_bind [] [] g h (simp (append-nil, k))
        | inr c ↦ inr c
      ]

  pub verify_root :
      (p : MerkleProof) (r : Hash256) (xs : Bytes)
      → verify blake3 p r xs ≡ none
      → r ≡ climb blake3 (hash_bytes blake3 xs) p.proof
  unfolding verify
  verify_root p r xs h =
      elim (Bool-cases (hash_eq r (climb blake3 (hash_bytes blake3 xs) p.proof))) [
        | inl e ↦ eq_of_hash_eq r (climb blake3 (hash_bytes blake3 xs) p.proof) e
        | inr e ↦ absurd (ground arith)
      ]

  -- Where one proof is accepted against one root for two data, the data are the same, or they give
  -- two different byte sequences with the same `blake3`.
  pub verify-binds :
      (p : MerkleProof) (r : Hash256) (xs ys : Bytes)
      → verify blake3 p r xs ≡ none
      → verify blake3 p r ys ≡ none
      → (xs ≡ ys) ⊎ Collision
  unfolding verify
  verify-binds p r xs ys h k =
      elim (climb-binds p.proof (hash_bytes blake3 xs) (hash_bytes blake3 ys)
        (ground (arith, verify_root p r xs h, verify_root p r ys k))) [
          | inl e ↦ hash_cases xs ys e
          | inr c ↦ inr c
        ]

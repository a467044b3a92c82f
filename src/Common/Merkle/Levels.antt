-- ===== src/Common/Merkle/Levels.antt =====
-- `merkle_tree` of common/src/merkle_tree.rs: the loop that builds the levels ends.
use pdao_simperby.Prelude.{
  ℕ, zero, suc, ◌≤◌, ◌<◌, ◌≡◌, refl, arith, none, some, List, [], ◌∷◌, length,
}
use pdao_simperby.Common.Bytes.{Bytes}
use pdao_simperby.Common.Merkle.{upper_level, merkle_levels, merkle_tree, Hash256}

module _ (blake3 : Bytes → Bytes) where
  -- Above a level of two or more stands a shorter one, and above none an empty one only.
  upper_level-lt :
      (a b : Hash256) (l : List Hash256)
      → length (upper_level blake3 (a ∷ b ∷ l)) < length (a ∷ b ∷ l)
  unfolding upper_level
  upper_level-lt a b [] = omega arith
  upper_level-lt a b (c ∷ []) = omega arith
  upper_level-lt a b (c ∷ d ∷ l) = omega (arith, upper_level-lt c d l)

  upper_level-pos : (a : Hash256) (l : List Hash256) → 0 < length (upper_level blake3 (a ∷ l))
  unfolding upper_level
  upper_level-pos a [] = omega arith
  upper_level-pos a (b ∷ l) = omega arith

  merkle_levels_total :
      (fuel : ℕ) (level : List Hash256)
      → 0 < length level
      → length level ≤ suc fuel
      → (levels : List (List Hash256)) × (merkle_levels blake3 fuel level ≡ some levels)
  unfolding merkle_levels
  merkle_levels_total fuel [] h k = absurd (omega arith)
  merkle_levels_total zero (a ∷ []) h k = ((a ∷ []) ∷ [], refl)
  merkle_levels_total (suc fuel) (a ∷ []) h k = ((a ∷ []) ∷ [], refl)
  merkle_levels_total zero (a ∷ b ∷ l) h k = absurd (omega arith)
  merkle_levels_total (suc fuel) (a ∷ b ∷ l) h k =
      let (ls, e) =
        merkle_levels_total fuel (upper_level blake3 (a ∷ b ∷ l)) (upper_level-pos a (b ∷ l))
          (omega (arith, upper_level-lt a b l)) in
      ((a ∷ b ∷ l) ∷ ls, ground arith)

  -- The loop that builds the tree ends with a tree wherever there is a hash at all.
  pub merkle_tree_total :
      (hash_list : List Hash256)
      → 0 < length hash_list
      → (levels : List (List Hash256)) × (merkle_tree blake3 hash_list ≡ some levels)
  unfolding merkle_tree
  merkle_tree_total hash_list h = merkle_levels_total (length hash_list) hash_list h (omega arith)

  -- Over an empty list it would go on for ever: no number of rounds is enough.
  pub merkle_levels_empty : (fuel : ℕ) → merkle_levels blake3 fuel [] ≡ none
  unfolding merkle_levels upper_level
  merkle_levels_empty zero = refl
  merkle_levels_empty (suc fuel) = ground (arith, merkle_levels_empty fuel)

-- ===== src/Common/Hash.antt =====
-- common/src/crypto.rs: `Hash256`. The function `blake3` is a parameter.
use pdao_simperby.Prelude.{◌≡◌, arith, Bool, true, ◌++◌, replicate}
use pdao_simperby.Common.Bytes.{Bytes, bytes_eq, eq_of_bytes_eq, bytes_eq_refl}

pub record Hash256 : Type 0 where
  pub hash : Bytes

-- `==` of `Hash256`.
abbrev pub hash_eq : Hash256 → Hash256 → Bool
hash_eq a b = bytes_eq a.hash b.hash

pub eq_of_hash_eq : (a b : Hash256) → hash_eq a b ≡ true → a ≡ b
eq_of_hash_eq a b h = ground (arith, eq_of_bytes_eq a.hash b.hash)

pub hash_eq_refl : (a : Hash256) → hash_eq a a ≡ true
hash_eq_refl a = bytes_eq_refl a.hash

-- `Hash256::zero()`.
abbrev pub zero_hash : Hash256
zero_hash = record { hash = replicate 32 0 }

module _ (blake3 : Bytes → Bytes) where
  -- `Hash256::hash`.
  unfoldable pub hash_bytes : Bytes → Hash256
  hash_bytes bytes = record { hash = blake3 bytes }

  unfoldable pub aggregate : Hash256 → Hash256 → Hash256
  unfolding hash_bytes
  aggregate a b = hash_bytes (a.hash ++ b.hash)

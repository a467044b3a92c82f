-- ===== src/BtreeMap.antt =====
-- `std::collections::BTreeMap<usize, V>` as the source uses it: `get`, `insert` and the iteration in
-- the ascending order of the keys. The entries are the iteration's.
pub mod Laws
use Prim.Native.Nat.{compare, Ordering}
use pdao_simperby.Prelude.{ℕ, Option, none, some, List, [], ◌∷◌, ◌==◌, if◌then◌else◌, unwrap_or}

abbrev pub BtreeMap {ℓ} : Type ℓ → Type ℓ
BtreeMap V = List (ℕ × V)

module _ {ℓ} {V : Type ℓ} where
  unfoldable pub get : BtreeMap V → ℕ → Option V
  get [] k = none
  get ((j, v) ∷ m) k = if j == k then some v else get m k

  unfoldable pub insert : ℕ → V → BtreeMap V → BtreeMap V
  insert k v [] = (k, v) ∷ []
  insert k v ((j, w) ∷ m) = elim (compare k j) [
    | Ordering.lt ↦ (k, v) ∷ (j, w) ∷ m
    | Ordering.eq ↦ (k, v) ∷ m
    | Ordering.gt ↦ (j, w) ∷ insert k v m
  ]

  -- `m.get(&k).unwrap_or(&d)`.
  abbrev pub get_or : BtreeMap V → ℕ → V → V
  get_or m k d = unwrap_or (get m k) d

  abbrev pub values : BtreeMap V → List V
  values [] = []
  values ((j, v) ∷ m) = v ∷ values m

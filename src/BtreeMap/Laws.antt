-- ===== src/BtreeMap/Laws.antt =====
-- The laws of the ordered map, and what stays of its order.
use pdao_simperby.Prelude.{
  ℕ, suc, ◌≤◌, ◌<◌, ◌≡◌, refl, none, some, [], ◌∷◌, arith, ◌==◌, if◌then◌else◌,
}
use pdao_simperby.BtreeMap.{BtreeMap, get, insert}

-- The keys ascend, from `k` on.
abbrev pub Ascending {ℓ} : {V : Type ℓ} → ℕ → BtreeMap V → Type 0
Ascending k [] = Unit {0}
Ascending k ((j, v) ∷ m) = (k ≤ j) × Ascending (suc j) m

module _ {ℓ} {V : Type ℓ} where
  pub get-insert :
      (k j : ℕ) (v : V) (m : BtreeMap V)
      → get (insert k v m) j ≡ (if k == j then some v else get m j)
  unfolding get insert
  get-insert k j v [] = refl
  get-insert k j v ((i, w) ∷ m) = ground (arith, get-insert k j v m)

  pub insert-Ascending :
      (b k : ℕ) (v : V) (m : BtreeMap V) → b ≤ k → Ascending b m → Ascending b (insert k v m)
  unfolding insert
  insert-Ascending b k v [] h a = (h, tt)
  insert-Ascending b k v ((j, w) ∷ m) h a = ground (arith, insert-Ascending (suc j) k v m)

  pub get_below : (b k : ℕ) (m : BtreeMap V) → k < b → Ascending b m → get m k ≡ none
  unfolding get
  get_below b k [] h a = refl
  get_below b k ((j, w) ∷ m) h a = ground (arith, get_below (suc j) k m)

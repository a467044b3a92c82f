-- ===== src/Prelude/Lists.antt =====
-- Lists measured, indexed and summed by native numbers.
use Prim.Native.Nat.{ℕ, zero, suc, ◌+◌, ◌≤◌}
use mathlib.Core.Path.{◌≡◌}
use mathlib.Core.List.{List, [], ◌∷◌, ◌++◌}
use mathlib.Core.Option.{Option, none, some}
use native.Mathlib.Omega.{arith}

module _ {ℓ} {A : Type ℓ} where
  abbrev pub length : List A → ℕ
  length [] = 0
  length (x ∷ xs) = suc (length xs)

  abbrev pub get_elem? : List A → ℕ → Option A
  get_elem? [] i = none
  get_elem? (x ∷ xs) zero = some x
  get_elem? (x ∷ xs) (suc i) = get_elem? xs i

  abbrev pub get_or : List A → ℕ → A → A
  get_or [] i d = d
  get_or (x ∷ xs) zero d = x
  get_or (x ∷ xs) (suc i) d = get_or xs i d

  abbrev pub drop : ℕ → List A → List A
  drop zero xs = xs
  drop (suc n) [] = []
  drop (suc n) (x ∷ xs) = drop n xs

  pub length-append : (xs ys : List A) → length (xs ++ ys) ≡ length xs + length ys
  length-append [] ys = omega arith
  length-append (x ∷ xs) ys = omega (arith, length-append xs ys)

  -- An index that reads a value reads the default in its place nowhere.
  pub get_or-eq_of_some :
      (xs : List A) (i : ℕ) (d : A) {x : A} → get_elem? xs i ≡ some x → get_or xs i d ≡ x
  get_or-eq_of_some [] i d h = ground arith
  get_or-eq_of_some (y ∷ xs) zero d h = ground arith
  get_or-eq_of_some (y ∷ xs) (suc i) d h = get_or-eq_of_some xs i d h

abbrev pub sum : List ℕ → ℕ
sum [] = 0
sum (x ∷ xs) = x + sum xs

pub sum-drop-le : (k j : ℕ) (xs : List ℕ) → k ≤ j → sum (drop j xs) ≤ sum (drop k xs)
sum-drop-le zero zero xs h = omega arith
sum-drop-le zero (suc j) [] h = omega arith
sum-drop-le zero (suc j) (x ∷ xs) h = omega (arith, sum-drop-le zero j xs (omega arith))
sum-drop-le (suc k) zero xs h = absurd (omega arith)
sum-drop-le (suc k) (suc j) [] h = omega arith
sum-drop-le (suc k) (suc j) (x ∷ xs) h = sum-drop-le k j xs (omega arith)

pub sum-drop_head : (j : ℕ) (xs : List ℕ) → get_or xs j 0 + sum (drop (suc j) xs) ≡ sum (drop j xs)
sum-drop_head zero [] = omega arith
sum-drop_head zero (x ∷ xs) = omega arith
sum-drop_head (suc j) [] = omega arith
sum-drop_head (suc j) (x ∷ xs) = sum-drop_head j xs

abbrev pub replicate {ℓ} : {A : Type ℓ} → ℕ → A → List A
replicate zero a = []
replicate (suc n) a = a ∷ replicate n a

-- The value is in the list.
pub data Elem {ℓ} {A : Type ℓ} (a : A) : List A → Type ℓ where
  here : {x : A} {xs : List A} → a ≡ x → Elem a (x ∷ xs)
  there : {x : A} {xs : List A} → Elem a xs → Elem a (x ∷ xs)

pub not-Elem-nil {ℓ} : {A : Type ℓ} {a : A} → Elem a [] → ⊥
not-Elem-nil h = elim h [ ]

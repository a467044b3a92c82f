-- ===== src/Common/Decimal.antt =====
-- The decimal digits of a height in common/src/hash.rs: two numbers with the same digits have the same last
-- digit.
use pdao_simperby.Prelude.{
  ◌≡◌, refl, arith, zero, suc, [], ◌∷◌, List, ◌++◌, ap, sym, ◌∙◌, ℕ, ◌%◌, Bool-cases, ◌+◌, ltb, inl,
  inr, ◌/◌,
}
use pdao_simperby.Common.Bytes.{decimal, decimal_from, Bytes}
use mathlib.Core.List.{append_assoc}

last_of : ℕ → List ℕ → ℕ
last_of d [] = d
last_of d (x ∷ xs) = last_of x xs

last_of-append : (d a : ℕ) (xs : List ℕ) → last_of d (xs ++ a ∷ []) ≡ a
unfolding last_of
last_of-append d a [] = refl
last_of-append d a (x ∷ xs) = last_of-append x a xs

decimal_from-append :
    (fuel n : ℕ) (rest : Bytes) → (xs : Bytes) × (decimal_from fuel n rest ≡ xs ++ rest)
unfolding decimal_from
decimal_from-append zero n rest = ([], refl)
decimal_from-append (suc fuel) n rest = elim (Bool-cases (ltb n 10)) [
  | inl e ↦ ((48 + n % 10) ∷ [], rw e refl)
  | inr e ↦
      let (xs, p) = decimal_from-append fuel (n / 10) ((48 + n % 10) ∷ rest) in
      (xs ++ (48 + n % 10) ∷ [], rw e (p ∙ sym (append_assoc xs ((48 + n % 10) ∷ []) rest)))
]

decimal-append : (n : ℕ) → (xs : Bytes) × (decimal n ≡ xs ++ (48 + n % 10) ∷ [])
unfolding decimal decimal_from
decimal-append n = elim (Bool-cases (ltb n 10)) [
  | inl e ↦ ([], rw e refl)
  | inr e ↦ let (xs, p) = decimal_from-append n (n / 10) ((48 + n % 10) ∷ []) in (xs, rw e p)
]

pub decimal-last : (m n : ℕ) → decimal m ≡ decimal n → m % 10 ≡ n % 10
decimal-last m n h =
    let (xs, p) = decimal-append m in
    let (ys, q) = decimal-append n in
    let same : 48 + m % 10 ≡ 48 + n % 10 =
      sym (last_of-append 0 (48 + m % 10) xs)
      ∙ ap (last_of 0) (sym p ∙ h ∙ q)
      ∙ last_of-append 0 (48 + n % 10) ys in
    omega arith

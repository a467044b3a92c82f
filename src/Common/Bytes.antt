-- ===== src/Common/Bytes.antt =====
-- Sequences of bytes and their equality, and the decimal digits of a `u64`.
use pdao_simperby.Prelude.{
  ℕ, zero, suc, ◌+◌, ◌/◌, ◌%◌, ◌≡◌, refl, arith, Bool, true, false, ◌&&◌, List, [], ◌∷◌, ◌==◌, ltb,
  if◌then◌else◌,
}

abbrev pub Bytes : Type 0
Bytes = List ℕ

unfoldable pub bytes_eq : Bytes → Bytes → Bool
bytes_eq [] [] = true
bytes_eq [] (y ∷ ys) = false
bytes_eq (x ∷ xs) [] = false
bytes_eq (x ∷ xs) (y ∷ ys) = x == y && bytes_eq xs ys

pub bytes_eq_refl : (xs : Bytes) → bytes_eq xs xs ≡ true
unfolding bytes_eq
bytes_eq_refl [] = refl
bytes_eq_refl (x ∷ xs) = ground (arith, bytes_eq_refl xs)

pub eq_of_bytes_eq : (xs ys : Bytes) → bytes_eq xs ys ≡ true → xs ≡ ys
unfolding bytes_eq
eq_of_bytes_eq [] [] h = refl
eq_of_bytes_eq [] (y ∷ ys) h = cc
eq_of_bytes_eq (x ∷ xs) [] h = cc
eq_of_bytes_eq (x ∷ xs) (y ∷ ys) h = ground (arith, eq_of_bytes_eq xs ys)

-- The digits of `format!("{}", n)` in front of `rest`; a number has fewer digits than `n + 1`.
unfoldable pub decimal_from : ℕ → ℕ → Bytes → Bytes
decimal_from zero n rest = rest
decimal_from (suc fuel) n rest =
    let digits = (48 + n % 10) ∷ rest in
    let more = decimal_from fuel (n / 10) digits in if ltb n 10 then digits else more

unfoldable pub decimal : ℕ → Bytes
unfolding decimal_from
decimal n = decimal_from (suc n) n []

-- 1024.
decimal_digits : decimal 1024 ≡ 49 ∷ 48 ∷ 50 ∷ 52 ∷ []
unfolding decimal
decimal_digits = refl

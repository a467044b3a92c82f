-- ===== src/Prelude/Words.antt =====
-- `u64` and `i64` with the wrap-around written out, and the integers that an `i64` stands for.
use Prim.Native.Nat.{ℕ, suc, ◌+◌, ◌-◌, ◌*◌, ◌%◌, ◌<◌}
use mathlib.Core.Path.{◌≡◌}
use mathlib.Core.Bool.{Bool}
use mathlib.Core.List.{List, [], ◌∷◌}
use native.Mathlib.Omega.{arith}
use pdao_simperby.Prelude.Tests.{ltb, if◌then◌else◌}
use pdao_simperby.Prelude.Lists.{sum}

abbrev pub u64_mod : ℕ
u64_mod = 18446744073709551616

abbrev pub i64_max : ℕ
i64_max = 9223372036854775807

abbrev pub add64 : ℕ → ℕ → ℕ
add64 a b = (a + b) % u64_mod

abbrev pub sub64 : ℕ → ℕ → ℕ
sub64 a b = (a + u64_mod - b) % u64_mod

abbrev pub mul64 : ℕ → ℕ → ℕ
mul64 a b = (a * b) % u64_mod

abbrev pub sum64_from : ℕ → List ℕ → ℕ
sum64_from acc [] = acc
sum64_from acc (x ∷ xs) = sum64_from (add64 acc x) xs

-- `iter().sum::<u64>()`.
unfoldable pub sum64 : List ℕ → ℕ
sum64 xs = sum64_from 0 xs

sum64_from-eq-sum : (acc : ℕ) (xs : List ℕ) → sum64_from acc xs % u64_mod ≡ (acc + sum xs) % u64_mod
sum64_from-eq-sum acc [] = omega arith
sum64_from-eq-sum acc (x ∷ xs) = omega (arith, sum64_from-eq-sum (add64 acc x) xs)

sum64_from-lt : (acc : ℕ) (xs : List ℕ) → acc < u64_mod → sum64_from acc xs < u64_mod
sum64_from-lt acc [] h = h
sum64_from-lt acc (x ∷ xs) h = sum64_from-lt (add64 acc x) xs (omega arith)

-- The machine sum is the exact sum modulo 2 ^ 64.
pub sum64-eq-sum : (xs : List ℕ) → sum64 xs ≡ sum xs % u64_mod
unfolding sum64
sum64-eq-sum xs = omega (arith, sum64_from-eq-sum 0 xs, sum64_from-lt 0 xs (omega arith))

-- `negsuc n` is -(n + 1).
pub data ℤ : Type 0 where
  pos : ℕ → ℤ
  negsuc : ℕ → ℤ

abbrev pub pos_part : ℤ → ℕ
pos_part (pos n) = n
pos_part (negsuc n) = 0

abbrev pub neg_part : ℤ → ℕ
neg_part (pos n) = 0
neg_part (negsuc n) = suc n

-- The `i64` of a bit pattern, and the bit pattern of an `i64`.
abbrev pub as_i64 : ℕ → ℤ
as_i64 n = if ltb i64_max n then negsuc (u64_mod - 1 - n) else pos n

abbrev pub as_u64 : ℤ → ℕ
as_u64 (pos n) = n % u64_mod
as_u64 (negsuc n) = (u64_mod - 1 - n) % u64_mod

-- `a + b` of two `i64`.
unfoldable pub add_i64 : ℤ → ℤ → ℤ
add_i64 a b = as_i64 (add64 (as_u64 a) (as_u64 b))

-- `a < b` of two integers.
abbrev pub ltb_ℤ : ℤ → ℤ → Bool
ltb_ℤ a b = ltb (pos_part a + neg_part b) (pos_part b + neg_part a)

abbrev pub ◌<ℤ◌ : ℤ → ℤ → Type 0
◌<ℤ◌ a b = pos_part a + neg_part b < pos_part b + neg_part a

-- ===== src/Prelude/Int.antt =====
-- Go's `int` and `int64`: signed integers over the native numbers, with the tests that the program
-- makes on them. `succ64` is `x + 1` in 64 bits, with its wrap-around.
use Prim.Native.Nat.{ℕ, zero, suc, ◌+◌, ◌-◌, ◌^◌, ◌≤◌, ◌<◌}
use mathlib.Core.Path.{◌≡◌}
use mathlib.Core.Bool.{Bool, true, false}
use native.Mathlib.Omega.{arith}
use live_transcript_server.Prelude.Tests.{ltb, leb, eqb, if◌then◌else◌}

-- `negsuc n` is -(n + 1).
pub data ℤ : Type 0 where
  pos : ℕ → ℤ
  negsuc : ℕ → ℤ

abbrev pub pos_part : ℤ → ℕ
pos_part (pos n) = n
pos_part (negsuc n) = 0

abbrev pub neg_part : ℤ → ℕ
neg_part (pos n) = 0
neg_part (negsuc n) = suc n

infix 50 ◌≤ℤ◌ ◌<ℤ◌
abbrev pub ◌≤ℤ◌ : ℤ → ℤ → Type 0
a ≤ℤ b = pos_part a + neg_part b ≤ pos_part b + neg_part a

abbrev pub ◌<ℤ◌ : ℤ → ℤ → Type 0
a <ℤ b = pos_part a + neg_part b < pos_part b + neg_part a

abbrev pub lt_ℤ : ℤ → ℤ → Bool
lt_ℤ a b = ltb (pos_part a + neg_part b) (pos_part b + neg_part a)

abbrev pub le_ℤ : ℤ → ℤ → Bool
le_ℤ a b = leb (pos_part a + neg_part b) (pos_part b + neg_part a)

abbrev pub eq_ℤ : ℤ → ℤ → Bool
eq_ℤ a b = eqb (pos_part a + neg_part b) (pos_part b + neg_part a)

abbrev pub max64 : ℤ
max64 = pos (2 ^ 63 - 1)

abbrev pub min64 : ℤ
min64 = negsuc (2 ^ 63 - 1)

-- x + 1, without the wrap-around.
abbrev pub succ_ℤ : ℤ → ℤ
succ_ℤ (pos n) = pos (n + 1)
succ_ℤ (negsuc zero) = pos 0
succ_ℤ (negsuc (suc n)) = negsuc n

unfoldable pub succ64 : ℤ → ℤ
succ64 x = if eq_ℤ x max64 then min64 else succ_ℤ x

-- x - 1, without the wrap-around.
abbrev pub pred_ℤ : ℤ → ℤ
pred_ℤ (pos zero) = negsuc 0
pred_ℤ (pos (suc n)) = pos n
pred_ℤ (negsuc n) = negsuc (suc n)

-- The difference of two natural numbers.
abbrev pub diff : ℕ → ℕ → ℤ
diff m n = if leb n m then pos (m - n) else negsuc (n - m - 1)

-- x - y, without the wrap-around.
abbrev pub sub_ℤ : ℤ → ℤ → ℤ
sub_ℤ x y = diff (pos_part x + neg_part y) (pos_part y + neg_part x)

unfoldable pub pred64 : ℤ → ℤ
pred64 x = if eq_ℤ x min64 then max64 else pred_ℤ x

-- A count that goes up or down within 64 bits.
pub succ64-pos : (x : ℤ) (n m : ℕ) → x ≡ pos n → m ≡ suc n → m < 2 ^ 63 → succ64 x ≡ pos m
unfolding succ64
succ64-pos x n m e k h = ground arith

pub pred64-pos : (x : ℤ) (n m : ℕ) → x ≡ pos m → m ≡ suc n → pred64 x ≡ pos n
unfolding pred64
pred64-pos x n zero e k = absurd (omega arith)
pred64-pos x n (suc m) e k = rw e (ground arith)

pub eq_of_parts : (a b : ℤ) → pos_part a + neg_part b ≡ pos_part b + neg_part a → a ≡ b
eq_of_parts a b h = ground arith

pub eq_ℤ→eq : (a b : ℤ) → eq_ℤ a b ≡ true → a ≡ b
eq_ℤ→eq a b h = ground arith

pub eq_ℤ_refl : (a : ℤ) → eq_ℤ a a ≡ true
eq_ℤ_refl a = ground arith

pub le_ℤ→le : (a b : ℤ) → le_ℤ a b ≡ true → a ≤ℤ b
le_ℤ→le a b h = ground arith

pub le→le_ℤ : (a b : ℤ) → a ≤ℤ b → le_ℤ a b ≡ true
le→le_ℤ a b h = ground arith

pub le_ℤ_false : (a b : ℤ) → le_ℤ a b ≡ false → b ≤ℤ a
le_ℤ_false a b h = ground arith

pub lt_succ_ℤ : (a : ℤ) → a <ℤ succ_ℤ a
lt_succ_ℤ (pos n) = omega arith
lt_succ_ℤ (negsuc zero) = omega arith
lt_succ_ℤ (negsuc (suc n)) = omega arith

pub succ64-eq : (a : ℤ) → a <ℤ max64 → succ64 a ≡ succ_ℤ a
unfolding succ64
succ64-eq a h = ground arith

pub eq_ℤ_of_lt : (a b : ℤ) → a <ℤ b → eq_ℤ a b ≡ false
eq_ℤ_of_lt a b h = ground arith

-- ===== src/Common/Integers.antt =====
-- Go's int where it can be negative.
use Prim.Native.Nat.{ℕ, zero, suc, ◌+◌, ◌-◌, ◌*◌, ◌/◌, ◌%◌}
use git4go.Common.Tests.{ltb, if◌then◌else◌}

-- `negsuc n` is -n - 1.
pub data ℤ : Type 0 where
  pos : ℕ → ℤ
  negsuc : ℕ → ℤ

-- `n++` and `n--`.
unfoldable pub increment : ℤ → ℤ
increment (pos n) = pos (suc n)
increment (negsuc zero) = pos 0
increment (negsuc (suc n)) = negsuc n

unfoldable pub decrement : ℤ → ℤ
decrement (pos zero) = negsuc 0
decrement (pos (suc n)) = pos n
decrement (negsuc n) = negsuc (suc n)

-- Minus, the difference of two numbers, and the sum.
unfoldable pub negate : ℤ → ℤ
negate (pos zero) = pos 0
negate (pos (suc n)) = negsuc n
negate (negsuc n) = pos (suc n)

abbrev pub difference : (a b : ℕ) → ℤ
difference a b = if ltb a b then negsuc (b - a - 1) else pos (a - b)

infixl 65 ◌+ℤ◌
unfoldable pub ◌+ℤ◌ : ℤ → ℤ → ℤ
pos a +ℤ pos b = pos (a + b)
pos a +ℤ negsuc b = difference a (suc b)
negsuc a +ℤ pos b = difference b (suc a)
negsuc a +ℤ negsuc b = negsuc (a + b + 1)

-- The product with a number, and Go's quotient and remainder, which go towards 0.
unfoldable pub times : ℤ → ℕ → ℤ
unfolding negate
times (pos a) k = pos (a * k)
times (negsuc a) k = negate (pos (suc a * k))

unfoldable pub quotient : ℤ → ℕ → ℤ
unfolding negate
quotient (pos a) k = pos (a / k)
quotient (negsuc a) k = negate (pos (suc a / k))

unfoldable pub remainder : ℤ → ℕ → ℤ
unfolding negate
remainder (pos a) k = pos (a % k)
remainder (negsuc a) k = negate (pos (suc a % k))

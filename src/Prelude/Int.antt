-- ===== src/Prelude/Int.antt =====
-- The integers over the native numbers, with what Python's `-`, `*`, `//` and `>=` do on them.
use Prim.Native.Nat.{ℕ, ◌+◌, ◌-◌, ◌*◌, ◌/◌, ◌≤◌}
use mathlib.Core.Path.{◌≡◌}
use mathlib.Core.Bool.{Bool, true, false}
use native.Mathlib.Omega.{arith}
use morpheus.Prelude.Tests.{leb, if◌then◌else◌}

-- `negsuc n` is -(n + 1).
pub data ℤ : Type 0 where
  pos : ℕ → ℤ
  negsuc : ℕ → ℤ

-- The difference of two natural numbers.
unfoldable pub minus : ℕ → ℕ → ℤ
minus m n = if leb n m then pos (m - n) else negsuc (n - m - 1)

infixl 65 ◌-ℤ◌
unfoldable pub ◌-ℤ◌ : ℤ → ℤ → ℤ
unfolding minus
pos a -ℤ pos b = minus a b
pos a -ℤ negsuc b = pos (a + b + 1)
negsuc a -ℤ pos b = negsuc (a + b)
negsuc a -ℤ negsuc b = minus b a

unfoldable pub scale : ℤ → ℕ → ℤ
unfolding minus
scale (pos a) n = pos (a * n)
scale (negsuc a) n = minus 0 ((a + 1) * n)

-- `//`, which rounds down.
unfoldable pub floor_div : ℤ → ℕ → ℤ
floor_div (pos a) n = pos (a / n)
floor_div (negsuc a) n = negsuc (a / n)

unfoldable pub lebℤ : ℤ → ℤ → Bool
lebℤ (pos a) (pos b) = leb a b
lebℤ (pos a) (negsuc b) = false
lebℤ (negsuc a) (pos b) = true
lebℤ (negsuc a) (negsuc b) = leb b a

pub minus_le : (m n : ℕ) → n ≤ m → minus m n ≡ pos (m - n)
unfolding minus
minus_le m n h = ground arith

-- ===== src/Prelude/Words.antt =====
-- Machine words: a value of a w-bit type is a number below `2 ^ w`, and its arithmetic wraps.
use Prim.Native.Nat.{ℕ, ◌+◌, ◌-◌, ◌%◌, ◌^◌}

abbrev pub u32 : ℕ → ℕ
u32 n = n % 2 ^ 32

abbrev pub u64 : ℕ → ℕ
u64 n = n % 2 ^ 64

-- `fetch_add(b)` and `+=` on a 64-bit word
abbrev pub add64 : ℕ → ℕ → ℕ
add64 a b = u64 (a + b)

-- `fetch_sub(b)` and `-` on a 64-bit word
abbrev pub sub64 : ℕ → ℕ → ℕ
sub64 a b = u64 (a + 2 ^ 64 - b)

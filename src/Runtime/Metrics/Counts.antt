-- ===== src/Runtime/Metrics/Counts.antt =====
-- Counters count.
use morpheus.Prelude.{
  ℕ, ◌+◌, ◌^◌, ◌<◌, ◌≡◌, List, [], ◌∷◌, if◌then◌else◌, add64, u64, Eq, lookup, lookup-insert, arith,
}
use morpheus.Runtime.Metrics.{bump, get_or}

module _ {ℓ} {K : Type ℓ} ⦃e : Eq K⦄ where
  -- The value of a counter, 0 if it was never raised.
  abbrev pub value : K → List (K × ℕ) → ℕ
  value k m = get_or (lookup k m) 0

  value-bump :
      (k j : K) (m : List (K × ℕ))
      → value j (bump k m) ≡ (if e.beq k j then add64 (value j m) 1 else value j m)
  unfolding bump
  value-bump k j m = ground (arith, e.beq_iff k j, lookup-insert k j (add64 (value k m) 1) m)

  -- Raise the counters of a sequence of keys.
  unfoldable pub bump_all : List K → List (K × ℕ) → List (K × ℕ)
  bump_all [] m = m
  bump_all (k ∷ ks) m = bump_all ks (bump k m)

  unfoldable pub occurrences : K → List K → ℕ
  occurrences j [] = 0
  occurrences j (k ∷ ks) = (if e.beq k j then 1 else 0) + occurrences j ks

  -- A counter holds how often its key was recorded, modulo 2^64, on top of what it held before,
  -- if that is a 64-bit word.
  pub value-bump_all :
      (ks : List K) (j : K) (m : List (K × ℕ))
      → value j m < 2 ^ 64
      → value j (bump_all ks m) ≡ u64 (value j m + occurrences j ks)
  unfolding bump_all occurrences
  value-bump_all [] j m fits = omega arith
  value-bump_all (k ∷ ks) j m fits =
      ground (arith, value-bump k j m, value-bump_all ks j (bump k m))

-- ===== src/Python/Asyncio/Adaptive.antt =====
-- How far apart the checks of an adaptive checkpointer are.
use morpheus.Prelude.{
  ℕ, zero, suc, ◌+◌, ◌-◌, ◌*◌, ◌/◌, ◌≤◌, ◌≡◌, refl, sym, true, false, List, [], ◌∷◌, arith, length,
  inl, inr, ◌⊎◌, ◌<◌, All,
}
use morpheus.Prelude.Int.{pos, ◌-ℤ◌, lebℤ, minus, minus_le}
use morpheus.Runtime.Worker.{Thread}
use morpheus.Python.Asyncio.{AdaptiveCheckpointer, interval, should_check, pressure_or_zero, checks}

-- With natural numbers for the interval bounds and the last check.
abbrev pub checkpointer : (min max last : ℕ) → AdaptiveCheckpointer
checkpointer min max last = record {
  min_interval = pos min;
  max_interval = pos max;
  last_check = pos last;
}

abbrev pub Percent : Thread → Type 0
Percent t = pressure_or_zero t ≤ 100

-- The interval where neither difference is negative.
abbrev span : (min max p : ℕ) → ℕ
span min max p = max - (max - min) * p / 100

scaled_le : (d p : ℕ) → p ≤ 100 → d * p ≤ d * 100
scaled_le zero p at_most = omega arith
scaled_le (suc d) p at_most = let rest = scaled_le d p at_most in omega arith

share_le : (d p : ℕ) → p ≤ 100 → d * p / 100 ≤ d
share_le d p at_most = let scaled = scaled_le d p at_most in omega arith

-- The interval lies between its bounds while the pressure is a percentage.
interval-span :
    (min max last p : ℕ)
    → min ≤ max
    → p ≤ 100
    → (interval p (checkpointer min max last) ≡ pos (span min max p))
      × (min ≤ span min max p)
      × (span min max p ≤ max)
unfolding interval
interval-span min max last p ordered at_most =
    let share = share_le (max - min) p at_most in
    (
      rw (minus_le max min ordered) (minus_le max ((max - min) * p / 100) (omega arith)),
      omega arith,
      omega arith,
    )

abbrev Checked : (t : Thread) (i min max last : ℕ) → Type 0
Checked t i min max last =
    (should_check t (pos i) (checkpointer min max last) ≡ (checkpointer min max i, true))
    × (last + min ≤ i)

abbrev Skipped : (t : Thread) (i min max last : ℕ) → Type 0
Skipped t i min max last =
    (should_check t (pos i) (checkpointer min max last) ≡ (checkpointer min max last, false))
    × (i < last + max)

should_check-cases :
    (t : Thread) (i min max last : ℕ)
    → min ≤ max
    → Percent t
    → Checked t i min max last ⊎ Skipped t i min max last
unfolding should_check ◌-ℤ◌ minus lebℤ
should_check-cases t i min max last ordered at_most =
    let (at, low, high) = interval-span min max last (pressure_or_zero t) ordered at_most in
    rw at (ground (arith, low, high))

-- From the check before to an end, every check comes at least the lower and at most the upper bound
-- after the one before, and the end comes no later.
abbrev pub Spaced : (min max last : ℕ) → List ℕ → (end : ℕ) → Type 0
Spaced min max last [] end = end ≤ last + max
Spaced min max last (i ∷ is) end = (last + min ≤ i) × (i ≤ last + max) × Spaced min max i is end

-- With ordered bounds of which the upper is at least one, a pressure that is a percentage at every
-- iteration, and a first iteration that is at most the upper bound after the last check: however the
-- pressure changes, a loop that asks at every iteration is never without a check for more iterations
-- than the upper bound, and never checks twice within the lower bound.
pub checks-Spaced :
    (ts : List Thread) (i min max last : ℕ)
    → min ≤ max
    → 1 ≤ max
    → All Percent ts
    → i ≤ last + max
    → Spaced min max last (checks ts i (checkpointer min max last)).1 (i + length ts)
unfolding checks
checks-Spaced [] i min max last ordered positive percents soon = omega arith
checks-Spaced (t ∷ ts) i min max last ordered positive percents soon =
    let later = checks-Spaced ts (suc i) min max in
    let same_end : suc i + length ts ≡ i + length (t ∷ ts) = omega arith in
    elim (should_check-cases t i min max last ordered percents.0) [
      | inl (checked, apart) ↦
          rw (checked, sym same_end)
            (apart, soon, later i ordered positive percents.1 (omega arith))
      | inr (skipped, before) ↦
          rw (skipped, sym same_end) (later last ordered positive percents.1 (omega arith))
    ]

-- A checkpointer with ordered bounds that is used again, in a loop that counts from a lower number, with
-- a pressure that is a percentage at every iteration: the loop gets no check, and the checkpointer does
-- not change, up to the iteration that is the lower bound after the last check of the loop before.
pub checks-none :
    (ts : List Thread) (i min max last : ℕ)
    → min ≤ max
    → All Percent ts
    → i + length ts ≤ last + min
    → checks ts i (checkpointer min max last) ≡ (checkpointer min max last, [])
unfolding checks
checks-none [] i min max last ordered percents before = refl
checks-none (t ∷ ts) i min max last ordered percents before =
    elim (should_check-cases t i min max last ordered percents.0) [
      | inl (checked, apart) ↦ ground arith
      | inr (skipped, early) ↦
          rw (skipped, checks-none ts (suc i) min max last ordered percents.1 (omega arith)) refl
    ]

-- ===== src/Runtime/Metrics/Histogram.antt =====
-- morpheus-runtime/src/metrics.rs: the latency histogram of one worker, as `render` computes it.
use morpheus.Prelude.{
  ℕ, suc, ◌+◌, ◌-◌, ◌*◌, ◌^◌, ◌≤◌, ◌<◌, ◌≡◌, refl, ap, sym, ◌∙◌, Bool, List, [], ◌∷◌, leb,
  if◌then◌else◌, length, arith, add64, map, All,
}

-- What the code uses of `f64`: the seconds of a number of nanoseconds, the decimal literals, the
-- comparison, and `{}`.
pub record F64 : Type 1 where
  pub Float : Type 0
  -- `ns as f64 / 1_000_000_000.0`
  pub seconds : ℕ → Float
  -- the literal with that digit at that decimal place, as 0.0005 is 5 at 4
  pub literal : (digit place : ℕ) → Float
  pub leq : Float → Float → Bool
  pub display : Float → List ℕ

module _ (f : F64) where
  -- 0.00001, 0.00005, 0.0001, 0.0005, 0.001, 0.005, 0.01
  unfoldable pub buckets : List f.Float
  buckets =
      f.literal 1 5
      ∷ f.literal 5 5
      ∷ f.literal 1 4
      ∷ f.literal 5 4
      ∷ f.literal 1 3
      ∷ f.literal 5 3
      ∷ f.literal 1 2
      ∷ []

  -- The counts of all bounds after one more sample.
  unfoldable pub count_sample : f.Float → List f.Float → List ℕ → List ℕ
  count_sample s (b ∷ bs) (c ∷ cs) = (if f.leq s b then add64 c 1 else c) ∷ count_sample s bs cs
  count_sample s [] cs = cs
  count_sample s (b ∷ bs) [] = []

  abbrev pub zeros : List f.Float → List ℕ
  zeros [] = []
  zeros (b ∷ bs) = 0 ∷ zeros bs

  unfoldable pub count_samples : List f.Float → List ℕ → List ℕ → List ℕ
  unfolding count_sample
  count_samples bounds [] counts = counts
  count_samples bounds (ns ∷ rest) counts =
      count_samples bounds rest (count_sample (f.seconds ns) bounds counts)

  unfoldable pub bucket_counts : List ℕ → List ℕ
  unfolding count_samples buckets
  bucket_counts samples = count_samples buckets samples (zeros buckets)

  -- How many samples are within a bound.
  abbrev within : f.Float → List ℕ → ℕ
  within b [] = 0
  within b (ns ∷ rest) = (if f.leq (f.seconds ns) b then 1 else 0) + within b rest

  -- The counts of each bound, on top of others.
  abbrev added : List f.Float → List ℕ → List ℕ → List ℕ
  added [] samples cs = cs
  added (b ∷ bs) samples [] = []
  added (b ∷ bs) samples (c ∷ cs) = (c + within b samples) ∷ added bs samples cs

  added-none : (bs : List f.Float) (cs : List ℕ) → length cs ≡ length bs → added bs [] cs ≡ cs
  added-none [] cs e = refl
  added-none (b ∷ bs) [] e = refl
  added-none (b ∷ bs) (c ∷ cs) e =
      let n : c + 0 ≡ c = omega arith in rw (n, added-none bs cs (omega arith)) refl

  added-sample :
      (bs : List f.Float) (ns : ℕ) (rest cs : List ℕ)
      → All (λ c. c + 1 < 2 ^ 64) cs
      → added bs rest (count_sample (f.seconds ns) bs cs) ≡ added bs (ns ∷ rest) cs
  unfolding count_sample
  added-sample [] ns rest cs fits = refl
  added-sample (b ∷ bs) ns rest [] fits = refl
  added-sample (b ∷ bs) ns rest (c ∷ cs) fits =
      ground (arith, fits.0, added-sample bs ns rest cs fits.1)

  count_sample-below :
      (n : ℕ) (s : f.Float) (bs : List f.Float) (cs : List ℕ)
      → All (λ c. c ≤ n) cs
      → All (λ c. c ≤ suc n) (count_sample s bs cs)
  unfolding count_sample
  count_sample-below n s [] [] h = tt
  count_sample-below n s [] (c ∷ cs) h = (omega (arith, h.0), count_sample-below n s [] cs h.1)
  count_sample-below n s (b ∷ bs) [] h = tt
  count_sample-below n s (b ∷ bs) (c ∷ cs) h =
      (ground (arith, h.0), count_sample-below n s bs cs h.1)

  length-count_sample :
      (s : f.Float) (bs : List f.Float) (cs : List ℕ) → length (count_sample s bs cs) ≡ length cs
  unfolding count_sample
  length-count_sample s [] [] = refl
  length-count_sample s [] (c ∷ cs) = refl
  length-count_sample s (b ∷ bs) [] = refl
  length-count_sample s (b ∷ bs) (c ∷ cs) = ap suc (length-count_sample s bs cs)

  below-fits :
      (n : ℕ) (cs : List ℕ) → n + 1 < 2 ^ 64 → All (λ c. c ≤ n) cs → All (λ c. c + 1 < 2 ^ 64) cs
  below-fits n [] fits h = tt
  below-fits n (c ∷ cs) fits h = (omega (arith, h.0), below-fits n cs fits h.1)

  count_samples-added :
      (n : ℕ) (bs : List f.Float) (samples cs : List ℕ)
      → length cs ≡ length bs
      → n + length samples < 2 ^ 64
      → All (λ c. c ≤ n) cs
      → count_samples bs samples cs ≡ added bs samples cs
  unfolding count_samples
  count_samples-added n bs [] cs e fits h = sym (added-none bs cs e)
  count_samples-added n bs (ns ∷ rest) cs e fits h =
      let s = f.seconds ns in
      count_samples-added (suc n) bs rest (count_sample s bs cs) (length-count_sample s bs cs ∙ e)
        (omega arith) (count_sample-below n s bs cs h)
      ∙ added-sample bs ns rest cs (below-fits n cs (omega arith) h)

  added-zeros :
      (bs : List f.Float) (samples : List ℕ)
      → added bs samples (zeros bs) ≡ map (λ b. within b samples) bs
  added-zeros [] samples = refl
  added-zeros (b ∷ bs) samples =
      let n : 0 + within b samples ≡ within b samples = omega arith in
      rw (n, added-zeros bs samples) refl

  length-zeros : (bs : List f.Float) → length (zeros bs) ≡ length bs
  length-zeros [] = refl
  length-zeros (b ∷ bs) = ap suc (length-zeros bs)

  zeros-below : (bs : List f.Float) → All (λ c. c ≤ 0) (zeros bs)
  zeros-below [] = tt
  zeros-below (b ∷ bs) = (omega arith, zeros-below bs)

-- What IEEE 754 says of the comparison: the division and the literals are rounded to the nearest, and the
-- rounding keeps numbers apart that differ by a nanosecond at these magnitudes.
abbrev pub Exact : F64 → Type 0
Exact f =
    (ns digit place : ℕ)
    → ns < 2 ^ 64
    → digit < 10
    → place ≤ 9
    → f.leq (f.seconds ns) (f.literal digit place) ≡ leb ns (digit * 10 ^ (9 - place))

-- How many of the samples are at most a number of nanoseconds.
abbrev pub at_most : List ℕ → (bound_ns : ℕ) → ℕ
at_most [] bound_ns = 0
at_most (ns ∷ rest) bound_ns = (if leb ns bound_ns then 1 else 0) + at_most rest bound_ns

module _ (f : F64) (exact : Exact f) where
  within-at_most :
      (digit place : ℕ) (samples : List ℕ)
      → digit < 10
      → place ≤ 9
      → All (λ ns. ns < 2 ^ 64) samples
      → within f (f.literal digit place) samples ≡ at_most samples (digit * 10 ^ (9 - place))
  within-at_most digit place [] d p h = refl
  within-at_most digit place (ns ∷ rest) d p h =
      rw (exact ns digit place h.0 d p, within-at_most digit place rest d p h.1) refl

  -- The counts are exact. For fewer than 2^64 samples, each a 64-bit number of nanoseconds, and floats
  -- that compare as the numbers do that they stand for: the histogram has seven counts, which are in
  -- order how many of the samples are at most 10, 50, 100 and 500 microseconds, and 1, 5 and 10
  -- milliseconds.
  pub bucket_counts-at_most :
      (samples : List ℕ)
      → All (λ ns. ns < 2 ^ 64) samples
      → length samples < 2 ^ 64
      → bucket_counts f samples
        ≡ map
            (at_most samples)
            (10_000 ∷ 50_000 ∷ 100_000 ∷ 500_000 ∷ 1_000_000 ∷ 5_000_000 ∷ 10_000_000 ∷ [])
  unfolding bucket_counts buckets
  bucket_counts-at_most samples words fits =
      let each = λ (digit place : ℕ) (d : digit < 10) (p : place ≤ 9).
        within-at_most digit place samples d p words in
      count_samples-added f 0 (buckets f) samples (zeros f (buckets f)) (length-zeros f (buckets f))
        (omega arith) (zeros-below f (buckets f))
      ∙ added-zeros f (buckets f) samples
      ∙ rw
          (
            each 1 5 (omega arith) (omega arith),
            each 5 5 (omega arith) (omega arith),
            each 1 4 (omega arith) (omega arith),
            each 5 4 (omega arith) (omega arith),
            each 1 3 (omega arith) (omega arith),
            each 5 3 (omega arith) (omega arith),
            each 1 2 (omega arith) (omega arith),
          )
          refl

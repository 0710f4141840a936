-- ===== src/Tests/Metrics.antt =====
-- The metrics, with numbers of nanoseconds for floats.
use morpheus.Prelude.{ℕ, ◌*◌, ◌-◌, ◌^◌, ◌≡◌, refl, [], ◌∷◌, leb, arith, map}
use morpheus.Runtime.Metrics.Histogram.{F64, Exact, at_most, bucket_counts, bucket_counts-at_most}

abbrev floats : F64
floats = record {
  Float = ℕ;
  seconds = λ ns. ns;
  literal = λ digit place. digit * 10 ^ (9 - place);
  leq = leb;
  display = λ v. [];
}

floats-Exact : Exact floats
floats-Exact ns digit place fits d p = refl

bucket_counts-at_most_example :
    bucket_counts floats (7000 ∷ 50_000 ∷ 600_000 ∷ [])
    ≡ map
        (at_most (7000 ∷ 50_000 ∷ 600_000 ∷ []))
        (10_000 ∷ 50_000 ∷ 100_000 ∷ 500_000 ∷ 1_000_000 ∷ 5_000_000 ∷ 10_000_000 ∷ [])
bucket_counts-at_most_example =
    bucket_counts-at_most floats floats-Exact (7000 ∷ 50_000 ∷ 600_000 ∷ [])
      (omega arith, (omega arith, (omega arith, tt))) (omega arith)

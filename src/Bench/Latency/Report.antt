-- ===== src/Bench/Latency/Report.antt =====
-- morpheus-bench/src/bin/latency.rs: what the threads of the benchmark do besides their operations, and
-- the report. The product of a total with a percentage, in tenths of a percent, is one of floats, and a
-- parameter.
use morpheus.Prelude.{
  ℕ, zero, suc, ◌+◌, ◌^◌, ◌≤◌, ◌≡◌, refl, Bool, List, [], ◌∷◌, ◌++◌, ltb, if◌then◌else◌, length,
  add64, arith,
}
use native.Mathlib.Nat.{pow-le-pow_right}
use morpheus.Prelude.Text.{Text, text}
use morpheus.Runtime.Metrics.Render.{display}
use morpheus.Bench.Latency.{Args, Shared, percentile, find_bucket, total, warnings}

-- The names of the threads numbered from one on, so many of them.
unfoldable pub names : Text → (i count : ℕ) → List Text
unfolding display
names prefix i zero = []
names prefix i (suc count) = (prefix ++ display i) ∷ names prefix (suc i) count

-- The threads that are spawned: those that make pressure, if asked for, and the workers.
unfoldable pub threads : Args → List Text
unfolding names
threads args =
    (if args.pressure then names (text "pressure-") 0 args.workers else [])
    ++ names (text "worker-") 0 args.workers

-- The loop of a thread that makes pressure, so many times.
unfoldable pub burst : (rounds counter : ℕ) → ℕ
burst zero counter = counter
burst (suc rounds) counter = burst rounds (add64 counter 1)

-- The simulated work: the sum of the numbers from one on, so many of them.
unfoldable pub work : (count j sum : ℕ) → ℕ
work zero j sum = sum
work (suc count) j sum = work count (suc j) (add64 sum j)

pub record Report : Type 0 where
  pub total : ℕ
  pub p50 : ℕ
  pub p95 : ℕ
  pub p99 : ℕ
  pub p999 : ℕ
  pub yields : ℕ
  pub slow_tail : Bool
  pub no_yields : Bool

unfoldable pub report : (target_of : (tenths total : ℕ) → ℕ) → Args → Shared → Report
unfolding percentile warnings
report target_of args s = record {
  total = s.total_ops;
  p50 = percentile (target_of 500) s.histogram;
  p95 = percentile (target_of 950) s.histogram;
  p99 = percentile (target_of 990) s.histogram;
  p999 = percentile (target_of 999) s.histogram;
  yields = s.checkpoint_yields;
  slow_tail = (warnings (target_of 990) args s).0;
  no_yields = (warnings (target_of 990) args s).1;
}

pow_two_le : {i j : ℕ} → i ≤ j → 2 ^ i ≤ 2 ^ j
pow_two_le h = pow-le-pow_right (omega arith) h

find_bucket-low :
    (i j count target : ℕ) (cs : List ℕ)
    → i ≤ j
    → j + length cs ≤ 32
    → i ≤ 31
    → 2 ^ i ≤ find_bucket j count target cs
unfolding find_bucket
find_bucket-low i j count target [] below room small = pow_two_le {j = 31} small
find_bucket-low i j count target (c ∷ cs) below room small = ground (
  arith,
  pow_two_le below,
  find_bucket-low i (suc j) (add64 count c) target cs (omega arith) (omega arith) small,
)

find_bucket_mono :
    (i count : ℕ) {t u : ℕ} (cs : List ℕ)
    → t ≤ u
    → i + length cs ≤ 32
    → find_bucket i count t cs ≤ find_bucket i count u cs
unfolding find_bucket
find_bucket_mono i count [] h room = omega arith
find_bucket_mono i count {t} {u} (c ∷ cs) h room = ground (
  arith,
  find_bucket_mono (suc i) (add64 count c) cs h (omega arith),
  find_bucket-low i (suc i) (add64 count c) u cs (omega arith) (omega arith) (omega arith),
)

-- With a product that grows with the percentage, and a histogram of at most 32 buckets: the four
-- percentiles of the report are in order, and there is the warning of a slow tail exactly
-- if the third one exceeds a thousand.
pub report-ordered :
    (target_of : (tenths total : ℕ) → ℕ) (args : Args) (s : Shared)
    → ((a b n : ℕ) → a ≤ b → target_of a n ≤ target_of b n)
    → length s.histogram.buckets ≤ 32
    → let r = report target_of args s in
      (r.p50 ≤ r.p95) × (r.p95 ≤ r.p99) × (r.p99 ≤ r.p999) × (r.slow_tail ≡ ltb 1000 r.p99)
unfolding report percentile warnings
report-ordered target_of args s grows room =
    let n = total s.histogram in
    let ordered = λ (a b : ℕ) (h : a ≤ b).
      find_bucket_mono 0 0 s.histogram.buckets (grows a b n h) (omega arith) in
    (
      ordered 500 950 (omega arith),
      ordered 950 990 (omega arith),
      ordered 990 999 (omega arith),
      refl,
    )

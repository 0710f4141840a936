-- ===== src/Tests/Bench.antt =====
-- The benchmarks at concrete inputs.
use morpheus.Prelude.{ℕ, ◌*◌, ◌/◌, ◌≡◌, true, some, List, [], ◌∷◌, if◌then◌else◌, ltb, map, arith}
use morpheus.Runtime.Worker.{Thread}
use morpheus.Bench.Latency.{percentile, Args}
use morpheus.Bench.Latency.Buckets.{record_all}
use morpheus.Bench.Latency.Quantiles.{IsQuantile, percentile-record_all}
use morpheus.Bench.Starvation.{Percentiles, report, complete, as_micros}
use morpheus.Bench.Starvation.Report.{Reported, report-Reported}
use morpheus.Tests.Kernel.{hog}
use morpheus.Tests.System.{worker}

-- Four operations, of which one is slow, and the median.
abbrev latencies : List ℕ
latencies = 3 ∷ 12 ∷ 1500 ∷ 9 ∷ []

percentile-record_all_example :
    IsQuantile latencies 2 (percentile (λ total. total * 50 / 100) (record_all latencies))
percentile-record_all_example =
    percentile-record_all latencies (λ total. total * 50 / 100)
      (omega arith, (omega arith, (omega arith, (omega arith, tt)))) (omega arith) (omega arith)

-- Two latencies of a task that has not starved, in nanoseconds.
report-Reported_example :
    (p : Percentiles) × (report (2_000_000 ∷ 1_500_000 ∷ [])
      ≡ complete (some p) (if ltb 10_000 p.p99 then 1 else 0))
    × Reported (map as_micros (2_000_000 ∷ 1_500_000 ∷ [])) p
report-Reported_example = report-Reported 2_000_000 (1_500_000 ∷ []) (omega arith)

-- Three operations in two orders.
abbrev checking : Args
checking = record {
  duration = 1;
  workers = 2;
  ops_per_second = 100;
  pressure = true;
  with_checkpoints = true;
}

abbrev asked : Thread
asked = record worker { scb = record hog { preempt_seq = 9 } }

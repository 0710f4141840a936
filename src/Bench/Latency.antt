-- ===== src/Bench/Latency.antt =====
-- morpheus-bench/src/bin/latency.rs: the histogram of latencies, the loop of its workers, and what
-- is reported. The product with a percentage is one of floats, and a parameter.
pub mod Buckets
pub mod Quantiles
pub mod Operations
pub mod Orders
pub mod Report
use morpheus.Prelude.{
  ℕ, zero, suc, ◌+◌, ◌-◌, ◌*◌, ◌/◌, ◌^◌, Bool, ◌&&◌, Option, none, some, List, [], ◌∷◌, ltb, leb,
  ◌==◌, if◌then◌else◌, min, u64, add64,
}
use morpheus.Runtime.Worker.{Thread, checkpoint_sync}

pub record LatencyHistogram : Type 0 where
  pub buckets : List ℕ

unfoldable pub zeros : ℕ → List ℕ
zeros zero = []
zeros (suc n) = 0 ∷ zeros n

unfoldable pub new : LatencyHistogram
unfolding zeros
new = record { buckets = zeros 32 }

-- `64 - leading_zeros` of a 64-bit word: its binary digits, looked for among so many.
unfoldable pub bit_length : ℕ → ℕ → ℕ
bit_length zero x = 0
bit_length (suc k) x = let more = bit_length k (x / 2) in if x == 0 then 0 else more + 1

unfoldable pub bucket_of : ℕ → ℕ
bucket_of latency_us = min (bit_length 64 (add64 latency_us 1)) 31

-- `fetch_add` at an index.
unfoldable pub add_at : ℕ → List ℕ → List ℕ
add_at i [] = []
add_at zero (c ∷ cs) = add64 c 1 ∷ cs
add_at (suc i) (c ∷ cs) = c ∷ add_at i cs

unfoldable pub record_latency : ℕ → LatencyHistogram → LatencyHistogram
unfolding add_at bucket_of
record_latency latency_us h = record { buckets = add_at (bucket_of latency_us) h.buckets }

unfoldable pub sum_words : ℕ → List ℕ → ℕ
sum_words acc [] = acc
sum_words acc (c ∷ cs) = sum_words (add64 acc c) cs

unfoldable pub total : LatencyHistogram → ℕ
unfolding sum_words
total h = sum_words 0 h.buckets

-- The loop of `percentile`, at a bucket and the count before it.
unfoldable pub find_bucket : (i count target : ℕ) → List ℕ → ℕ
find_bucket i count target [] = 2 ^ 31
find_bucket i count target (c ∷ cs) =
    let rest = find_bucket (suc i) (add64 count c) target cs in
    if leb target (add64 count c) then 2 ^ i else rest

-- `target_of` is `(total as f64 * p / 100.0) as u64`.
unfoldable pub percentile : (target_of : ℕ → ℕ) → LatencyHistogram → ℕ
unfolding find_bucket total
percentile target_of h = find_bucket 0 0 (target_of (total h)) h.buckets

pub record Args : Type 0 where
  pub duration : ℕ
  pub workers : ℕ
  pub ops_per_second : ℕ
  pub pressure : Bool
  pub with_checkpoints : Bool

-- The time between two operations; `none` is the panic of a division by zero.
unfoldable pub interval_ns : Args → Option ℕ
interval_ns args =
    if args.ops_per_second == 0 then none else some (1_000_000_000 / args.ops_per_second)

-- What all worker threads share.
pub record Shared : Type 0 where
  pub histogram : LatencyHistogram
  pub total_ops : ℕ
  pub checkpoint_yields : ℕ

unfoldable pub start : Shared
unfolding new
start = record { histogram = new; total_ops = 0; checkpoint_yields = 0 }

-- One operation of a worker, with the latency that it has measured.
unfoldable pub operation : Args → Thread → (elapsed_us : ℕ) → Shared → Shared
unfolding record_latency checkpoint_sync
operation args t elapsed_us s = record {
  histogram = record_latency elapsed_us s.histogram;
  total_ops = add64 s.total_ops 1;
  checkpoint_yields =
      if args.with_checkpoints && checkpoint_sync t
      then add64 s.checkpoint_yields 1
      else s.checkpoint_yields;
}

-- The operations of all workers, as they come one after the other.
unfoldable pub operations : Args → List (Thread × ℕ) → Shared → Shared
operations args [] s = s
operations args ((t, elapsed_us) ∷ rest) s = operations args rest (operation args t elapsed_us s)

-- How long a worker sleeps between two operations.
unfoldable pub sleep_ns : (interval since_last : ℕ) → Option ℕ
sleep_ns interval since_last =
    if ltb since_last interval then some (interval - since_last) else none

-- The warnings at the end: a slow tail, and no yield under pressure.
unfoldable pub warnings : (p99_target : ℕ → ℕ) → Args → Shared → Bool × Bool
unfolding percentile
warnings p99_target args s = (
  ltb 1000 (percentile p99_target s.histogram),
  args.with_checkpoints && (s.checkpoint_yields == 0 && args.pressure),
)

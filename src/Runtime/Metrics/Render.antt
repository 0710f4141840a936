-- ===== src/Runtime/Metrics/Render.antt =====
-- morpheus-runtime/src/metrics.rs: the Prometheus text format, as bytes.
use Prim.Native.String.{String}
use morpheus.Prelude.{
  ℕ, zero, suc, ◌+◌, ◌/◌, ◌%◌, ◌≡◌, refl, List, [], ◌∷◌, ◌++◌, ltb, if◌then◌else◌, length, min, ◌^◌,
  ◌-◌,
}
use morpheus.Prelude.Text.{Text, text}
use morpheus.Runtime.Metrics.{MorpheusMetrics, Counters}
use morpheus.Runtime.Metrics.Histogram.{F64, buckets, bucket_counts}

-- The digits of a number, at most so many: 20 suffice for 64 bits.
unfoldable pub digits : ℕ → ℕ → Text → Text
digits zero n acc = acc
digits (suc k) n acc =
    let more = digits k (n / 10) ((n % 10 + b'0') ∷ acc) in
    if ltb n 10 then (n + b'0') ∷ acc else more

-- `{}` of a `u64`.
unfoldable pub display : ℕ → Text
unfolding digits
display n = digits 20 n []

-- `saturating_add`, from 0.
unfoldable pub sum_saturating : ℕ → List ℕ → ℕ
sum_saturating acc [] = acc
sum_saturating acc (ns ∷ rest) = sum_saturating (min (acc + ns) (2 ^ 64 - 1)) rest

unfoldable pub hint_lines : Counters (ℕ × String) → Text
unfolding display
hint_lines [] = []
hint_lines (((worker_id, reason), count) ∷ rest) =
    text "morpheus_hint_count_total{worker_id=\""
    ++ display worker_id
    ++ text "\",reason=\""
    ++ text reason
    ++ text "\"} "
    ++ display count
    ++ text "\n"
    ++ hint_lines rest

unfoldable pub escalation_lines : Counters String → Text
unfolding display
escalation_lines [] = []
escalation_lines ((policy, count) ∷ rest) =
    text "morpheus_escalation_count_total{policy=\""
    ++ text policy
    ++ text "\"} "
    ++ display count
    ++ text "\n"
    ++ escalation_lines rest

unfoldable pub defensive_lines : Counters ℕ → Text
unfolding display
defensive_lines [] = []
defensive_lines ((worker_id, count) ∷ rest) =
    text "morpheus_defensive_mode_total{worker_id=\""
    ++ display worker_id
    ++ text "\"} "
    ++ display count
    ++ text "\n"
    ++ defensive_lines rest

module _ (f : F64) where
  unfoldable pub bucket_lines : ℕ → List f.Float → List ℕ → Text
  unfolding display
  bucket_lines worker_id [] counts = []
  bucket_lines worker_id (b ∷ bs) [] = []
  bucket_lines worker_id (b ∷ bs) (c ∷ cs) =
      text "morpheus_last_ack_latency_seconds_bucket{worker_id=\""
      ++ display worker_id
      ++ text "\",le=\""
      ++ f.display b
      ++ text "\"} "
      ++ display c
      ++ text "\n"
      ++ bucket_lines worker_id bs cs

  unfoldable pub worker_lines : ℕ → List ℕ → Text
  unfolding display bucket_lines bucket_counts sum_saturating
  worker_lines worker_id [] = []
  worker_lines worker_id (ns ∷ rest) =
      bucket_lines worker_id (buckets f) (bucket_counts f (ns ∷ rest))
      ++ text "morpheus_last_ack_latency_seconds_bucket{worker_id=\""
      ++ display worker_id
      ++ text "\",le=\"+Inf\"} "
      ++ display (length (ns ∷ rest))
      ++ text "\n"
      ++ text "morpheus_last_ack_latency_seconds_sum{worker_id=\""
      ++ display worker_id
      ++ text "\"} "
      ++ f.display (f.seconds (sum_saturating 0 (ns ∷ rest)))
      ++ text "\n"
      ++ text "morpheus_last_ack_latency_seconds_count{worker_id=\""
      ++ display worker_id
      ++ text "\"} "
      ++ display (length (ns ∷ rest))
      ++ text "\n"

  unfoldable pub latency_lines : List (ℕ × List ℕ) → Text
  unfolding worker_lines
  latency_lines [] = []
  latency_lines ((worker_id, samples) ∷ rest) = worker_lines worker_id samples ++ latency_lines rest

  unfoldable pub render : MorpheusMetrics → Text
  unfolding hint_lines escalation_lines defensive_lines latency_lines
  render m =
      text "# HELP morpheus_hint_count_total Total hints received by worker and reason\n"
      ++ text "# TYPE morpheus_hint_count_total counter\n"
      ++ hint_lines m.hint_counts
      ++ text "# HELP morpheus_hint_drops_total Total hints dropped due to ring buffer overflow\n"
      ++ text "# TYPE morpheus_hint_drops_total counter\n"
      ++ text "morpheus_hint_drops_total "
      ++ display m.hint_drops
      ++ text "\n"
      ++ text "# HELP morpheus_escalation_count_total Total escalations by policy\n"
      ++ text "# TYPE morpheus_escalation_count_total counter\n"
      ++ escalation_lines m.escalation_counts
      ++ text "# HELP morpheus_defensive_mode_total Defensive mode activations by worker\n"
      ++ text "# TYPE morpheus_defensive_mode_total counter\n"
      ++ defensive_lines m.defensive_mode_counts
      ++ text "# HELP morpheus_last_ack_latency_seconds Hint acknowledgment latency in seconds\n"
      ++ text "# TYPE morpheus_last_ack_latency_seconds histogram\n"
      ++ latency_lines m.ack_latency_samples

display_run : display 18446744073709551615 ≡ text "18446744073709551615"
unfolding display
display_run = refl

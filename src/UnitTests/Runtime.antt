-- ===== src/UnitTests/Runtime.antt =====
-- The tests of critical.rs, bpf_maps.rs, runtime.rs and metrics.rs of morpheus-runtime/src, and of
-- morpheus-tokio/src/lib.rs: what each one asserts, and that it passes.
use morpheus.Prelude.{
  lookup, insert, Bool, ◌==◌, ◌&&◌, ◌||◌, [], ◌∷◌, ℕ, ◌≡◌, refl, true, false, Option, length, ◌*◌,
  to_ne_bytes,
}
use morpheus.Common.Scb.{MorpheusScb}
use morpheus.Runtime.Worker.{spawned, checkpoint_sync}
use morpheus.Runtime.Critical.{critical_section, drop, in_critical_section}
use morpheus.Runtime.BpfMaps.Attr.{
  BpfMapUpdateAttr, BpfMapDeleteAttr, Layout, update_bytes, delete_bytes,
}
use morpheus.Prelude.Text.{Text, text}
use morpheus.Runtime.Metrics.{
  MorpheusMetrics, record_hint, record_hint_drop, record_escalation, record_defensive_mode,
  record_ack_latency, bump,
}
use morpheus.Runtime.Metrics
use morpheus.Runtime.Metrics.Histogram.{F64}
use morpheus.Runtime.Metrics.Render.{
  render, hint_lines, escalation_lines, defensive_lines, display, digits,
}
use morpheus.Runtime.Builder
use morpheus.Tokio

-- The thread of a test has whatever block, as it has no handle to one.
abbrev CriticalSectionNesting : MorpheusScb → Type 0
CriticalSectionNesting scb =
    let t0 = spawned scb in
    let t1 = (critical_section t0).0 in
    let t2 = (critical_section t1).0 in
    let t3 = drop t2 in
    let t4 = drop t3 in
    (in_critical_section t0 ≡ false)
    × (in_critical_section t1 ≡ true)
    × (in_critical_section t2 ≡ true)
    × (in_critical_section t3 ≡ true)
    × (in_critical_section t4 ≡ false)

critical_section_nesting : (scb : MorpheusScb) → CriticalSectionNesting scb
unfolding spawned critical_section drop in_critical_section
critical_section_nesting scb = (refl, refl, refl, refl, refl)

-- The size of every value of the type, in whatever order the compiler lays its fields out.
abbrev BpfAttrSizes : Type 0
BpfAttrSizes =
    ((a : BpfMapUpdateAttr) → length (update_bytes a) ≡ 32)
    × ((l : Layout) (a : BpfMapDeleteAttr) → length (delete_bytes l a) ≡ 16)

delete_size : (l : Layout) (a : BpfMapDeleteAttr) → length (delete_bytes l a) ≡ 16
unfolding delete_bytes to_ne_bytes
delete_size Layout.as_written a = refl
delete_size Layout.widest_first a = refl

bpf_attr_sizes : BpfAttrSizes
unfolding update_bytes to_ne_bytes
bpf_attr_sizes = (λ a. refl, delete_size)

-- On a machine with whatever number of processors.
abbrev RuntimeBuilder : Option ℕ → Type 0
RuntimeBuilder parallelism =
    let runtime = Builder.build (
      Builder.defensive_yields 50
        (Builder.escapable false (Builder.num_workers 4 (Builder.new_builder parallelism)))) in
    (runtime.config.workers.num_workers ≡ 4)
    × (runtime.config.workers.escapable ≡ false)
    × (runtime.config.defensive_yields ≡ 50)

runtime_builder : (parallelism : Option ℕ) → RuntimeBuilder parallelism
unfolding Builder.build Builder.new Builder.defensive_yields Builder.escapable Builder.num_workers
    Builder.new_builder
runtime_builder parallelism = (refl, refl, refl)

abbrev TokioBuilder : Type 0
TokioBuilder =
    let builder = Tokio.set_check_interval_ms 10 (Tokio.set_escapable false Tokio.new) in
    (Tokio.is_escapable builder ≡ false) × (Tokio.get_check_interval builder ≡ 10 * 1_000_000)

tokio_builder : TokioBuilder
unfolding Tokio.is_escapable Tokio.get_check_interval Tokio.set_escapable
    Tokio.set_check_interval_ms Tokio.new
tokio_builder = (refl, refl)

abbrev CheckpointSync : MorpheusScb → Type 0
CheckpointSync scb = checkpoint_sync (spawned scb) ≡ false

unconnected-CheckpointSync : (scb : MorpheusScb) → CheckpointSync scb
unfolding checkpoint_sync spawned
unconnected-CheckpointSync scb = refl

-- `contains`.
abbrev starts_with : Text → Text → Bool
starts_with [] t = true
starts_with (a ∷ s) [] = false
starts_with (a ∷ s) (b ∷ t) = a == b && starts_with s t

abbrev contains : Text → Text → Bool
contains s [] = starts_with s []
contains s (b ∷ t) = starts_with s (b ∷ t) || contains s t

abbrev recorded : MorpheusMetrics
recorded = record_ack_latency 0 50_000 (
    record_defensive_mode 0 (
      record_escalation "thread_kick" (
        record_hint_drop (
          record_hint 1 "pressure" (record_hint 0 "budget" (record_hint 0 "budget" Metrics.new))))))

-- Whatever the floats are that the output displays.
abbrev MetricsRecording : F64 → Type 0
MetricsRecording f =
    let output = render f recorded in
    (contains (text "morpheus_hint_count_total") output ≡ true)
    × (contains (text "morpheus_hint_drops_total") output ≡ true)
    × (contains (text "morpheus_escalation_count_total") output ≡ true)
    × (contains (text "morpheus_defensive_mode_total") output ≡ true)
    × (contains (text "morpheus_last_ack_latency_seconds") output ≡ true)

metrics_recording : (f : F64) → MetricsRecording f
unfolding render hint_lines escalation_lines defensive_lines Metrics.new record_hint
    record_hint_drop record_escalation record_defensive_mode record_ack_latency display digits bump
    lookup insert
metrics_recording f = (refl, refl, refl, refl, refl)

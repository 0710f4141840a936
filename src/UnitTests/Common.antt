-- ===== src/UnitTests/Common.antt =====
-- The tests of morpheus-common/src/lib.rs: what each one asserts, and that it passes.
use Prim.Native.String.{String}
use morpheus.Prelude.{ℕ, ◌≡◌, refl, true, false, Option, string_eq}
use morpheus.Common.Scb
use morpheus.Common.Pressure.{GlobalPressure}
use morpheus.Common.Pressure
use morpheus.Common.HintReason.{budget, pressure, imbalance, deadline}
use morpheus.Common.HintReason
use morpheus.Common.WorkerState.{running, init, registered, quiescing, dead}
use morpheus.Common.WorkerState
use morpheus.Common.RuntimeMode.{deterministic, pressured, defensive}
use morpheus.Common.RuntimeMode
use morpheus.Common.SchedulerMode
use morpheus.Common.EscalationPolicy
use morpheus.Layout.{offset_of, size_of}
use morpheus.Layout.Block.{rust_fields, alignment}
use morpheus.UnitTests.Sizes.{hint_fields, pressure_fields}

abbrev ScbSizeAndAlignment : Type 0
ScbSizeAndAlignment = (size_of alignment rust_fields ≡ 128) × (alignment ≡ 64)

scb_size_and_alignment : ScbSizeAndAlignment
unfolding size_of rust_fields
scb_size_and_alignment = (refl, refl)

-- `offset_of!` of a field that there is.
abbrev At : String → ℕ → Type 0
At field o = offset_of field rust_fields ≡ Option.some o

abbrev ScbCacheLineOffsets : Type 0
ScbCacheLineOffsets =
    At "preempt_seq" 0
    × At "budget_remaining_ns" 8
    × At "kernel_pressure_level" 16
    × At "worker_state" 20
    × At "is_in_critical_section" 64
    × At "escapable" 68
    × At "last_ack_seq" 72
    × At "runtime_priority" 80
    × At "last_yield_reason" 84
    × At "escalation_policy" 96

scb_cache_line_offsets : ScbCacheLineOffsets
unfolding offset_of rust_fields
scb_cache_line_offsets = (refl, refl, refl, refl, refl, refl, refl, refl, refl, refl)

abbrev HintStructure : Type 0
HintStructure = size_of 8 hint_fields ≡ 24

hint_structure : HintStructure
unfolding size_of hint_fields
hint_structure = refl

abbrev GlobalPressureStructure : Type 0
GlobalPressureStructure = size_of 4 pressure_fields ≡ 16

global_pressure_structure : GlobalPressureStructure
unfolding size_of pressure_fields
global_pressure_structure = refl

abbrev HintReasonConversion : Type 0
HintReasonConversion =
    (HintReason.try_from 1 ≡ Option.some budget)
    × (HintReason.try_from 2 ≡ Option.some pressure)
    × (HintReason.try_from 3 ≡ Option.some imbalance)
    × (HintReason.try_from 4 ≡ Option.some deadline)
    × (HintReason.try_from 5 ≡ Option.none)
    × (HintReason.try_from 0 ≡ Option.none)

hint_reason_conversion : HintReasonConversion
unfolding HintReason.try_from
hint_reason_conversion = (refl, refl, refl, refl, refl, refl)

abbrev WorkerStateTransitions : Type 0
WorkerStateTransitions =
    ((WorkerState.can_receive_hints running ≡ true)
      × (WorkerState.can_receive_hints init ≡ false)
      × (WorkerState.can_receive_hints registered ≡ false)
      × (WorkerState.can_receive_hints quiescing ≡ false)
      × (WorkerState.can_receive_hints dead ≡ false))
    × ((WorkerState.can_escalate running ≡ true)
        × (WorkerState.can_escalate init ≡ false)
        × (WorkerState.can_escalate quiescing ≡ false))

worker_state_transitions : WorkerStateTransitions
unfolding WorkerState.can_receive_hints WorkerState.can_escalate
worker_state_transitions = ((refl, refl, refl, refl, refl), (refl, refl, refl))

abbrev RuntimeModeYields : Type 0
RuntimeModeYields =
    (RuntimeMode.should_yield_eagerly deterministic ≡ false)
    × (RuntimeMode.should_yield_eagerly pressured ≡ false)
    × (RuntimeMode.should_yield_eagerly defensive ≡ true)

runtime_mode_yields : RuntimeModeYields
unfolding RuntimeMode.should_yield_eagerly
runtime_mode_yields = (refl, refl, refl)

abbrev SchedulerModeDefaults : Type 0
SchedulerModeDefaults = SchedulerMode.default ≡ SchedulerMode.observer_only

scheduler_mode_defaults : SchedulerModeDefaults
unfolding SchedulerMode.default
scheduler_mode_defaults = refl

abbrev EscalationPolicyDefaults : Type 0
EscalationPolicyDefaults = EscalationPolicy.default ≡ EscalationPolicy.none

escalation_policy_defaults : EscalationPolicyDefaults
unfolding EscalationPolicy.default
escalation_policy_defaults = refl

abbrev ScbNewDefaults : Type 0
ScbNewDefaults =
    let scb_escapable = Scb.new true in
    let scb_not_escapable = Scb.new false in
    (scb_escapable.escapable ≡ 1)
    × (scb_not_escapable.escapable ≡ 0)
    × (scb_escapable.worker_state ≡ WorkerState.as_u32 init)
    × (scb_escapable.escalation_policy ≡ EscalationPolicy.as_u32 EscalationPolicy.none)

scb_new_defaults : ScbNewDefaults
unfolding Scb.new
scb_new_defaults = (refl, refl, refl, refl)

-- The pressure after each store, of the three that the test makes.
abbrev GlobalPressureIsPressured : Type 0
GlobalPressureIsPressured =
    let fresh = Pressure.new in
    let cpu : GlobalPressure = record fresh { cpu_pressure_pct = 51 } in
    let io : GlobalPressure = record cpu { cpu_pressure_pct = 0; io_pressure_pct = 60 } in
    let memory : GlobalPressure = record io { io_pressure_pct = 0; memory_pressure_pct = 75 } in
    (Pressure.is_pressured fresh ≡ false)
    × (Pressure.is_pressured cpu ≡ true)
    × (Pressure.is_pressured io ≡ true)
    × (Pressure.is_pressured memory ≡ true)

global_pressure_is_pressured : GlobalPressureIsPressured
unfolding Pressure.is_pressured Pressure.new
global_pressure_is_pressured = (refl, refl, refl, refl)

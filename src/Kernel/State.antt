-- ===== src/Kernel/State.antt =====
-- scx_morpheus/src/bpf/scx_morpheus.bpf.c: the maps and globals of the scheduler. Per-CPU counters
-- are one record; the buffers are lists, the newest message first. An `Option` is a lookup that the
-- code guards against a null answer.
use morpheus.Prelude.{ℕ, Bool, Option, none, some, List, leb, if◌then◌else◌, add64}
use morpheus.Common.Scb.{MorpheusScb}
use morpheus.Common.Hint.{MorpheusHint}

pub record MorpheusStats : Type 0 where
  pub hints_emitted : ℕ
  pub hints_dropped : ℕ
  pub escalations : ℕ
  pub escalations_blocked : ℕ
  pub ticks_total : ℕ
  pub state_checks_skipped : ℕ

pub record MorpheusConfig : Type 0 where
  pub slice_ns : ℕ
  pub grace_period_ns : ℕ

pub record TaskCtx : Type 0 where
  pub last_tick_ns : ℕ
  pub runtime_ns : ℕ
  pub worker_id : ℕ
  pub is_morpheus_worker : Bool

pub record EscalationEvent : Type 0 where
  pub worker_id : ℕ
  pub pid : ℕ
  pub severity : ℕ
  pub timestamp : ℕ

-- Calls that act on the machine: a CPU kick for the task, a dispatch of it with a slice, and for the
-- queue of the scheduler its creation and the move of a task from it to the CPU.
pub data Action : Type 0 where
  kick_cpu : (pid : ℕ) → Action
  scx_dispatch : (pid slice : ℕ) → Action
  scx_create_dsq : Action
  scx_consume : Action

pub record Kernel : Type 0 where
  pub scheduler_mode : ℕ
  pub max_workers : ℕ
  pub default_slice_ns : ℕ
  pub default_grace_period_ns : ℕ
  pub config : Option MorpheusConfig
  pub stats : Option MorpheusStats
  pub scb_map : ℕ → MorpheusScb
  pub worker_tid_map : List (ℕ × ℕ)
  pub task_ctx_map : ℕ → Option TaskCtx
  pub hint_ringbuf : List MorpheusHint
  pub escalation_ringbuf : List EscalationEvent
  pub actions : List Action

-- What the kernel answers during one call.
pub record Env : Type 0 where
  pub now : ℕ
  pub hint_room : Bool
  pub escalation_room : Bool

abbrev pub mode_enforced : ℕ
mode_enforced = 1

abbrev pub hint_budget : ℕ
hint_budget = 1

-- `SeverityPenalty` of morpheus_shared.h.
abbrev pub severity_penalty : ℕ
severity_penalty = 2

-- A worker id below `max_workers` has an entry in the array.
unfoldable pub get_scb : ℕ → Kernel → Option MorpheusScb
get_scb worker_id k = if leb k.max_workers worker_id then none else some (k.scb_map worker_id)

abbrev pub slice_of : Kernel → ℕ
slice_of k = elim k.config [ none ↦ k.default_slice_ns | some c ↦ c.slice_ns ]

abbrev pub grace_of : Kernel → ℕ
grace_of k = elim k.config [ none ↦ k.default_grace_period_ns | some c ↦ c.grace_period_ns ]

-- `if (stats) __sync_fetch_and_add(&stats->…, 1)`
abbrev pub count : (MorpheusStats → MorpheusStats) → Kernel → Kernel
count f k = record k { stats = elim k.stats [ none ↦ none | some s ↦ some (f s) ] }

-- The counters after one more event of a kind.
abbrev pub emitted : MorpheusStats → MorpheusStats
emitted s = record s { hints_emitted = add64 s.hints_emitted 1 }

abbrev pub dropped : MorpheusStats → MorpheusStats
dropped s = record s { hints_dropped = add64 s.hints_dropped 1 }

abbrev pub escalated : MorpheusStats → MorpheusStats
escalated s = record s { escalations = add64 s.escalations 1 }

abbrev pub blocked : MorpheusStats → MorpheusStats
blocked s = record s { escalations_blocked = add64 s.escalations_blocked 1 }

abbrev pub ticked : MorpheusStats → MorpheusStats
ticked s = record s { ticks_total = add64 s.ticks_total 1 }

abbrev pub skipped : MorpheusStats → MorpheusStats
skipped s = record s { state_checks_skipped = add64 s.state_checks_skipped 1 }

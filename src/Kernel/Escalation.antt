-- ===== src/Kernel/Escalation.antt =====
-- When a tick escalates.
use morpheus.Prelude.{
  ℕ, ◌<◌, ◌≡◌, ◌≢◌, ◌⊎◌, refl, true, some, ◌∷◌, Option-cases, inl, inr, update, add64, arith,
}
use morpheus.Common.Scb.{MorpheusScb}
use morpheus.Kernel.State.{
  TaskCtx, Kernel, Env, mode_enforced, slice_of, grace_of, kick_cpu, count, ticked,
}
use morpheus.Kernel.Tick.{
  signal, raise_seq, tick, tick_worker, tick_scb, account, request_yield, escalate, gate,
  execute_escalation, emit_hint,
}

-- What has to hold for the tick of a worker to kick its CPU.
pub record MayKick (tctx : TaskCtx) (scb : MorpheusScb) (k : Kernel) : Type 0 where
  pub enforced : k.scheduler_mode ≡ mode_enforced
  pub running : scb.worker_state ≡ 2
  pub opted_in : scb.escapable ≢ 0
  pub not_critical : scb.is_in_critical_section ≡ 0
  pub unacknowledged : scb.last_ack_seq < add64 scb.preempt_seq 1
  pub past_slice : slice_of k < tctx.runtime_ns
  pub past_grace : add64 (slice_of k) (grace_of k) < tctx.runtime_ns
  pub policy : scb.escalation_policy ≢ 0

-- The actions of a call: none, or one kick, which `P` allows.
abbrev KicksOnlyIf : Type 0 → (pid : ℕ) → Kernel → Kernel → Type 0
KicksOnlyIf P pid k k' = (k'.actions ≡ k.actions) ⊎ (k'.actions ≡ kick_cpu pid ∷ k.actions) × P

execute_escalation-kicks :
    (env : Env) (pid policy : ℕ) (tctx : TaskCtx) (k : Kernel)
    → KicksOnlyIf (policy ≢ 0) pid k (execute_escalation env pid policy tctx k)
unfolding execute_escalation
execute_escalation-kicks env pid policy tctx k = ground arith

abbrev pub Gate : TaskCtx → MorpheusScb → (preempt_seq slice grace : ℕ) → Type 0
Gate tctx scb preempt_seq slice grace =
    (scb.worker_state ≡ 2)
    × (scb.escapable ≢ 0)
    × (scb.is_in_critical_section ≡ 0)
    × (scb.last_ack_seq < preempt_seq)
    × (add64 slice grace < tctx.runtime_ns)
    × (scb.escalation_policy ≢ 0)

gate-Gate :
    (tctx : TaskCtx) (scb : MorpheusScb) (preempt_seq slice grace : ℕ)
    → gate scb tctx preempt_seq slice grace ≡ true
    → scb.worker_state ≡ 2
    → Gate tctx scb preempt_seq slice grace
unfolding gate
gate-Gate tctx scb preempt_seq slice grace h r = ground arith

escalate-kicks :
    (env : Env) (pid : ℕ) (tctx : TaskCtx) (scb : MorpheusScb) (preempt_seq slice grace : ℕ)
    (k : Kernel)
    → KicksOnlyIf
        (Gate tctx scb preempt_seq slice grace)
        pid
        k
        (escalate env pid tctx scb preempt_seq slice grace k)
unfolding escalate
escalate-kicks env pid tctx scb preempt_seq slice grace k = ground (
  arith,
  gate-Gate tctx scb preempt_seq slice grace,
  execute_escalation-kicks env pid scb.escalation_policy tctx k,
)

pub signal-actions :
    (env : Env) (pid : ℕ) (tctx : TaskCtx) (scb : MorpheusScb) (grace : ℕ) (k : Kernel)
    → (signal env pid tctx scb grace k).actions ≡ k.actions
unfolding signal emit_hint
signal-actions env pid tctx scb grace k = ground arith

request_yield-kicks :
    (env : Env) (pid : ℕ) (tctx : TaskCtx) (scb : MorpheusScb) (slice grace : ℕ) (k : Kernel)
    → KicksOnlyIf
        ((k.scheduler_mode ≡ mode_enforced) × Gate tctx scb (add64 scb.preempt_seq 1) slice grace)
        pid
        k
        (request_yield env pid tctx scb slice grace k)
unfolding request_yield
request_yield-kicks env pid tctx scb slice grace k =
    let k' = signal env pid tctx scb grace k in
    ground (
      arith,
      signal-actions env pid tctx scb grace k,
      escalate-kicks env pid tctx (raise_seq scb) (add64 scb.preempt_seq 1) slice grace k',
    )

tick_scb-kicks :
    (env : Env) (pid : ℕ) (tctx : TaskCtx) (scb : MorpheusScb) (k : Kernel)
    → KicksOnlyIf (MayKick tctx scb k) pid k (tick_scb env pid tctx scb k)
unfolding tick_scb
tick_scb-kicks env pid tctx scb k =
    ground (arith, request_yield-kicks env pid tctx scb (slice_of k) (grace_of k) k)

tick_worker-kicks :
    (env : Env) (pid : ℕ) (tctx : TaskCtx) (k : Kernel)
    → KicksOnlyIf
        (MayKick (account env tctx) (k.scb_map tctx.worker_id) k)
        pid
        k
        (tick_worker env pid tctx k)
unfolding tick_worker account
tick_worker-kicks env pid tctx k = ground (
  arith,
  tick_scb-kicks env pid (account env tctx) (k.scb_map tctx.worker_id)
      (record k { task_ctx_map = update k.task_ctx_map pid (some (account env tctx)) }),
)

-- A tick kicks no CPU, or that of its task once, and then the task is a worker whose block and
-- context permit it: the scheduler enforces, the worker is running, has opted in, is in no critical
-- section, has not acknowledged the number that this tick raised, has run for longer than the slice
-- and longer than slice and grace period together, and its policy is not the empty one.
pub tick-kicks :
    (env : Env) (pid : ℕ) (k : Kernel)
    → ((tick env pid k).actions ≡ k.actions)
      ⊎ ((tick env pid k).actions ≡ kick_cpu pid ∷ k.actions)
        × ((tctx : TaskCtx) × (k.task_ctx_map pid ≡ some tctx)
            × (tctx.is_morpheus_worker ≡ true)
            × MayKick (account env tctx) (k.scb_map tctx.worker_id) k)
unfolding tick
tick-kicks env pid k = elim (Option-cases (k.task_ctx_map pid)) [
  | inl e ↦ inl (rw (e, tick) refl)
  | inr (tctx, e) ↦ ground (arith, e, tick_worker-kicks env pid tctx (count ticked k))
]

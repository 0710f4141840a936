-- ===== src/Kernel/Tick.antt =====
-- scx_morpheus/src/bpf/scx_morpheus.bpf.c: the tick handler, with the helpers that it calls. A tick
-- runs on the CPU of the task that it is about, so the thread of that task stands still meanwhile.
use morpheus.Prelude.{
  ℕ, Bool, not, ◌&&◌, ◌||◌, none, some, ◌∷◌, ltb, ◌==◌, if◌then◌else◌, add64, sub64, update,
}
use morpheus.Common.EscalationPolicy
use morpheus.Common.WorkerState
use morpheus.Common.Scb.{MorpheusScb}
use morpheus.Common.Hint.{MorpheusHint}
use morpheus.Kernel.State.{
  TaskCtx, kick_cpu, Kernel, Env, mode_enforced, hint_budget, severity_penalty, get_scb, slice_of,
  grace_of, count, emitted, dropped, escalated, blocked, ticked, skipped,
}

unfoldable pub worker_can_receive_hints : ℕ → Bool
unfolding WorkerState.as_u32
worker_can_receive_hints state = state == WorkerState.as_u32 WorkerState.running

unfoldable pub worker_can_escalate : ℕ → Bool
unfolding WorkerState.as_u32
worker_can_escalate state = state == WorkerState.as_u32 WorkerState.running

unfoldable pub emit_escalation_event : Env → (worker_id pid severity : ℕ) → Kernel → Kernel
emit_escalation_event env worker_id pid severity k =
    if env.escalation_room
    then record k {
      escalation_ringbuf =
          record { worker_id = worker_id; pid = pid; severity = severity; timestamp = env.now }
          ∷ k.escalation_ringbuf;
    }
    else k

unfoldable pub emit_hint : Env → MorpheusHint → Kernel → Kernel
emit_hint env hint k =
    if env.hint_room
    then count emitted (record k { hint_ringbuf = hint ∷ k.hint_ringbuf })
    else count dropped k

unfoldable pub kick : ℕ → Kernel → Kernel
kick pid k = count escalated (record k { actions = kick_cpu pid ∷ k.actions })

-- The context of the task is the one that the tick has found. Any other value of the policy
-- matches no case.
unfoldable pub execute_escalation : Env → (pid policy : ℕ) → TaskCtx → Kernel → Kernel
unfolding EscalationPolicy.as_u32 emit_escalation_event kick
execute_escalation env pid policy tctx k =
    if policy == EscalationPolicy.as_u32 EscalationPolicy.none
    then k
    else if policy == EscalationPolicy.as_u32 EscalationPolicy.thread_kick
    then kick pid k
    else if policy == EscalationPolicy.as_u32 EscalationPolicy.cgroup_throttle
    then kick pid (emit_escalation_event env tctx.worker_id pid severity_penalty k)
    else if policy == EscalationPolicy.as_u32 EscalationPolicy.hybrid
    then kick pid (emit_escalation_event env tctx.worker_id pid severity_penalty k)
    else k

-- `ALL must be true`, the state of the worker aside.
unfoldable pub gate : MorpheusScb → TaskCtx → (preempt_seq slice grace : ℕ) → Bool
unfolding EscalationPolicy.as_u32
gate scb tctx preempt_seq slice grace =
    not (scb.escapable == 0)
    && (scb.is_in_critical_section == 0
        && (ltb scb.last_ack_seq preempt_seq
            && (ltb (add64 slice grace) tctx.runtime_ns
                && not (scb.escalation_policy == EscalationPolicy.as_u32 EscalationPolicy.none))))

-- The gated escalation check, in enforced mode.
unfoldable pub escalate :
    Env → (pid : ℕ) → TaskCtx → MorpheusScb → (preempt_seq slice grace : ℕ) → Kernel → Kernel
unfolding worker_can_escalate
escalate env pid tctx scb preempt_seq slice grace k =
    if not (worker_can_escalate scb.worker_state)
    then count blocked k
    else if gate scb tctx preempt_seq slice grace
    then execute_escalation env pid scb.escalation_policy tctx k
    else if scb.escapable == 0 || not (scb.is_in_critical_section == 0)
    then count blocked k
    else k

-- `__sync_add_and_fetch(&scb->preempt_seq, 1)`
abbrev pub raise_seq : MorpheusScb → MorpheusScb
raise_seq scb = record scb { preempt_seq = add64 scb.preempt_seq 1 }

-- Raise `preempt_seq`, and emit the hint that carries it.
unfoldable pub signal : Env → (pid : ℕ) → TaskCtx → MorpheusScb → (grace : ℕ) → Kernel → Kernel
signal env pid tctx scb grace k =
    emit_hint env
      (record {
        seq = (raise_seq scb).preempt_seq;
        reason = hint_budget;
        target_tid = pid;
        deadline_ns = add64 env.now grace;
      })
      (record k { scb_map = update k.scb_map tctx.worker_id (raise_seq scb) })

-- The slice is exceeded: signal, and escalate in enforced mode.
unfoldable pub request_yield :
    Env → (pid : ℕ) → TaskCtx → MorpheusScb → (slice grace : ℕ) → Kernel → Kernel
request_yield env pid tctx scb slice grace k =
    let k' = signal env pid tctx scb grace k in
    if k.scheduler_mode == mode_enforced
    then escalate env pid tctx (raise_seq scb) (raise_seq scb).preempt_seq slice grace k'
    else k'

-- The time since the last tick goes to the run time, once there was a tick.
unfoldable pub account : Env → TaskCtx → TaskCtx
account env tctx = record tctx {
  runtime_ns =
      if ltb 0 tctx.last_tick_ns
      then add64 tctx.runtime_ns (sub64 env.now tctx.last_tick_ns)
      else tctx.runtime_ns;
  last_tick_ns = env.now;
}

unfoldable pub tick_scb : Env → (pid : ℕ) → TaskCtx → MorpheusScb → Kernel → Kernel
unfolding worker_can_receive_hints
tick_scb env pid tctx scb k =
    if not (worker_can_receive_hints scb.worker_state)
    then count skipped k
    else if ltb (slice_of k) tctx.runtime_ns
    then request_yield env pid tctx scb (slice_of k) (grace_of k) k
    else k

unfoldable pub tick_worker : Env → (pid : ℕ) → TaskCtx → Kernel → Kernel
unfolding get_scb
tick_worker env pid tctx k =
    let tctx' = account env tctx in
    let k' = record k { task_ctx_map = update k.task_ctx_map pid (some tctx') } in
    elim (get_scb tctx'.worker_id k') [ none ↦ k' | some scb ↦ tick_scb env pid tctx' scb k' ]

unfoldable pub tick : Env → (pid : ℕ) → Kernel → Kernel
tick env pid k =
    let k' = count ticked k in
    elim (k'.task_ctx_map pid) [
      | none ↦ k'
      | some tctx ↦ if tctx.is_morpheus_worker then tick_worker env pid tctx k' else k'
    ]

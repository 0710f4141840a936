-- ===== src/Kernel/Escalates.antt =====
-- That a tick does escalate where it may.
use morpheus.Prelude.{
  ℕ, ◌+◌, ◌^◌, ◌<◌, ◌≤◌, ◌≡◌, ◌≢◌, true, not, ◌&&◌, some, List, ◌∷◌, update, ◌==◌, if◌then◌else◌,
  add64, arith,
}
use morpheus.Common.Scb.{MorpheusScb}
use morpheus.Kernel.State.{
  TaskCtx, severity_penalty, EscalationEvent, Kernel, Env, mode_enforced, slice_of, grace_of,
  kick_cpu, count, ticked,
}
use morpheus.Kernel.Escalation.{MayKick, Gate, signal-actions}
use morpheus.Kernel.Tick.{
  signal, raise_seq, tick, tick_worker, tick_scb, account, request_yield, escalate, gate,
  execute_escalation, emit_hint,
}

-- The escalation event for userspace: for the policies that throttle, if there is room.
abbrev pub events :
    Env → (pid : ℕ) → TaskCtx → (policy : ℕ) → List EscalationEvent → List EscalationEvent
events env pid tctx policy es =
    if not (policy == 1) && env.escalation_room
    then record {
      worker_id = tctx.worker_id;
      pid = pid;
      severity = severity_penalty;
      timestamp = env.now;
    }
      ∷ es
    else es

abbrev Escalated : Env → (pid : ℕ) → TaskCtx → (policy : ℕ) → Kernel → Kernel → Type 0
Escalated env pid tctx policy k k' =
    (k'.actions ≡ kick_cpu pid ∷ k.actions)
    × (k'.escalation_ringbuf ≡ events env pid tctx policy k.escalation_ringbuf)

execute_escalation-Escalated :
    (env : Env) (pid policy : ℕ) (tctx : TaskCtx) (k : Kernel)
    → policy ≢ 0
    → policy ≤ 3
    → Escalated env pid tctx policy k (execute_escalation env pid policy tctx k)
unfolding execute_escalation
execute_escalation-Escalated env pid policy tctx k some_policy known = ground arith

escalate-Escalated :
    (env : Env) (pid : ℕ) (tctx : TaskCtx) (scb : MorpheusScb) (preempt_seq slice grace : ℕ)
    (k : Kernel)
    → Gate tctx scb preempt_seq slice grace
    → scb.escalation_policy ≤ 3
    → Escalated env pid tctx scb.escalation_policy k
        (escalate env pid tctx scb preempt_seq slice grace k)
unfolding escalate gate
escalate-Escalated env pid tctx scb preempt_seq slice grace k g known =
    ground (arith, execute_escalation-Escalated env pid scb.escalation_policy tctx k)

signal-rings :
    (env : Env) (pid : ℕ) (tctx : TaskCtx) (scb : MorpheusScb) (grace : ℕ) (k : Kernel)
    → (signal env pid tctx scb grace k).escalation_ringbuf ≡ k.escalation_ringbuf
unfolding signal emit_hint
signal-rings env pid tctx scb grace k = ground arith

tick_scb-Escalated :
    (env : Env) (pid : ℕ) (tctx : TaskCtx) (scb : MorpheusScb) (k : Kernel)
    → MayKick tctx scb k
    → scb.escalation_policy ≤ 3
    → Escalated env pid tctx scb.escalation_policy k (tick_scb env pid tctx scb k)
unfolding tick_scb request_yield
tick_scb-Escalated env pid tctx scb k may known =
    let k' = signal env pid tctx scb (grace_of k) k in
    ground (
      arith,
      signal-actions env pid tctx scb (grace_of k) k,
      signal-rings env pid tctx scb (grace_of k) k,
      escalate-Escalated env pid tctx (raise_seq scb) (add64 scb.preempt_seq 1) (slice_of k)
          (grace_of k) k',
    )

tick_worker-Escalated :
    (env : Env) (pid : ℕ) (tctx : TaskCtx) (k : Kernel)
    → tctx.worker_id < k.max_workers
    → MayKick (account env tctx) (k.scb_map tctx.worker_id) k
    → (k.scb_map tctx.worker_id).escalation_policy ≤ 3
    → Escalated env pid tctx
        (k.scb_map tctx.worker_id).escalation_policy
        k
        (tick_worker env pid tctx k)
unfolding tick_worker account
tick_worker-Escalated env pid tctx k small may known = ground (
  arith,
  tick_scb-Escalated env pid (account env tctx) (k.scb_map tctx.worker_id)
      (record k { task_ctx_map = update k.task_ctx_map pid (some (account env tctx)) }),
)

-- A tick of a worker with a block whose policy is a known one, where the scheduler enforces, the
-- worker is running, has opted in, is in no critical section, has not acknowledged the number that
-- this tick raises, and has run for longer than the slice and longer than slice and grace period
-- together: the tick does kick the CPU of the task once, and it emits the escalation event if the
-- policy is another than the mere kick and the buffer has room, and otherwise none.
pub tick-escalates :
    (env : Env) (pid : ℕ) (k : Kernel) (tctx : TaskCtx)
    → k.task_ctx_map pid ≡ some tctx
    → tctx.is_morpheus_worker ≡ true
    → tctx.worker_id < k.max_workers
    → MayKick (account env tctx) (k.scb_map tctx.worker_id) k
    → (k.scb_map tctx.worker_id).escalation_policy ≤ 3
    → ((tick env pid k).actions ≡ kick_cpu pid ∷ k.actions)
      × ((tick env pid k).escalation_ringbuf
          ≡ events env pid tctx (k.scb_map tctx.worker_id).escalation_policy k.escalation_ringbuf)
unfolding tick
tick-escalates env pid k tctx e worker small may known =
    ground (arith, e, tick_worker-Escalated env pid tctx (count ticked k))

-- The comparison of `last_ack_seq` with `preempt_seq` shields no worker, as the tick compares with
-- the number that it has just raised. A worker with a block that has acknowledged every request
-- before this tick is kicked all the same, where the scheduler enforces, the worker is running, has
-- opted in, is in no critical section, has the policy of the mere kick, and has run for longer than
-- slice and grace period, if neither their sum nor the next number leaves 64 bits.
pub tick-kicks_acknowledged :
    (env : Env) (pid : ℕ) (k : Kernel) (tctx : TaskCtx)
    → k.task_ctx_map pid ≡ some tctx
    → tctx.is_morpheus_worker ≡ true
    → tctx.worker_id < k.max_workers
    → (k.scb_map tctx.worker_id).last_ack_seq ≡ (k.scb_map tctx.worker_id).preempt_seq
    → (k.scb_map tctx.worker_id).preempt_seq + 1 < 2 ^ 64
    → k.scheduler_mode ≡ mode_enforced
    → (k.scb_map tctx.worker_id).worker_state ≡ 2
    → (k.scb_map tctx.worker_id).escapable ≡ 1
    → (k.scb_map tctx.worker_id).is_in_critical_section ≡ 0
    → (k.scb_map tctx.worker_id).escalation_policy ≡ 1
    → slice_of k + grace_of k < 2 ^ 64
    → slice_of k + grace_of k < (account env tctx).runtime_ns
    → (tick env pid k).actions ≡ kick_cpu pid ∷ k.actions
tick-kicks_acknowledged env pid k tctx e worker small acked fits mode state opted calm policy f
      past =
    (tick-escalates env pid k tctx e worker small
      (record {
        enforced = mode;
        running = state;
        opted_in = omega arith;
        not_critical = calm;
        unacknowledged = omega arith;
        past_slice = omega arith;
        past_grace = omega arith;
        policy = omega arith;
      })
      (omega arith)).0

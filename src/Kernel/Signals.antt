-- ===== src/Kernel/Signals.antt =====
-- What a tick does to the blocks of the workers and to the ring buffer of hints.
use morpheus.Prelude.{
  ℕ, ◌≡◌, ◌⊎◌, refl, Bool, true, false, some, ◌∷◌, ltb, ◌&&◌, ◌==◌, if◌then◌else◌, add64, arith,
  update,
}
use morpheus.Common.Scb.{MorpheusScb}
use morpheus.Common.Hint.{MorpheusHint}
use morpheus.Kernel.State.{TaskCtx, Kernel, Env, slice_of, grace_of, count, ticked, hint_budget}
use morpheus.Kernel.Tick.{
  tick, tick_worker, tick_scb, account, request_yield, escalate, execute_escalation, emit_hint,
  signal, raise_seq,
}

-- The hint of a tick for a worker.
abbrev pub hint_of : Env → (pid : ℕ) → MorpheusScb → (grace : ℕ) → MorpheusHint
hint_of env pid scb grace = record {
  seq = add64 scb.preempt_seq 1;
  reason = hint_budget;
  target_tid = pid;
  deadline_ns = add64 env.now grace;
}

-- The shared memory of two states of the kernel.
pub record SameShared (k k' : Kernel) : Type 0 where
  pub scbs : k'.scb_map ≡ k.scb_map
  pub hints : k'.hint_ringbuf ≡ k.hint_ringbuf

pub record Signalled (env : Env) (pid worker_id : ℕ) (k k' : Kernel) : Type 0 where
  pub scbs : k'.scb_map ≡ update k.scb_map worker_id (raise_seq (k.scb_map worker_id))
  pub hints : k'.hint_ringbuf ≡ (
      if env.hint_room
      then hint_of env pid (k.scb_map worker_id) (grace_of k) ∷ k.hint_ringbuf
      else k.hint_ringbuf)

execute_escalation-SameShared :
    (env : Env) (pid policy : ℕ) (tctx : TaskCtx) (k : Kernel)
    → SameShared k (execute_escalation env pid policy tctx k)
unfolding execute_escalation
execute_escalation-SameShared env pid policy tctx k = ground arith

escalate-SameShared :
    (env : Env) (pid : ℕ) (tctx : TaskCtx) (scb : MorpheusScb) (preempt_seq slice grace : ℕ)
    (k : Kernel)
    → SameShared k (escalate env pid tctx scb preempt_seq slice grace k)
unfolding escalate
escalate-SameShared env pid tctx scb preempt_seq slice grace k =
    ground (arith, execute_escalation-SameShared env pid scb.escalation_policy tctx k)

signal-Signalled :
    (env : Env) (pid : ℕ) (tctx : TaskCtx) (k : Kernel)
    → Signalled env pid tctx.worker_id k
        (signal env pid tctx (k.scb_map tctx.worker_id) (grace_of k) k)
unfolding signal emit_hint
signal-Signalled env pid tctx k = ground arith

request_yield-Signalled :
    (env : Env) (pid : ℕ) (tctx : TaskCtx) (slice : ℕ) (k : Kernel)
    → Signalled env pid tctx.worker_id k
        (request_yield env pid tctx (k.scb_map tctx.worker_id) slice (grace_of k) k)
unfolding request_yield
request_yield-Signalled env pid tctx slice k =
    let scb = k.scb_map tctx.worker_id in
    let k' = signal env pid tctx scb (grace_of k) k in
    ground (
      arith,
      signal-Signalled env pid tctx k,
      escalate-SameShared env pid tctx (raise_seq scb) (add64 scb.preempt_seq 1) slice (grace_of k)
          k',
    )

-- Whether a tick asks the worker of a context to yield.
abbrev pub wants_yield : Env → TaskCtx → Kernel → Bool
wants_yield env tctx k =
    tctx.is_morpheus_worker
    && (ltb tctx.worker_id k.max_workers
        && ((k.scb_map tctx.worker_id).worker_state == 2
            && ltb (slice_of k) (account env tctx).runtime_ns))

tick_scb-signals :
    (env : Env) (pid : ℕ) (tctx : TaskCtx) (k : Kernel)
    → let scb = k.scb_map tctx.worker_id in
      ((scb.worker_state == 2 && ltb (slice_of k) tctx.runtime_ns) ≡ true)
        × Signalled env pid tctx.worker_id k (tick_scb env pid tctx scb k)
      ⊎ ((scb.worker_state == 2 && ltb (slice_of k) tctx.runtime_ns) ≡ false)
        × SameShared k (tick_scb env pid tctx scb k)
unfolding tick_scb
tick_scb-signals env pid tctx k =
    ground (arith, request_yield-Signalled env pid tctx (slice_of k) k)

account_keeps :
    (env : Env) (tctx : TaskCtx)
    → ((account env tctx).worker_id ≡ tctx.worker_id)
      × ((account env tctx).is_morpheus_worker ≡ tctx.is_morpheus_worker)
unfolding account
account_keeps env tctx = (refl, refl)

tick_worker-signals :
    (env : Env) (pid : ℕ) (tctx : TaskCtx) (k : Kernel)
    → tctx.is_morpheus_worker ≡ true
    → (wants_yield env tctx k ≡ true)
        × Signalled env pid tctx.worker_id k (tick_worker env pid tctx k)
      ⊎ (wants_yield env tctx k ≡ false) × SameShared k (tick_worker env pid tctx k)
unfolding tick_worker
tick_worker-signals env pid tctx k w = ground (
  arith,
  account_keeps env tctx,
  tick_scb-signals env pid (account env tctx)
      (record k { task_ctx_map = update k.task_ctx_map pid (some (account env tctx)) }),
)

-- A tick of a task asks for a yield exactly if the task is a worker with a block, that worker is
-- running, and its run time at this tick exceeds the slice: then it raises `preempt_seq` of that
-- block by one and of no other, and puts the hint that carries the new number and the deadline into
-- the ring buffer if there is room. Otherwise it changes no block and emits no hint.
pub tick-signals :
    (env : Env) (pid : ℕ) (k : Kernel) (tctx : TaskCtx)
    → k.task_ctx_map pid ≡ some tctx
    → (wants_yield env tctx k ≡ true) × Signalled env pid tctx.worker_id k (tick env pid k)
      ⊎ (wants_yield env tctx k ≡ false) × SameShared k (tick env pid k)
unfolding tick
tick-signals env pid k tctx e = ground (arith, e, tick_worker-signals env pid tctx (count ticked k))

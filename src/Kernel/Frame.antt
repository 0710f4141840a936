-- ===== src/Kernel/Frame.antt =====
-- What a tick leaves alone.
use morpheus.Prelude.{ℕ, ◌≡◌, ◌⊎◌, refl, none, some, arith, update}
use morpheus.Common.Scb.{MorpheusScb}
use morpheus.Kernel.State.{TaskCtx, Kernel, Env, count, ticked, slice_of, grace_of}
use morpheus.Kernel.Tick.{
  tick, tick_worker, tick_scb, account, request_yield, escalate, execute_escalation, emit_hint,
  signal, raise_seq,
}

-- The maps and settings that only others write, and the contexts of the tasks.
pub record SameRest (k k' : Kernel) : Type 0 where
  pub tids : k'.worker_tid_map ≡ k.worker_tid_map
  pub contexts : k'.task_ctx_map ≡ k.task_ctx_map
  pub config : k'.config ≡ k.config
  pub mode : k'.scheduler_mode ≡ k.scheduler_mode
  pub workers : k'.max_workers ≡ k.max_workers

execute_escalation-SameRest :
    (env : Env) (pid policy : ℕ) (tctx : TaskCtx) (k : Kernel)
    → SameRest k (execute_escalation env pid policy tctx k)
unfolding execute_escalation
execute_escalation-SameRest env pid policy tctx k = ground arith

escalate-SameRest :
    (env : Env) (pid : ℕ) (tctx : TaskCtx) (scb : MorpheusScb) (preempt_seq slice grace : ℕ)
    (k : Kernel)
    → SameRest k (escalate env pid tctx scb preempt_seq slice grace k)
unfolding escalate
escalate-SameRest env pid tctx scb preempt_seq slice grace k =
    ground (arith, execute_escalation-SameRest env pid scb.escalation_policy tctx k)

signal-SameRest :
    (env : Env) (pid : ℕ) (tctx : TaskCtx) (scb : MorpheusScb) (grace : ℕ) (k : Kernel)
    → SameRest k (signal env pid tctx scb grace k)
unfolding signal emit_hint
signal-SameRest env pid tctx scb grace k = ground arith

request_yield-SameRest :
    (env : Env) (pid : ℕ) (tctx : TaskCtx) (scb : MorpheusScb) (slice grace : ℕ) (k : Kernel)
    → SameRest k (request_yield env pid tctx scb slice grace k)
unfolding request_yield
request_yield-SameRest env pid tctx scb slice grace k =
    let k' = signal env pid tctx scb grace k in
    ground (
      arith,
      signal-SameRest env pid tctx scb grace k,
      escalate-SameRest env pid tctx (raise_seq scb) (raise_seq scb).preempt_seq slice grace k',
    )

tick_scb-SameRest :
    (env : Env) (pid : ℕ) (tctx : TaskCtx) (scb : MorpheusScb) (k : Kernel)
    → SameRest k (tick_scb env pid tctx scb k)
unfolding tick_scb
tick_scb-SameRest env pid tctx scb k =
    ground (arith, request_yield-SameRest env pid tctx scb (slice_of k) (grace_of k) k)

-- A tick of a task with a context leaves the registrations, the mode and the settings alone, and of
-- the contexts changes at most that one, by accounting for the time.
pub tick-SameRest :
    (env : Env) (pid : ℕ) (k : Kernel) (tctx : TaskCtx)
    → k.task_ctx_map pid ≡ some tctx
    → SameRest k (tick env pid k)
      ⊎ SameRest
          (record k { task_ctx_map = update k.task_ctx_map pid (some (account env tctx)) })
          (tick env pid k)
unfolding tick tick_worker
tick-SameRest env pid k tctx e =
    let k' = count ticked k in
    let k'' = record k' { task_ctx_map = update k.task_ctx_map pid (some (account env tctx)) } in
    ground (
      arith,
      e,
      tick_scb-SameRest env pid (account env tctx) (k.scb_map (account env tctx).worker_id) k'',
    )

-- A tick of a task without a context only counts.
pub tick-none :
    (env : Env) (pid : ℕ) (k : Kernel) → k.task_ctx_map pid ≡ none → tick env pid k ≡ count ticked k
unfolding tick
tick-none env pid k e = rw (e, tick) refl

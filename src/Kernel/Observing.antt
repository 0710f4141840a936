-- ===== src/Kernel/Observing.antt =====
-- A scheduler that only observes: what a tick does not do.
use morpheus.Prelude.{ℕ, ◌≡◌, ◌≢◌, some, arith, update, inl, inr, Option-cases}
use morpheus.Common.Scb.{MorpheusScb}
use morpheus.Kernel.State.{TaskCtx, Kernel, Env, count, ticked, slice_of, grace_of}
use morpheus.Kernel.Tick.{tick, tick_worker, tick_scb, account, request_yield, emit_hint, signal}

-- No CPU was kicked, no event was submitted, and the mode is the same.
pub record Unforced (k k' : Kernel) : Type 0 where
  pub mode : k'.scheduler_mode ≡ k.scheduler_mode
  pub actions : k'.actions ≡ k.actions
  pub events : k'.escalation_ringbuf ≡ k.escalation_ringbuf

signal-Unforced :
    (env : Env) (pid : ℕ) (tctx : TaskCtx) (scb : MorpheusScb) (grace : ℕ) (k : Kernel)
    → Unforced k (signal env pid tctx scb grace k)
unfolding signal emit_hint
signal-Unforced env pid tctx scb grace k = ground arith

request_yield-Unforced :
    (env : Env) (pid : ℕ) (tctx : TaskCtx) (scb : MorpheusScb) (slice grace : ℕ) (k : Kernel)
    → k.scheduler_mode ≢ 1
    → Unforced k (request_yield env pid tctx scb slice grace k)
unfolding request_yield
request_yield-Unforced env pid tctx scb slice grace k observes =
    ground (arith, signal-Unforced env pid tctx scb grace k)

tick_scb-Unforced :
    (env : Env) (pid : ℕ) (tctx : TaskCtx) (scb : MorpheusScb) (k : Kernel)
    → k.scheduler_mode ≢ 1
    → Unforced k (tick_scb env pid tctx scb k)
unfolding tick_scb
tick_scb-Unforced env pid tctx scb k observes =
    ground (arith, request_yield-Unforced env pid tctx scb (slice_of k) (grace_of k) k)

pub tick-Unforced :
    (env : Env) (pid : ℕ) (k : Kernel) → k.scheduler_mode ≢ 1 → Unforced k (tick env pid k)
unfolding tick tick_worker
tick-Unforced env pid k observes = elim (Option-cases (k.task_ctx_map pid)) [
  | inl e ↦ ground (arith, e)
  | inr (tctx, e) ↦
      let k' = count ticked k in
      let k'' = record k' { task_ctx_map = update k.task_ctx_map pid (some (account env tctx)) } in
      ground (
        arith,
        e,
        tick_scb-Unforced env pid (account env tctx) (k.scb_map (account env tctx).worker_id) k'',
      )
]

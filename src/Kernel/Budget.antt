-- ===== src/Kernel/Budget.antt =====
-- What the budget of a worker does when its task stops.
use morpheus.Prelude.{ℕ, ◌-◌, ◌^◌, ◌<◌, ◌≤◌, ◌≡◌, true, some, add64, arith, update}
use morpheus.Kernel.State.{TaskCtx, Kernel, Env}
use morpheus.Kernel.Ops.{stopping, charge}

module _ (env : Env) (pid : ℕ) (k : Kernel) {tctx : TaskCtx} where
  -- Of a worker with a block, where a tick came before, at a 64-bit time from then on: stopping
  -- adds the time since then to the run time of the task and takes it from the budget of its
  -- worker, which does not go below zero, and from no other budget.
  pub stopping-charges :
      (garbage : ℕ)
      → k.task_ctx_map pid ≡ some tctx
      → tctx.is_morpheus_worker ≡ true
      → tctx.worker_id < k.max_workers
      → 0 < tctx.last_tick_ns
      → tctx.last_tick_ns ≤ env.now
      → env.now < 2 ^ 64
      → let delta = env.now - tctx.last_tick_ns in
        let scb = k.scb_map tctx.worker_id in
        ((stopping garbage env pid k).scb_map
          ≡ update k.scb_map tctx.worker_id
              (record scb { budget_remaining_ns = scb.budget_remaining_ns - delta }))
        × ((stopping garbage env pid k).task_ctx_map
            ≡ update k.task_ctx_map pid
                (some (record tctx { runtime_ns = add64 tctx.runtime_ns delta })))
  unfolding stopping charge
  stopping-charges garbage e worker small ticked later fits = ground (arith, e)

  -- Of a worker with a block, where no tick came before: `delta` is never assigned, and what the
  -- stack happens to hold is taken from the budget, so every budget up to the old one is a possible
  -- outcome.
  pub stopping-garbage :
      (budget : ℕ)
      → k.task_ctx_map pid ≡ some tctx
      → tctx.is_morpheus_worker ≡ true
      → tctx.worker_id < k.max_workers
      → tctx.last_tick_ns ≡ 0
      → budget ≤ (k.scb_map tctx.worker_id).budget_remaining_ns
      → (garbage : ℕ) × (((stopping garbage env pid k).scb_map tctx.worker_id).budget_remaining_ns
          ≡ budget)
  unfolding stopping charge
  stopping-garbage budget e worker small none_yet le =
      ((k.scb_map tctx.worker_id).budget_remaining_ns - budget, ground (arith, e))

-- ===== src/System/Shield.antt =====
-- A guard of the runtime holds off the scheduler: the two sides of the flag in the block.
use morpheus.Prelude.{ℕ, suc, ◌≡◌, inl, inr, some, arith}
use morpheus.Runtime.Worker.{Thread}
use morpheus.Runtime.Critical.Nesting.{Holds, Steps, Fits, Steps-Holds}
use morpheus.Kernel.State.{Kernel, Env, TaskCtx}
use morpheus.Kernel.Tick.{tick}
use morpheus.Kernel.Escalation.{tick-kicks}

-- From a state of a worker thread in which the flag agrees with the number of guards held: while it still
-- holds a guard, in whatever order it has taken and dropped guards before, at most 2^32 - 1 of them held
-- at once, a tick of its task never kicks the CPU, whatever the mode, the settings and the other words of
-- the block are.
pub guard-shields :
    {n m : ℕ} {t u : Thread}
    → Holds n t
    → (r : Steps n t (suc m) u) → Fits r
    → (env : Env) (pid : ℕ) (k : Kernel) (tctx : TaskCtx) → k.task_ctx_map pid ≡ some tctx
    → k.scb_map tctx.worker_id ≡ u.scb
    → (tick env pid k).actions ≡ k.actions
guard-shields h r fits env pid k tctx e shared =
    let flag = (Steps-Holds r fits h).flag in
    elim (tick-kicks env pid k) [
      | inl same ↦ same
      | inr (kicked, (c, ec, worker, may)) ↦ ground (arith, e, ec, shared, flag, may.not_critical)
    ]

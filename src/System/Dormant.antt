-- ===== src/System/Dormant.antt =====
-- The lifecycle state of a worker, which the scheduler asks about, is stored by no operation.
use morpheus.Prelude.{
  ℕ, suc, ◌≡◌, ◌≢◌, refl, inl, inr, Bool, true, some, List, [], ◌∷◌, arith, Option-cases, ap, ◌∙◌,
}
use morpheus.Common.Scb.{MorpheusScb}
use morpheus.Runtime.Error.{Result, ok}
use morpheus.Runtime.ScbHandle.{
  ScbHandle, acknowledge_from, enter_critical, exit_critical, set_priority,
}
use morpheus.Runtime.ScbHandle
use morpheus.Runtime.ScbHandle.Laws.{new-fresh}
use morpheus.Kernel.State.{
  Kernel, Env, TaskCtx, Action, kick_cpu, scx_dispatch, scx_create_dsq, scx_consume,
}
use morpheus.Kernel.Tick.{tick}
use morpheus.Kernel.Ops.{
  init, dispatch, enable, init_task, select_cpu, enqueue, running, stopping, charge,
}
use morpheus.Kernel.Signals.{tick-signals, wants_yield, SameShared}
use morpheus.Kernel.Frame.{tick-none}
use morpheus.Kernel.Escalation.{tick-kicks}
use morpheus.Loader.Tune.{adaptive_tune}
use morpheus.System.{
  store, Step, Steps, scheduler_starts, cpu_asks, task_enters, task_starts, task_placed,
  task_queued, task_runs, task_stops, ticks, maps_block, acknowledges, enters, exits, prioritizes,
  registers, unregisters, tunes, here, next,
}

-- Every block is in the state that the zeroed map starts in.
abbrev pub Dormant : Kernel → Type 0
Dormant k = (i : ℕ) → (k.scb_map i).worker_state ≡ 0

abbrev pub kicks : List Action → ℕ
kicks [] = 0
kicks (kick_cpu pid ∷ rest) = suc (kicks rest)
kicks (scx_dispatch pid slice ∷ rest) = kicks rest
kicks (scx_create_dsq ∷ rest) = kicks rest
kicks (scx_consume ∷ rest) = kicks rest

pub record Quiet (k k' : Kernel) : Type 0 where
  pub states : (i : ℕ) → (k'.scb_map i).worker_state ≡ (k.scb_map i).worker_state
  pub hints : k'.hint_ringbuf ≡ k.hint_ringbuf
  pub kicked : kicks k'.actions ≡ kicks k.actions

not_wanted : (env : Env) (tctx : TaskCtx) (k : Kernel) → Dormant k → wants_yield env tctx k ≢ true
not_wanted env tctx k d w = ground (arith, d tctx.worker_id)

tick-SameShared : (env : Env) (pid : ℕ) (k : Kernel) → Dormant k → SameShared k (tick env pid k)
tick-SameShared env pid k d = elim (Option-cases (k.task_ctx_map pid)) [
  | inl e ↦ rw (tick-none env pid k e) (record { scbs = refl; hints = refl })
  | inr (tctx, e) ↦ ground (arith, tick-signals env pid k tctx e, not_wanted env tctx k d)
]

tick-unkicked :
    (env : Env) (pid : ℕ) (k : Kernel) → Dormant k → (tick env pid k).actions ≡ k.actions
tick-unkicked env pid k d = elim (tick-kicks env pid k) [
  | inl e ↦ e
  | inr (e, (tctx, c, w, may)) ↦ ground (arith, may.running, d tctx.worker_id)
]

tick-Quiet : (env : Env) (pid : ℕ) (k : Kernel) → Dormant k → Quiet k (tick env pid k)
tick-Quiet env pid k d =
    let same = tick-SameShared env pid k d in
    record {
      states = λ i. ap (λ (m : ℕ → MorpheusScb). (m i).worker_state) same.scbs;
      hints = same.hints;
      kicked = ap kicks (tick-unkicked env pid k d);
    }

store-Quiet :
    (i : ℕ) (scb : MorpheusScb) (k : Kernel)
    → scb.worker_state ≡ (k.scb_map i).worker_state
    → Quiet k (store i scb k)
store-Quiet i scb k e = record { states = λ j. ground (arith, e); hints = refl; kicked = refl }

select_cpu-Quiet : (is_idle : Bool) (pid : ℕ) (k : Kernel) → Quiet k (select_cpu is_idle pid k)
unfolding select_cpu
select_cpu-Quiet is_idle pid k = ground arith

enqueue-Quiet : (pid : ℕ) (k : Kernel) → Quiet k (enqueue pid k)
unfolding enqueue
enqueue-Quiet pid k = ground arith

running-Quiet : (env : Env) (pid : ℕ) (k : Kernel) → Quiet k (running env pid k)
unfolding running
running-Quiet env pid k = ground arith

stopping-Quiet :
    (garbage : ℕ) (env : Env) (pid : ℕ) (k : Kernel) → Quiet k (stopping garbage env pid k)
unfolding stopping charge
stopping-Quiet garbage env pid k = ground arith

init_task-Quiet :
    (created : Bool) (pid : ℕ) (k : Kernel) {k' : Kernel}
    → init_task created pid k ≡ some k'
    → Quiet k k'
unfolding init_task
init_task-Quiet created pid k e = ground arith

new-Quiet :
    (map_mut : ℕ → ℕ → Result (Unit {0})) (worker_id : ℕ) (b : Bool) (k : Kernel) {h : ScbHandle}
    {m : ℕ → MorpheusScb}
    → ScbHandle.new map_mut k.scb_map worker_id b ≡ ok (h, m)
    → Quiet k (record k { scb_map = m })
new-Quiet map_mut worker_id b k {h} {m} e =
    ground (arith, new-fresh map_mut k.scb_map worker_id b e)

Step-Quiet : {k k' : Kernel} → Step k k' → Dormant k → Quiet k k'
unfolding init dispatch enable acknowledge_from enter_critical exit_critical set_priority
    adaptive_tune
Step-Quiet (scheduler_starts created) d = record { states = λ i. refl; hints = refl; kicked = refl }
Step-Quiet cpu_asks d = record { states = λ i. refl; hints = refl; kicked = refl }
Step-Quiet (task_enters pid) d = record { states = λ i. refl; hints = refl; kicked = refl }
Step-Quiet {k} (task_starts created pid e) d = init_task-Quiet created pid k e
Step-Quiet {k} (task_placed is_idle pid) d = select_cpu-Quiet is_idle pid k
Step-Quiet {k} (task_queued pid) d = enqueue-Quiet pid k
Step-Quiet {k} (task_runs env pid) d = running-Quiet env pid k
Step-Quiet {k} (task_stops garbage env pid) d = stopping-Quiet garbage env pid k
Step-Quiet {k} (ticks env pid) d = tick-Quiet env pid k d
Step-Quiet {k} (maps_block map_mut worker_id b e) d = new-Quiet map_mut worker_id b k e
Step-Quiet {k} (acknowledges i target current) d =
    store-Quiet i (acknowledge_from target current (k.scb_map i)).0 k (ground arith)
Step-Quiet {k} (enters i) d = store-Quiet i (enter_critical (k.scb_map i)).0 k refl
Step-Quiet {k} (exits i) d = store-Quiet i (exit_critical (k.scb_map i)) k refl
Step-Quiet {k} (prioritizes i priority) d =
    store-Quiet i (set_priority priority (k.scb_map i)) k refl
Step-Quiet (registers bpf tid worker_id e) d = record {
  states = λ i. refl;
  hints = refl;
  kicked = refl;
}
Step-Quiet (unregisters bpf tid e) d = record { states = λ i. refl; hints = refl; kicked = refl }
Step-Quiet (tunes parallelism loadavg slice grace) d = record {
  states = λ i. refl;
  hints = refl;
  kicked = refl;
}

-- No call of the scheduler, of the runtime and of the loader stores a lifecycle state. So from any
-- memory in which every block is in the initial state, whatever calls follow in whatever order:
-- every block stays in it, no hint is ever put into the ring buffer, and no CPU is kicked.
pub Steps-Dormant :
    {k k' : Kernel}
    → Dormant k
    → Steps k k'
    → Dormant k' × (k'.hint_ringbuf ≡ k.hint_ringbuf) × (kicks k'.actions ≡ kicks k.actions)
Steps-Dormant d here = (d, refl, refl)
Steps-Dormant d (next r st) =
    let (d', h, a) = Steps-Dormant d r in
    let q = Step-Quiet st d' in (λ i. q.states i ∙ d' i, q.hints ∙ h, q.kicked ∙ a)

-- ===== src/System/Blocks.antt =====
-- What a call of the scheduler, of the runtime or of the loader does to one block.
use morpheus.Prelude.{
  ℕ, ◌≡◌, ◌⊎◌, refl, sym, ap, subst, Bool, true, false, none, some, ◌==◌, ltb, if◌then◌else◌,
  update, sub64, arith, inl, inr, Option-cases,
}
use morpheus.Common.Scb.{MorpheusScb}
use morpheus.Runtime.Error.{Result, ok}
use morpheus.Runtime.ScbHandle.{
  ScbHandle, initialize, acknowledge_from, enter_critical, exit_critical, set_priority,
}
use morpheus.Runtime.ScbHandle
use morpheus.Kernel.State.{Kernel, Env, TaskCtx}
use morpheus.Kernel.Tick.{tick, raise_seq}
use morpheus.Kernel.Ops.{
  init, dispatch, enable, init_task, select_cpu, enqueue, running, stopping, charge,
}
use morpheus.Kernel.Signals.{tick-signals}
use morpheus.Kernel.Frame.{tick-none}
use morpheus.Loader.Tune.{adaptive_tune}
use morpheus.System.{
  Step, scheduler_starts, cpu_asks, task_enters, task_starts, task_placed, task_queued, task_runs,
  task_stops, ticks, maps_block, acknowledges, enters, exits, prioritizes, registers, unregisters,
  tunes,
}

-- Nothing, or one of the operations that store to a block.
pub data Change (scb : MorpheusScb) : MorpheusScb → Type 0 where
  kept : Change scb scb
  raised : scb.worker_state ≡ 2 → Change scb (raise_seq scb)
  charged : (delta : ℕ) → Change scb (charge delta scb)
  initialized : (escapable : Bool) → Change scb (initialize escapable scb)
  acknowledged : (target current : ℕ) → Change scb (acknowledge_from target current scb).0
  entered : Change scb (enter_critical scb).0
  exited : Change scb (exit_critical scb)
  prioritized : (priority : ℕ) → Change scb (set_priority priority scb)

same_index : (i j : ℕ) → (j == i) ≡ true → j ≡ i
same_index i j e = ground (arith, e)

-- A change of one block is a change of every block.
update-Change :
    (i j : ℕ) (m : ℕ → MorpheusScb) {scb : MorpheusScb}
    → Change (m j) scb
    → Change (m i) (update m j scb i)
update-Change i j m {scb} c = go (j == i) (same_index i j)
  where
    go : (b : Bool) → (b ≡ true → j ≡ i) → Change (m i) (if b then scb else m i)
    go true e = subst (λ n. Change (m n) scb) (e refl) c
    go false e = kept

unchanged : {scb scb' : MorpheusScb} → scb' ≡ scb → Change scb scb'
unchanged {scb} e = subst (Change scb) (sym e) kept

at_all : (i : ℕ) {m m' : ℕ → MorpheusScb} → m' ≡ m → Change (m i) (m' i)
at_all i e = unchanged (ap (λ (n : ℕ → MorpheusScb). n i) e)

-- A store to one block of the map.
stored :
    (i j : ℕ) (m : ℕ → MorpheusScb) {m' : ℕ → MorpheusScb} {scb : MorpheusScb}
    → m' ≡ update m j scb
    → Change (m j) scb
    → Change (m i) (m' i)
stored i j m e c =
    subst (λ (n : ℕ → MorpheusScb). Change (m i) (n i)) (sym e) (update-Change i j m c)

pub init_task-scbs :
    (created : Bool) (pid : ℕ) (k : Kernel) {k' : Kernel}
    → init_task created pid k ≡ some k'
    → k'.scb_map ≡ k.scb_map
unfolding init_task
init_task-scbs created pid k e = ground arith

pub select_cpu-scbs :
    (is_idle : Bool) (pid : ℕ) (k : Kernel) → (select_cpu is_idle pid k).scb_map ≡ k.scb_map
unfolding select_cpu
select_cpu-scbs is_idle pid k = ground arith

pub enqueue-scbs : (pid : ℕ) (k : Kernel) → (enqueue pid k).scb_map ≡ k.scb_map
unfolding enqueue
enqueue-scbs pid k = ground arith

pub running-scbs : (env : Env) (pid : ℕ) (k : Kernel) → (running env pid k).scb_map ≡ k.scb_map
unfolding running
running-scbs env pid k = ground arith

pub new-initializes :
    (map_mut : ℕ → ℕ → Result (Unit {0})) (m : ℕ → MorpheusScb) (worker_id : ℕ) (b : Bool)
    {h : ScbHandle} {m' : ℕ → MorpheusScb}
    → ScbHandle.new map_mut m worker_id b ≡ ok (h, m')
    → m' ≡ update m worker_id (initialize b (m worker_id))
unfolding ScbHandle.new
new-initializes map_mut m worker_id b e = ground arith

-- The time that is charged.
abbrev pub delta_of : (garbage : ℕ) → Env → TaskCtx → ℕ
delta_of garbage env tctx =
    if ltb 0 tctx.last_tick_ns then sub64 env.now tctx.last_tick_ns else garbage

pub stopping_cases :
    (garbage : ℕ) (env : Env) (pid : ℕ) (k : Kernel) (tctx : TaskCtx)
    → k.task_ctx_map pid ≡ some tctx
    → ((stopping garbage env pid k).scb_map ≡ k.scb_map)
      ⊎ ((stopping garbage env pid k).scb_map
          ≡ update k.scb_map tctx.worker_id
              (charge (delta_of garbage env tctx) (k.scb_map tctx.worker_id)))
unfolding stopping
stopping_cases garbage env pid k tctx e = ground (arith, e)

pub stopping-none :
    (garbage : ℕ) (env : Env) (pid : ℕ) (k : Kernel)
    → k.task_ctx_map pid ≡ none
    → (stopping garbage env pid k).scb_map ≡ k.scb_map
unfolding stopping
stopping-none garbage env pid k e = ground (arith, e)

stopping-Change :
    (garbage : ℕ) (env : Env) (pid i : ℕ) (k : Kernel)
    → Change (k.scb_map i) ((stopping garbage env pid k).scb_map i)
stopping-Change garbage env pid i k = elim (Option-cases (k.task_ctx_map pid)) [
  | inl e ↦ at_all i (stopping-none garbage env pid k e)
  | inr (tctx, e) ↦ elim (stopping_cases garbage env pid k tctx e) [
    | inl same ↦ at_all i same
    | inr one ↦ stored i tctx.worker_id k.scb_map one (charged (delta_of garbage env tctx))
  ]
]

tick-Change :
    (env : Env) (pid i : ℕ) (k : Kernel) → Change (k.scb_map i) ((tick env pid k).scb_map i)
tick-Change env pid i k = elim (Option-cases (k.task_ctx_map pid)) [
  | inl e ↦ at_all i (ap (λ (l : Kernel). l.scb_map) (tick-none env pid k e))
  | inr (tctx, e) ↦ elim (tick-signals env pid k tctx e) [
    | inr (idle, same) ↦ at_all i same.scbs
    | inl (wanted, signalled) ↦
        stored i tctx.worker_id k.scb_map signalled.scbs (raised (ground (arith, wanted)))
  ]
]

-- Every step changes every block by one of the operations, and tells a worker to yield only while it
-- runs.
pub Step-Change : {k k' : Kernel} → Step k k' → (i : ℕ) → Change (k.scb_map i) (k'.scb_map i)
unfolding init dispatch enable adaptive_tune
Step-Change (scheduler_starts created) i = kept
Step-Change cpu_asks i = kept
Step-Change (task_enters pid) i = kept
Step-Change {k} (task_starts created pid e) i = at_all i (init_task-scbs created pid k e)
Step-Change {k} (task_placed is_idle pid) i = at_all i (select_cpu-scbs is_idle pid k)
Step-Change {k} (task_queued pid) i = at_all i (enqueue-scbs pid k)
Step-Change {k} (task_runs env pid) i = at_all i (running-scbs env pid k)
Step-Change {k} (task_stops garbage env pid) i = stopping-Change garbage env pid i k
Step-Change {k} (ticks env pid) i = tick-Change env pid i k
Step-Change {k} (maps_block map_mut worker_id b e) i =
    stored i worker_id k.scb_map (new-initializes map_mut k.scb_map worker_id b e) (initialized b)
Step-Change {k} (acknowledges j target current) i =
    update-Change i j k.scb_map (acknowledged target current)
Step-Change {k} (enters j) i = update-Change i j k.scb_map entered
Step-Change {k} (exits j) i = update-Change i j k.scb_map exited
Step-Change {k} (prioritizes j priority) i = update-Change i j k.scb_map (prioritized priority)
Step-Change (registers bpf tid worker_id e) i = kept
Step-Change (unregisters bpf tid e) i = kept
Step-Change (tunes parallelism loadavg slice grace) i = kept

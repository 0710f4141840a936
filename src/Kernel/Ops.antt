-- ===== src/Kernel/Ops.antt =====
-- scx_morpheus/src/bpf/scx_morpheus.bpf.c: the other operations of the scheduler, those that keep
-- the context of a task and the budget of its worker.
use morpheus.Prelude.{
  ℕ, ◌-◌, Bool, true, false, Option, none, some, ◌∷◌, ltb, if◌then◌else◌, add64, sub64, update,
  lookup, nat_eq,
}
use morpheus.Common.Scb.{MorpheusScb}
use morpheus.Kernel.State.{
  TaskCtx, scx_dispatch, scx_create_dsq, scx_consume, Kernel, Env, get_scb, slice_of,
}

abbrev set_task : ℕ → TaskCtx → Kernel → Kernel
set_task pid tctx k = record k { task_ctx_map = update k.task_ctx_map pid (some tctx) }

-- `created` is whether the storage for the context was had; `none` is -ENOMEM.
unfoldable pub init_task : (created : Bool) → (pid : ℕ) → Kernel → Option Kernel
unfolding lookup
init_task created pid k =
    if created
    then some (
        set_task pid
          (elim (lookup pid k.worker_tid_map) [
            | none ↦ record {
              last_tick_ns = 0;
              runtime_ns = 0;
              worker_id = 0;
              is_morpheus_worker = false;
            }
            | some worker_id ↦ record {
              last_tick_ns = 0;
              runtime_ns = 0;
              worker_id = worker_id;
              is_morpheus_worker = true;
            }
          ])
          k)
    else none

-- A task that starts to run may have been registered meanwhile.
unfoldable pub register_late : (pid : ℕ) → TaskCtx → Kernel → TaskCtx
unfolding lookup
register_late pid tctx k =
    if tctx.is_morpheus_worker then tctx else elim (lookup pid k.worker_tid_map) [
      | none ↦ tctx
      | some worker_id ↦ record tctx { worker_id = worker_id; is_morpheus_worker = true }
    ]

unfoldable pub running : Env → (pid : ℕ) → Kernel → Kernel
unfolding register_late
running env pid k = elim (k.task_ctx_map pid) [
  | none ↦ k
  | some tctx ↦ set_task pid (record (register_late pid tctx k) { last_tick_ns = env.now }) k
]

-- The choice of the CPU is that of the sched_ext core, which also says whether that CPU is idle.
-- Then the task is dispatched at once, with the default slice whatever the settings hold.
unfoldable pub select_cpu : (is_idle : Bool) → (pid : ℕ) → Kernel → Kernel
select_cpu is_idle pid k =
    if is_idle then record k { actions = scx_dispatch pid k.default_slice_ns ∷ k.actions } else k

unfoldable pub enqueue : (pid : ℕ) → Kernel → Kernel
enqueue pid k =
    let k' : Kernel = elim (k.task_ctx_map pid) [
      | none ↦ k
      | some tctx ↦ set_task pid (record tctx { runtime_ns = 0 }) k
    ] in
    record k' { actions = scx_dispatch pid (slice_of k) ∷ k'.actions }

unfoldable pub charge : (delta : ℕ) → MorpheusScb → MorpheusScb
charge delta scb = record scb {
  budget_remaining_ns =
      if ltb delta scb.budget_remaining_ns then scb.budget_remaining_ns - delta else 0;
}

-- `garbage` is what the uninitialized `delta` holds where no tick came before.
unfoldable pub stopping_worker : (garbage : ℕ) → Env → (pid : ℕ) → TaskCtx → Kernel → Kernel
unfolding charge get_scb
stopping_worker garbage env pid tctx k =
    let delta = if ltb 0 tctx.last_tick_ns then sub64 env.now tctx.last_tick_ns else garbage in
    let k' =
      if ltb 0 tctx.last_tick_ns
      then set_task pid (record tctx { runtime_ns = add64 tctx.runtime_ns delta }) k
      else k in
    elim (get_scb tctx.worker_id k') [
      | none ↦ k'
      | some scb ↦ record k' { scb_map = update k'.scb_map tctx.worker_id (charge delta scb) }
    ]

unfoldable pub stopping : (garbage : ℕ) → Env → (pid : ℕ) → Kernel → Kernel
unfolding stopping_worker
stopping garbage env pid k = elim (k.task_ctx_map pid) [
  | none ↦ k
  | some tctx ↦ if tctx.is_morpheus_worker then stopping_worker garbage env pid tctx k else k
]

-- The answer of the core to the creation of the queue is that of the call.
unfoldable pub init : (created : ℕ) → Kernel → Kernel × ℕ
init created k = (record k { actions = scx_create_dsq ∷ k.actions }, created)

unfoldable pub dispatch : Kernel → Kernel
dispatch k = record k { actions = scx_consume ∷ k.actions }

unfoldable pub enable : (pid : ℕ) → Kernel → Kernel
enable pid k = k

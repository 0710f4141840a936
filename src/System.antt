-- ===== src/System.antt =====
-- The scheduler, the runtime and the loader at one memory. A step is one call of one of them; the
-- calls of a worker act on the slot of the map of blocks that its handle maps.
pub mod Dormant
pub mod Shield
pub mod Hints
pub mod Handshake
pub mod Throttle
pub mod Observer
pub mod Blocks
pub mod Memory
pub mod Bytes
pub mod Protocol
pub mod Valid
use morpheus.Prelude.{ℕ, ◌≡◌, Bool, Option, some, update}
use morpheus.Prelude.Text.{Text}
use morpheus.Common.Scb.{MorpheusScb}
use morpheus.Runtime.Error.{Result, ok}
use morpheus.Runtime.ScbHandle.{
  ScbHandle, acknowledge_from, enter_critical, exit_critical, set_priority,
}
use morpheus.Runtime.ScbHandle
use morpheus.Runtime.BpfMaps.{Bpf, TidMap, register_worker, unregister_worker}
use morpheus.Kernel.State.{Kernel, Env}
use morpheus.Kernel.Tick.{tick}
use morpheus.Kernel.Ops.{init, dispatch, enable, init_task, select_cpu, enqueue, running, stopping}
use morpheus.Loader.Tune.{adaptive_tune}

-- A store to the block of a worker.
abbrev pub store : ℕ → MorpheusScb → Kernel → Kernel
store i scb k = record k { scb_map = update k.scb_map i scb }

-- `acknowledge_from` is the last access of `acknowledge`, with whatever its loads have found.
pub data Step (k : Kernel) : Kernel → Type 0 where
  scheduler_starts : (created : ℕ) → Step k (init created k).0
  cpu_asks : Step k (dispatch k)
  task_enters : (pid : ℕ) → Step k (enable pid k)
  task_starts :
      {k' : Kernel} (created : Bool) (pid : ℕ) → init_task created pid k ≡ some k' → Step k k'
  task_placed : (is_idle : Bool) (pid : ℕ) → Step k (select_cpu is_idle pid k)
  task_queued : (pid : ℕ) → Step k (enqueue pid k)
  task_runs : (env : Env) (pid : ℕ) → Step k (running env pid k)
  task_stops : (garbage : ℕ) (env : Env) (pid : ℕ) → Step k (stopping garbage env pid k)
  ticks : (env : Env) (pid : ℕ) → Step k (tick env pid k)
  maps_block :
      (map_mut : ℕ → ℕ → Result (Unit {0})) (worker_id : ℕ) (escapable : Bool) {h : ScbHandle}
      {m : ℕ → MorpheusScb}
      → ScbHandle.new map_mut k.scb_map worker_id escapable ≡ ok (h, m)
      → Step k (record k { scb_map = m })
  acknowledges :
      (i target current : ℕ) → Step k (store i (acknowledge_from target current (k.scb_map i)).0 k)
  enters : (i : ℕ) → Step k (store i (enter_critical (k.scb_map i)).0 k)
  exits : (i : ℕ) → Step k (store i (exit_critical (k.scb_map i)) k)
  prioritizes : (i priority : ℕ) → Step k (store i (set_priority priority (k.scb_map i)) k)
  registers :
      (bpf : Bpf) (tid worker_id : ℕ) {m : TidMap}
      → register_worker bpf tid worker_id k.worker_tid_map ≡ ok m
      → Step k (record k { worker_tid_map = m })
  unregisters :
      (bpf : Bpf) (tid : ℕ) {m : TidMap}
      → unregister_worker bpf tid k.worker_tid_map ≡ ok m
      → Step k (record k { worker_tid_map = m })
  tunes :
      (parallelism : Option ℕ) (loadavg : Option Text) (default_slice_ns default_grace_ns : ℕ)
      → Step k (adaptive_tune parallelism loadavg default_slice_ns default_grace_ns k)

pub data Steps (k : Kernel) : Kernel → Type 0 where
  here : Steps k k
  next : {l m : Kernel} → Steps k l → Step l m → Steps k m

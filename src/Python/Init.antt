-- ===== src/Python/Init.antt =====
-- morpheus-py/src/lib.rs: `init_worker`, with the map of thread ids and the map of blocks that the
-- kernel shares with the thread.
use Prim.Native.String.{String}
use morpheus.Prelude.{
  ℕ, ◌<◌, ◌≤◌, ◌≡◌, ◌≢◌, refl, ◌==◌, Bool, false, Option, some, arith, lookup, nat_eq,
  if◌then◌else◌,
}
use morpheus.Common.Config.{max_workers}
use morpheus.Common.Scb.{MorpheusScb}
use morpheus.Runtime.Error.{Result, ok, err, invalid_worker}
use morpheus.Runtime.ScbHandle.{ScbHandle}
use morpheus.Runtime.ScbHandle
use morpheus.Runtime.ScbHandle.Laws.{new-fresh}
use morpheus.Runtime.Worker.{Thread, checkpoint_sync}
use morpheus.Runtime.Worker
use morpheus.Runtime.BpfMaps.{
  BpfMapFds, Bpf, TidMap, from_pinned_paths, open_map, register_worker, register-maps,
}

-- The machine around the call: BPF_OBJ_GET, the map calls, the mapping of memory, the thread id.
pub record System : Type 0 where
  pub obj_get : String → Option ℕ
  pub bpf : Bpf
  pub map_mut : ℕ → ℕ → Result (Unit {0})
  pub tid : ℕ

pub record State : Type 0 where
  pub thread : Thread
  pub tid_map : TidMap
  pub scb_map : ℕ → MorpheusScb

-- What follows the mapping of the block. An early return leaves what the calls before have changed.
unfoldable pub attach :
    (worker_id : ℕ) → State → Result (ScbHandle × (ℕ → MorpheusScb)) → State × Result (Unit {0})
attach worker_id s (err e) = (s, err e)
attach worker_id s (ok mapped) = (
  record s {
    thread = Worker.set_current_scb mapped.0 (mapped.1 worker_id) worker_id s.thread;
    scb_map = mapped.1;
  },
  ok tt,
)

-- What follows the registration.
unfoldable pub map_block :
    System → (worker_id : ℕ) → Bool → State → Result TidMap → State × Result (Unit {0})
unfolding attach
map_block sys worker_id escapable s (err e) = (s, err e)
map_block sys worker_id escapable s (ok tid_map) =
    attach worker_id (record s { tid_map = tid_map })
      (ScbHandle.new sys.map_mut s.scb_map worker_id escapable)

-- What follows the opening of the maps.
unfoldable pub register :
    System → (worker_id : ℕ) → Bool → State → Result BpfMapFds → State × Result (Unit {0})
unfolding map_block
register sys worker_id escapable s (err e) = (s, err e)
register sys worker_id escapable s (ok maps) =
    map_block sys worker_id escapable s (register_worker sys.bpf sys.tid worker_id s.tid_map)

unfoldable pub init_worker : System → (worker_id : ℕ) → Bool → State → State × Result (Unit {0})
unfolding register
init_worker sys worker_id escapable s = register sys worker_id escapable s (
    from_pinned_paths sys.obj_get "/sys/fs/bpf/morpheus/worker_tid_map"
      "/sys/fs/bpf/morpheus/scb_map")

-- What holds of the memory after the thread has become a worker.
pub record Initialized (sys : System) (worker_id : ℕ) (escapable : Bool) (s s' : State)
    : Type 0 where
  pub valid : worker_id < max_workers
  pub registered :
      (j : ℕ) → lookup j s'.tid_map ≡ (if sys.tid == j then some worker_id else lookup j s.tid_map)
  pub others : (i : ℕ) → i ≢ worker_id → s'.scb_map i ≡ s.scb_map i
  pub attached : (h : ScbHandle) × (s'.thread.current_scb ≡ some h)
  pub id : s'.thread.worker_id ≡ some worker_id
  pub shared : s'.thread.scb ≡ s'.scb_map worker_id
  pub calm : checkpoint_sync s'.thread ≡ false
  pub consent : s'.thread.scb.escapable ≡ (if escapable then 1 else 0)

attach-Initialized :
    (sys : System) (worker_id : ℕ) (b : Bool) (s s₀ : State)
    (r : Result (ScbHandle × (ℕ → MorpheusScb)))
    → ScbHandle.new sys.map_mut s.scb_map worker_id b ≡ r
    → s.scb_map ≡ s₀.scb_map
    → ((j : ℕ)
        → lookup j s.tid_map ≡ (if sys.tid == j then some worker_id else lookup j s₀.tid_map))
    → (attach worker_id s r).1 ≡ ok tt
    → Initialized sys worker_id b s₀ (attach worker_id s r).0
unfolding attach checkpoint_sync Worker.set_current_scb
attach-Initialized sys worker_id b s s₀ (err e) n same reg done = absurd cc
attach-Initialized sys worker_id b s s₀ (ok (h, m)) n same reg done =
    let fresh = new-fresh sys.map_mut s.scb_map worker_id b n in
    record {
      valid = fresh.0;
      registered = reg;
      others = λ i ne. ground (arith, ne, fresh, same);
      attached = (h, refl);
      id = refl;
      shared = refl;
      calm = ground (arith, fresh);
      consent = ground (arith, fresh);
    }

map_block-Initialized :
    (sys : System) (worker_id : ℕ) (b : Bool) (s : State) (r : Result TidMap)
    → register_worker sys.bpf sys.tid worker_id s.tid_map ≡ r
    → (map_block sys worker_id b s r).1 ≡ ok tt
    → Initialized sys worker_id b s (map_block sys worker_id b s r).0
unfolding map_block
map_block-Initialized sys worker_id b s (err e) n done = absurd cc
map_block-Initialized sys worker_id b s (ok tid_map) n done =
    attach-Initialized sys worker_id b (record s { tid_map = tid_map }) s _ refl refl
      (λ j. register-maps sys.bpf sys.tid worker_id s.tid_map j n) done

register-Initialized :
    (sys : System) (worker_id : ℕ) (b : Bool) (s : State) (r : Result BpfMapFds)
    → (register sys worker_id b s r).1 ≡ ok tt
    → Initialized sys worker_id b s (register sys worker_id b s r).0
unfolding register
register-Initialized sys worker_id b s (err e) done = absurd cc
register-Initialized sys worker_id b s (ok maps) done =
    map_block-Initialized sys worker_id b s _ refl done

-- If `init_worker` succeeds, then the worker id is below `max_workers`, this thread and no other is
-- newly mapped to it, no other block differs, and the thread has a handle and the id, sees the
-- block of the worker, has no yield requested and the consent to escalation that was asked for.
pub init_worker-Initialized :
    (sys : System) (worker_id : ℕ) (b : Bool) (s : State)
    → (init_worker sys worker_id b s).1 ≡ ok tt
    → Initialized sys worker_id b s (init_worker sys worker_id b s).0
unfolding init_worker
init_worker-Initialized sys worker_id b s done = register-Initialized sys worker_id b s _ done

-- A worker id out of range is an error, but one that comes after the registration: once the maps
-- open and the registration is done, the thread stays mapped to the id that no block belongs to.
pub init_worker-leftover :
    (sys : System) (worker_id fd fd' : ℕ) (b : Bool) (s : State) {m : TidMap}
    → sys.obj_get "/sys/fs/bpf/morpheus/worker_tid_map" ≡ some fd
    → sys.obj_get "/sys/fs/bpf/morpheus/scb_map" ≡ some fd'
    → register_worker sys.bpf sys.tid worker_id s.tid_map ≡ ok m
    → max_workers ≤ worker_id
    → ((init_worker sys worker_id b s).1 ≡ err (invalid_worker worker_id))
      × (lookup sys.tid (init_worker sys worker_id b s).0.tid_map ≡ some worker_id)
unfolding init_worker register from_pinned_paths open_map map_block attach ScbHandle.new
init_worker-leftover sys worker_id fd fd' b s e e' reg big =
    ground (arith, e, e', reg, register-maps sys.bpf sys.tid worker_id s.tid_map sys.tid reg)

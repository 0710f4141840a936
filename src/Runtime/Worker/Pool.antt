-- ===== src/Runtime/Worker/Pool.antt =====
-- morpheus-runtime/src/worker.rs: the configuration of the pool, and the pool.
use Prim.Native.String.{String}
use morpheus.Prelude.{ℕ, ◌≡◌, refl, ap, Bool, true, false, Option, none, some, List, [], ◌∷◌, map}
use morpheus.Runtime.ScbHandle.{ScbHandle}

pub record WorkerConfig : Type 0 where
  pub num_workers : ℕ
  pub escapable : Bool
  pub name_prefix : String

-- `parallelism` is what `available_parallelism` answers.
unfoldable pub default : Option ℕ → WorkerConfig
default parallelism = record {
  num_workers = elim parallelism [ none ↦ 1 | some n ↦ n ];
  escapable = true;
  name_prefix = "morpheus-worker";
}

-- A join handle is the number of the thread that it joins.
pub record Worker : Type 0 where
  pub id : ℕ
  pub tid : ℕ
  pub scb : ScbHandle
  pub handle : Option ℕ

pub record WorkerPool : Type 0 where
  pub workers : List Worker
  pub config : WorkerConfig
  pub is_shutdown : Bool

unfoldable pub new : WorkerConfig → WorkerPool
new config = record { workers = []; config = config; is_shutdown = false }

unfoldable pub num_workers : WorkerPool → ℕ
num_workers p = p.config.num_workers

abbrev take_handle : Worker → Worker
take_handle w = record w { handle = none }

abbrev joined : List Worker → List ℕ
joined [] = []
joined (w ∷ ws) = elim w.handle [ none ↦ joined ws | some h ↦ h ∷ joined ws ]

-- The pool after `shutdown`, and the threads that it joined, in order.
unfoldable pub shutdown : WorkerPool → WorkerPool × List ℕ
shutdown p =
    (record p { is_shutdown = true; workers = map take_handle p.workers }, joined p.workers)

-- The end of a pool.
unfoldable pub drop : WorkerPool → List ℕ
unfolding shutdown
drop p = (shutdown p).1

joined-map : (ws : List Worker) → joined (map take_handle ws) ≡ []
joined-map [] = refl
joined-map (w ∷ ws) = joined-map ws

map-take_handle : (ws : List Worker) → map take_handle (map take_handle ws) ≡ map take_handle ws
map-take_handle [] = refl
map-take_handle (w ∷ ws) = ap (◌∷◌ (take_handle w)) (map-take_handle ws)

-- A second `shutdown`, such as that of `drop`, joins no thread and changes nothing.
pub shutdown-twice : (p : WorkerPool) → shutdown (shutdown p).0 ≡ ((shutdown p).0, [])
unfolding shutdown
shutdown-twice p = cc (map-take_handle p.workers, joined-map p.workers)

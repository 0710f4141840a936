-- ===== src/Runtime/Worker.antt =====
-- morpheus-runtime/src/worker.rs: what is local to a worker thread, with the checkpoints of
-- morpheus-runtime/src/lib.rs. `scb` is the block that the handle of the thread maps; it means
-- nothing while the thread has no handle. The depth is that of critical.rs.
pub mod Pool
use morpheus.Prelude.{ℕ, Bool, false, Option, none, some}
use morpheus.Common.Scb.{MorpheusScb}
use morpheus.Runtime.ScbHandle.{ScbHandle}
use morpheus.Runtime.ScbHandle

pub record Thread : Type 0 where
  pub current_scb : Option ScbHandle
  pub worker_id : Option ℕ
  pub critical_depth : ℕ
  pub scb : MorpheusScb

-- A thread at its start, before anything has given it a block.
unfoldable pub spawned : (scb : MorpheusScb) → Thread
spawned scb = record { current_scb = none; worker_id = none; critical_depth = 0; scb = scb }

abbrev pub try_current_scb : Thread → Option ScbHandle
try_current_scb t = t.current_scb

unfoldable pub current_worker_id : Thread → Option ℕ
current_worker_id t = t.worker_id

-- `if let Some(scb) = try_current_scb() { f(scb) }`
abbrev pub with_current_scb : (MorpheusScb → MorpheusScb) → Thread → Thread
with_current_scb f t = elim (try_current_scb t) [ none ↦ t | some h ↦ record t { scb = f t.scb } ]

-- The handle comes with the block that it maps.
unfoldable pub set_current_scb : ScbHandle → MorpheusScb → ℕ → Thread → Thread
set_current_scb h scb worker_id t = record t {
  current_scb = some h;
  worker_id = some worker_id;
  scb = scb;
}

unfoldable pub checkpoint_sync : Thread → Bool
unfolding ScbHandle.yield_requested
checkpoint_sync t = elim (try_current_scb t) [
  | none ↦ false
  | some h ↦ ScbHandle.yield_requested t.scb
]

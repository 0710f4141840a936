-- ===== src/Runtime/Adapter.antt =====
-- morpheus-runtime/src/adapter.rs: what a language runtime provides, and the adapter of the runtime
-- for Rust workers. A method acts on the thread that calls it.
use morpheus.Prelude.{Bool, true, false, arith, ◌≡◌}
use morpheus.Runtime.ScbHandle.{acknowledge}
use morpheus.Runtime.Worker.{Thread, with_current_scb, checkpoint_sync}
use morpheus.Runtime.Critical.{CriticalGuard, critical_section}

pub record LanguageAdapter : Type 0 where
  pub enter_safe_point : Thread → Thread
  pub enter_checkpoint : Thread → Bool
  pub enter_critical : Thread → Thread × CriticalGuard
  pub yield_worker : Thread → Thread
  pub default_escapable : Bool

-- The checkpoint of a safe point only reads, and its answer is dropped.
abbrev pub enter_safe_point : Thread → Thread
enter_safe_point t = let requested = checkpoint_sync t in t

abbrev pub enter_checkpoint : Thread → Bool
enter_checkpoint t = checkpoint_sync t

abbrev pub enter_critical : Thread → Thread × CriticalGuard
enter_critical t = critical_section t

-- `std::thread::yield_now` changes nothing that is modelled.
unfoldable pub yield_worker : Thread → Thread
unfolding acknowledge
yield_worker t = with_current_scb (λ scb. (acknowledge scb).0) t

abbrev pub default_escapable : Bool
default_escapable = true

unfoldable pub rust_adapter : LanguageAdapter
unfolding yield_worker
rust_adapter = record {
  enter_safe_point = enter_safe_point;
  enter_checkpoint = enter_checkpoint;
  enter_critical = enter_critical;
  yield_worker = yield_worker;
  default_escapable = default_escapable;
}

-- After `yield_worker` a checkpoint of the thread finds no request, whatever its block held before.
pub yield_worker-settles : (t : Thread) → enter_checkpoint (yield_worker t) ≡ false
unfolding yield_worker checkpoint_sync
yield_worker-settles t = ground arith

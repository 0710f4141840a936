-- ===== src/Python.antt =====
-- morpheus-py/src/lib.rs: the Python bindings. The state is that of the calling thread.
pub mod Critical
pub mod Init
pub mod Module
pub mod Asyncio
use Prim.Native.String.{String}
use morpheus.Prelude.{ℕ, Bool, true, false, Option, none, some, if◌then◌else◌}
use morpheus.Runtime.ScbHandle
use morpheus.Runtime.Worker.{Thread, try_current_scb, with_current_scb, checkpoint_sync}
use morpheus.Runtime.Worker
use morpheus.Runtime.Critical.{critical_section, in_critical_section}
use morpheus.Runtime.Builder.{Runtime}
use morpheus.Runtime.DefensiveMode

unfoldable pub checkpoint : Thread → Bool
unfolding checkpoint_sync
checkpoint t = checkpoint_sync t

unfoldable pub yield_requested : Thread → Bool
unfolding ScbHandle.yield_requested
yield_requested t = elim (try_current_scb t) [
  | none ↦ false
  | some h ↦ ScbHandle.yield_requested t.scb
]

-- The acknowledgement before the coroutine of `asyncio.sleep(0)` is returned; `asyncio` is whether
-- the module was imported.
unfoldable pub yield_now_async : (asyncio : Bool) → Thread → Thread
unfolding ScbHandle.acknowledge
yield_now_async asyncio t =
    if asyncio then with_current_scb (λ scb. (ScbHandle.acknowledge scb).0) t else t

unfoldable pub acknowledge_yield : Thread → Thread × Bool
unfolding ScbHandle.acknowledge
acknowledge_yield t = elim (try_current_scb t) [
  | none ↦ (t, false)
  | some h ↦ (record t { scb = (ScbHandle.acknowledge t.scb).0 }, (ScbHandle.acknowledge t.scb).1)
]

unfoldable pub pressure_level : Thread → Option ℕ
unfolding ScbHandle.pressure_level
pressure_level t = elim (try_current_scb t) [
  | none ↦ none
  | some h ↦ some (ScbHandle.pressure_level t.scb)
]

unfoldable pub budget_remaining_ns : Thread → Option ℕ
unfolding ScbHandle.budget_remaining_ns
budget_remaining_ns t = elim (try_current_scb t) [
  | none ↦ none
  | some h ↦ some (ScbHandle.budget_remaining_ns t.scb)
]

-- `none` is the error off a worker thread.
unfoldable pub set_priority : ℕ → Thread → Option Thread
unfolding ScbHandle.set_priority
set_priority priority t = elim (try_current_scb t) [
  | none ↦ none
  | some h ↦ some (record t { scb = ScbHandle.set_priority priority t.scb })
]

unfoldable pub is_in_critical_section_py : Thread → Bool
unfolding in_critical_section
is_in_critical_section_py t = in_critical_section t

unfoldable pub worker_id : Thread → Option ℕ
unfolding Worker.current_worker_id
worker_id t = Worker.current_worker_id t

-- The guard is forgotten, not dropped.
unfoldable pub enter_critical_section : Thread → Thread
unfolding critical_section
enter_critical_section t = (critical_section t).0

-- Only the flag of the block is stored.
unfoldable pub exit_critical_section : Thread → Thread
exit_critical_section t = with_current_scb (λ scb. record scb { is_in_critical_section = 0 }) t

-- The context manager.
pub record CriticalSection : Type 0 where
  pub active : Bool

unfoldable pub critical : CriticalSection
critical = record { active = false }

unfoldable pub enter : CriticalSection → Thread → CriticalSection × Thread
unfolding enter_critical_section
enter c t = (record { active = true }, enter_critical_section t)

unfoldable pub exit : CriticalSection → Thread → CriticalSection × Thread
unfolding exit_critical_section
exit c t = if c.active then (record { active = false }, exit_critical_section t) else (c, t)

pub record Stats : Type 0 where
  pub hints_received : ℕ
  pub hints_dropped : ℕ
  pub defensive_triggers : ℕ

unfoldable pub get_stats : Option Runtime → Option Stats
get_stats none = none
get_stats (some rt) = some (record {
  hints_received = rt.hints.hints_received;
  hints_dropped = rt.hints.hints_dropped;
  defensive_triggers = rt.hints.defensive_triggers;
})

unfoldable pub is_defensive_mode : Option Runtime → Bool
unfolding DefensiveMode.is_active
is_defensive_mode none = false
is_defensive_mode (some rt) = DefensiveMode.is_active rt.defensive

-- ===== src/Python/Asyncio.antt =====
-- morpheus-py/python/morpheus/asyncio.py, over the native module: the helpers of a coroutine, and the
-- checkpointer that adapts to the pressure of the kernel. What the event loop runs on the thread while a
-- coroutine sleeps is a parameter. An iteration of the checkpointer is the integer it is handed.
pub mod Adaptive
pub mod Unpressured
pub mod EventLoop
use morpheus.Prelude.{ℕ, Bool, true, false, none, some, List, [], ◌∷◌, if◌then◌else◌, ltb, suc}
use morpheus.Prelude.Int.{ℤ, pos, ◌-ℤ◌, scale, floor_div, lebℤ}
use morpheus.Runtime.Worker.{Thread}
use morpheus.Python.{
  checkpoint, acknowledge_yield, pressure_level, enter_critical_section, exit_critical_section,
}

-- `sleep` is the effect of `asyncio.sleep(0)`.
unfoldable pub morpheus_checkpoint : (sleep : Thread → Thread) → Thread → Thread × Bool
unfolding checkpoint acknowledge_yield
morpheus_checkpoint sleep t =
    if checkpoint t then (sleep (acknowledge_yield t).0, true) else (t, false)

unfoldable pub force_yield : (sleep : Thread → Thread) → Thread → Thread
unfolding acknowledge_yield
force_yield sleep t = sleep (acknowledge_yield t).0

-- The body ends with a value or an exception; the exit runs after either.
unfoldable pub morpheus_critical : {A : Type 0} (body : Thread → Thread × A) → Thread → Thread × A
unfolding enter_critical_section exit_critical_section
morpheus_critical body t =
    let done = body (enter_critical_section t) in (exit_critical_section done.0, done.1)

unfoldable pub is_kernel_pressured : (threshold : ℕ) → Thread → Bool
unfolding pressure_level
is_kernel_pressured threshold t = elim (pressure_level t) [
  | none ↦ false
  | some level ↦ ltb threshold level
]

pub record AdaptiveCheckpointer : Type 0 where
  pub min_interval : ℤ
  pub max_interval : ℤ
  pub last_check : ℤ

unfoldable pub new : (min_interval max_interval : ℤ) → AdaptiveCheckpointer
new min_interval max_interval = record {
  min_interval = min_interval;
  max_interval = max_interval;
  last_check = pos 0;
}

-- `pressure_level() or 0`
unfoldable pub pressure_or_zero : Thread → ℕ
unfolding pressure_level
pressure_or_zero t = elim (pressure_level t) [ none ↦ 0 | some level ↦ level ]

unfoldable pub interval : (pressure : ℕ) → AdaptiveCheckpointer → ℤ
unfolding scale floor_div ◌-ℤ◌
interval pressure c =
    c.max_interval -ℤ floor_div (scale (c.max_interval -ℤ c.min_interval) pressure) 100

unfoldable pub should_check : Thread → ℤ → AdaptiveCheckpointer → AdaptiveCheckpointer × Bool
unfolding interval pressure_or_zero lebℤ ◌-ℤ◌
should_check t iteration c =
    if lebℤ (interval (pressure_or_zero t) c) (iteration -ℤ c.last_check)
    then (record c { last_check = iteration }, true)
    else (c, false)

-- A loop that asks at every iteration from one on, with the thread as it is at each: the iterations at
-- which it checks.
unfoldable pub checks : List Thread → ℕ → AdaptiveCheckpointer → AdaptiveCheckpointer × List ℕ
unfolding should_check
checks [] i c = (c, [])
checks (t ∷ ts) i c =
    let (c', now) = should_check t (pos i) c in
    let (c'', later) = checks ts (suc i) c' in (c'', if now then i ∷ later else later)

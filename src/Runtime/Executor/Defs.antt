-- ===== src/Runtime/Executor/Defs.antt =====
-- morpheus-runtime/src/executor.rs: the state of an executor and its tick. What a task does while
-- it runs is up to the task; the tick says which one it runs, as its last act.
use morpheus.Prelude.{ℕ, Bool, true, false, Option, none, some, List, [], ◌∷◌, if◌then◌else◌, add64}
use morpheus.Runtime.ScbHandle
use morpheus.Runtime.Worker.{Thread, try_current_scb}
use morpheus.Runtime.Critical.{in_critical_section}
use morpheus.Runtime.DefensiveMode.{DefensiveMode}
use morpheus.Runtime.DefensiveMode
use morpheus.Runtime.Executor.Deque.{Deque}

pub record ExecutorStats : Type 0 where
  pub tasks_spawned : ℕ
  pub tasks_completed : ℕ
  pub kernel_yields : ℕ
  pub defensive_yields : ℕ
  pub polls : ℕ

module _ {R : Type 0} (d : Deque R) where
  open d use {Queue}

  -- With the worker thread that it runs on.
  pub record LocalExecutor : Type 0 where
    pub queue : Queue
    pub injector : Queue
    pub stealers : List Queue
    pub defensive : DefensiveMode
    pub stats : ExecutorStats
    pub shutdown : Bool
    pub thread : Thread

  unfoldable pub new : Queue → List Queue → DefensiveMode → Thread → LocalExecutor
  new injector stealers defensive thread = record {
    queue = d.empty;
    injector = injector;
    stealers = stealers;
    defensive = defensive;
    stats = record {
      tasks_spawned = 0;
      tasks_completed = 0;
      kernel_yields = 0;
      defensive_yields = 0;
      polls = 0;
    };
    shutdown = false;
    thread = thread;
  }

  unfoldable pub spawn : R → LocalExecutor → LocalExecutor
  spawn r e = record e {
    queue = d.push e.queue r;
    stats = record e.stats { tasks_spawned = add64 e.stats.tasks_spawned 1 };
  }

  unfoldable pub kernel_should_yield : LocalExecutor → LocalExecutor × Bool
  unfolding ScbHandle.yield_requested
  kernel_should_yield e = elim (try_current_scb e.thread) [
    | none ↦ (e, false)
    | some h ↦
        if ScbHandle.yield_requested e.thread.scb
        then (
          record e { stats = record e.stats { kernel_yields = add64 e.stats.kernel_yields 1 } },
          true,
        )
        else (e, false)
  ]

  unfoldable pub should_yield : LocalExecutor → LocalExecutor × Bool
  unfolding in_critical_section DefensiveMode.should_yield kernel_should_yield
  should_yield e =
      if in_critical_section e.thread
      then (e, false)
      else let (defensive', b) = DefensiveMode.should_yield e.defensive in
        let e' = record e { defensive = defensive' } in
        if b
        then (
          record e' {
            stats = record e.stats { defensive_yields = add64 e.stats.defensive_yields 1 };
          },
          true,
        )
        else kernel_should_yield e'

  unfoldable pub acknowledge_yield : LocalExecutor → LocalExecutor
  unfolding ScbHandle.acknowledge
  acknowledge_yield e = elim (try_current_scb e.thread) [
    | none ↦ e
    | some h ↦ record e {
      thread = record e.thread { scb = (ScbHandle.acknowledge e.thread.scb).0 };
    }
  ]

  -- The task goes back to the queue if the answer was to yield.
  unfoldable pub obey : R → LocalExecutor × Bool → LocalExecutor × Option R
  obey r (e, true) = (acknowledge_yield (record e { queue = d.push e.queue r }), none)
  obey r (e, false) = (e, some r)

  -- The executor afterwards, and the task that was run, if it did not yield instead.
  unfoldable pub run_task : R → LocalExecutor → LocalExecutor × Option R
  unfolding obey
  run_task r e =
      obey r (should_yield (record e { stats = record e.stats { polls = add64 e.stats.polls 1 } }))

  unfoldable pub first_steal :
      Option R × Queue → List Queue → Option R × List Queue → Option R × List Queue
  first_steal (some r, q) qs rest = (some r, q ∷ qs)
  first_steal (none, q) qs rest = (rest.0, q ∷ rest.1)

  -- The first task that a stealer yields, with the queues after the attempts.
  unfoldable pub steal_any : List Queue → Option R × List Queue
  unfolding first_steal
  steal_any [] = (none, [])
  steal_any (q ∷ qs) = first_steal (d.steal q) qs (steal_any qs)

  unfoldable pub from_stealers : Option R × List Queue → LocalExecutor → LocalExecutor × Option R
  from_stealers (found, qs) e = (record e { stealers = qs }, found)

  unfoldable pub from_injector : Option R × Queue → LocalExecutor → LocalExecutor × Option R
  unfolding from_stealers
  from_injector (some r, q) e = (record e { injector = q }, some r)
  from_injector (none, q) e = from_stealers (steal_any e.stealers) (record e { injector = q })

  unfoldable pub from_queue : Option R × Queue → LocalExecutor → LocalExecutor × Option R
  from_queue (some r, q) e = (record e { queue = q }, some r)
  from_queue (none, q) e = from_injector (d.steal e.injector) (record e { queue = q })

  -- Where a tick finds a task: the local queue, the injector, the other workers.
  unfoldable pub find_task : LocalExecutor → LocalExecutor × Option R
  find_task e = from_queue (d.pop e.queue) e

  unfoldable pub run_found : LocalExecutor × Option R → LocalExecutor × Option R × Bool
  run_found (e, none) = (e, none, false)
  run_found (e, some r) = let (e', ran) = run_task r e in (e', ran, true)

  -- The executor, the task that was run, and the answer of `tick`.
  unfoldable pub tick : LocalExecutor → LocalExecutor × Option R × Bool
  unfolding run_found
  tick e = run_found (find_task e)

  unfoldable pub request_shutdown : LocalExecutor → LocalExecutor
  request_shutdown e = record e { shutdown = true }

  -- The loop, with what happens on other threads and in the tasks between two rounds: one change
  -- of the state for each round that there is time for. The tasks that ran, in order.
  unfoldable pub run : List (LocalExecutor → LocalExecutor) → LocalExecutor → LocalExecutor × List R
  run [] e = (e, [])
  run (between ∷ rounds) e =
      let next = tick e in
      let rest = run rounds (between next.0) in
      if e.shutdown then (e, []) else (rest.0, elim next.1 [ none ↦ rest.1 | some r ↦ r ∷ rest.1 ])

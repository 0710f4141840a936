-- ===== src/Runtime/Executor/Fleet.antt =====
-- morpheus-runtime/src/executor.rs: several executors that share an injector and the defensive mode,
-- each with the queues of all others as its stealers. A worker's queue is one object, whether its
-- owner or a stealer acts on it.
pub mod Places
pub mod Conserved
use morpheus.Prelude.{ℕ, zero, suc, Bool, Option, none, List, [], ◌∷◌, ◌++◌, map, add64}
use morpheus.Runtime.Worker.{Thread}
use morpheus.Runtime.DefensiveMode.{DefensiveMode}
use morpheus.Runtime.Executor.Deque.{Deque}
use morpheus.Runtime.Executor.Defs.{LocalExecutor, ExecutorStats}
use morpheus.Runtime.Executor.Defs
use morpheus.Runtime.Executor.Tasks.{as_list}

module _ {R : Type 0} (d : Deque R) where
  open d use {Queue}

  -- What one executor has for itself, and its queue.
  pub record Member : Type 0 where
    pub queue : Queue
    pub stats : ExecutorStats
    pub shutdown : Bool
    pub thread : Thread

  pub record Fleet : Type 0 where
    pub injector : Queue
    pub defensive : DefensiveMode
    pub members : List Member

  abbrev pub queues : List Member → List Queue
  queues ms = map (λ (m : Member). m.queue) ms

  -- The executor of one member, the others being those before and after it.
  unfoldable pub executor_of : Fleet → List Member → Member → List Member → LocalExecutor d
  executor_of f before m after = record {
    queue = m.queue;
    injector = f.injector;
    stealers = queues before ++ queues after;
    defensive = f.defensive;
    stats = m.stats;
    shutdown = m.shutdown;
    thread = m.thread;
  }

  -- A stealer is a handle on the queue of its owner: what an executor leaves in its stealers is then in
  -- the queues of the others. The queues that no member takes are left.
  unfoldable pub give_back : List Member → List Queue → List Member × List Queue
  give_back [] qs = ([], qs)
  give_back (m ∷ ms) [] = (m ∷ ms, [])
  give_back (m ∷ ms) (q ∷ qs) =
      let (ms', rest) = give_back ms qs in (record m { queue = q } ∷ ms', rest)

  unfoldable pub fleet_of : List Member → LocalExecutor d → List Member → Fleet
  unfolding give_back
  fleet_of before e after =
      let (before', rest) = give_back before e.stealers in
      let (after', _) = give_back after rest in
      record {
        injector = e.injector;
        defensive = e.defensive;
        members =
            before'
            ++ record { queue = e.queue; stats = e.stats; shutdown = e.shutdown; thread = e.thread }
              ∷ after';
      }

  -- A tick of the member at a place; the task that it runs.
  unfoldable pub tick_at : ℕ → List Member → List Member → Fleet → Fleet × Option R
  unfolding executor_of fleet_of
  tick_at i before [] f = (f, none)
  tick_at zero before (m ∷ after) f =
      let t = Defs.tick d (executor_of f before m after) in (fleet_of before t.0 after, t.1)
  tick_at (suc i) before (m ∷ after) f = tick_at i (before ++ m ∷ []) after f

  unfoldable pub tick_member : ℕ → Fleet → Fleet × Option R
  unfolding tick_at
  tick_member i f = tick_at i [] f.members f

  -- `spawn` on the executor of the member at a place; the task, if there is such a member.
  unfoldable pub spawn_at : ℕ → R → List Member → List Member × List R
  spawn_at i r [] = ([], [])
  spawn_at zero r (m ∷ ms) = (
    record m {
      queue = d.push m.queue r;
      stats = record m.stats { tasks_spawned = add64 m.stats.tasks_spawned 1 };
    }
        ∷ ms,
    r ∷ [],
  )
  spawn_at (suc i) r (m ∷ ms) = let (ms', spawned) = spawn_at i r ms in (m ∷ ms', spawned)

  -- What happens in a fleet: a tick of a member, a task that is spawned on one, and a change of the
  -- threads by the kernel or by what runs on them.
  pub data Event : Type 0 where
    ticks : (i : ℕ) → Event
    spawns : (i : ℕ) → R → Event
    changes : (Thread → Thread) → Event

  abbrev pub change_thread : (Thread → Thread) → Member → Member
  change_thread g m = record m { thread = g m.thread }

  -- The fleet after an event, the tasks that it ran, and the tasks that it has spawned.
  unfoldable pub happen : Event → Fleet → Fleet × List R × List R
  unfolding tick_member spawn_at
  happen (ticks i) f = let (f', ran) = tick_member i f in (f', as_list ran, [])
  happen (spawns i r) f =
      let (ms, spawned) = spawn_at i r f.members in (record f { members = ms }, [], spawned)
  happen (changes g) f = (record f { members = map (change_thread g) f.members }, [], [])

  -- Events one after the other; the loop of one executor by itself is `run` of Defs.
  unfoldable pub run : List Event → Fleet → Fleet × List R × List R
  unfolding happen
  run [] f = (f, [], [])
  run (x ∷ xs) f =
      let (f', ran, spawned) = happen x f in
      let (f'', ran', spawned') = run xs f' in (f'', ran ++ ran', spawned ++ spawned')

-- ===== src/Tests/Executor.antt =====
-- The executor with lists for the queues of crossbeam.
use mathlib.Core.List.{Perm}
use morpheus.Prelude.{
  ℕ, ◌≡◌, ◌≤◌, ◌≢◌, refl, ap, false, Option, none, some, List, [], ◌∷◌, ◌++◌, arith,
}
use morpheus.Runtime.Worker.{Thread, checkpoint_sync}
use morpheus.Runtime.DefensiveMode
use morpheus.Runtime.Executor.Deque.{Deque, Taken}
use morpheus.Runtime.Executor.Defs.{LocalExecutor, new, spawn}
use morpheus.Runtime.Executor.Progress.{ticks, ticks_run}
use morpheus.Runtime.Executor.Spawned.{Run, start-Run}
use morpheus.Runtime.Executor.Yield.{Task, finished, pending, ready, drive, drive-requests}
use morpheus.Runtime.Executor.Yield
use morpheus.Runtime.Adapter.{yield_worker}
use morpheus.Runtime.Executor.Fleet.{Member, Fleet, Event, spawns, changes, run}
use morpheus.Runtime.Executor.Fleet
use morpheus.Runtime.Executor.Fleet.Places.{fleet_tasks}
use morpheus.Runtime.Executor.Fleet.Conserved.{run-perm}
use morpheus.Kernel.Tick.{tick, account}
use morpheus.System.Handshake.{Ready, Answered, request-Answered}
use morpheus.Tests.Kernel.{hog, env, kernel, context}
use morpheus.Tests.System.{worker}

abbrev pop_list : List ℕ → Option ℕ × List ℕ
pop_list [] = (none, [])
pop_list (r ∷ rs) = (some r, rs)

pop_list-nil : (q : List ℕ) → q ≡ [] → (pop_list q).0 ≡ none
pop_list-nil q e = ap (λ p. (pop_list p).0) e

pop_list-cons : (q : List ℕ) (r : ℕ) (rs : List ℕ) → q ≡ r ∷ rs → (pop_list q).0 ≡ some r
pop_list-cons q r rs e = ap (λ p. (pop_list p).0) e

pop_list-Taken : (q : List ℕ) → Taken (λ p. p) q (pop_list q).0 (pop_list q).1
pop_list-Taken [] = refl
pop_list-Taken (r ∷ rs) = refl

abbrev lists : Deque ℕ
lists = record {
  Queue = List ℕ;
  empty = [];
  to_list = λ q. q;
  push = λ q r. q ++ r ∷ [];
  pop = pop_list;
  steal = pop_list;
  to_list-empty = refl;
  to_list-push = λ q r. refl;
  pop-nil = pop_list-nil;
  pop-cons = pop_list-cons;
  pop-Taken = pop_list-Taken;
  steal-Taken = pop_list-Taken;
}

-- Two local tasks, one in the injector, and a request that is pending.
abbrev executor : LocalExecutor lists
executor = spawn lists 2 (
    spawn lists 1 (
      new lists (7 ∷ []) ((8 ∷ []) ∷ []) (DefensiveMode.enter (DefensiveMode.new 2))
        (record worker { scb = record hog { preempt_seq = 9 } })))

ticks_run_example : (ticks lists 4 executor).1 ≢ []
unfolding new spawn DefensiveMode.enter DefensiveMode.new checkpoint_sync
ticks_run_example = ticks_run lists 4 executor (λ e. cc) (omega arith) (omega arith)

-- The executor on the block that a tick has left.
abbrev asked : LocalExecutor lists
asked = spawn lists 2 (
    spawn lists 1 (
      new lists [] [] (DefensiveMode.new 2)
        (record worker { scb = (tick env 77 kernel).scb_map 3 })))

asked-Ready : Ready lists asked
unfolding new spawn DefensiveMode.new
asked-Ready = record {
  handle = record { ptr = 384; worker_id = 3 };
  attached = refl;
  calm = refl;
  inactive = refl;
}

request-Answered_example : Answered lists 1 (2 ∷ []) 5 asked
unfolding new spawn account
request-Answered_example =
    request-Answered lists env 77 kernel context asked 1 (2 ∷ []) refl refl (omega arith)
      (omega arith) refl asked-Ready refl

-- Three checkpoints, with a request at the first and at the last.
abbrev checkpoints : List Thread
checkpoints =
    record worker { scb = record hog { preempt_seq = 9 } }
    ∷ worker
    ∷ record worker { scb = record hog { preempt_seq = 10 } }
    ∷ []

drive-requests_example :
    (drive 3 (Yield.start checkpoints) ≡ (ready, record { awaiting = none; ahead = []; wakes = 2 }))
    × ((n : ℕ) → n ≤ 2 → (drive n (Yield.start checkpoints)).0 ≡ pending)
unfolding checkpoint_sync
drive-requests_example = drive-requests checkpoints

-- The same task, spawned.
start-Run_example :
    Run 2 (Yield.start checkpoints) (finished 2)
    × ((n : ℕ) (t : Task) → Run n (Yield.start checkpoints) t → (n ≡ 2) × (t ≡ finished 2))
unfolding checkpoint_sync
start-Run_example = start-Run checkpoints

-- Three executors; the second one has nothing of its own, and steals.
abbrev member : List ℕ → Member lists
member q = record { queue = q; stats = executor.stats; shutdown = false; thread = worker }

abbrev fleet : Fleet lists
fleet = record {
  injector = 7 ∷ [];
  defensive = DefensiveMode.new 2;
  members = member (1 ∷ 2 ∷ []) ∷ member [] ∷ member (8 ∷ []) ∷ [];
}

abbrev busy : List (Event lists)
busy =
    Fleet.ticks 1
    ∷ spawns 2 9
    ∷ Fleet.ticks 1
    ∷ changes yield_worker
    ∷ Fleet.ticks 0
    ∷ Fleet.ticks 1
    ∷ []

run-perm_example :
    Perm
      ((run lists busy fleet).2 ++ fleet_tasks lists fleet)
      ((run lists busy fleet).1 ++ fleet_tasks lists (run lists busy fleet).0)
run-perm_example = run-perm lists busy fleet

-- ===== src/Bench/Unattached.antt =====
-- The threads of latency.rs and starvation.rs are plain ones: the programs never give them a control
-- block, neither by `set_current_scb` nor by the runtime that starvation.rs builds.
use morpheus.Prelude.{ℕ, ◌≡◌, refl, ◌∙◌, ◌&&◌, List, [], ◌∷◌, map, arith}
use morpheus.Common.Scb.{MorpheusScb}
use morpheus.Runtime.Worker.{Thread, spawned, checkpoint_sync}
use morpheus.Bench.Latency.{operation, operations, warnings}
use morpheus.Bench.Latency
use morpheus.Bench.Starvation.{good_round, good_rounds}
use morpheus.Bench.Starvation

-- What a thread has done, with what its memory holds at that time.
abbrev pub on_spawned : List (MorpheusScb × ℕ) → List (Thread × ℕ)
on_spawned xs = map (λ (x : MorpheusScb × ℕ). (spawned x.0, x.1)) xs

operation-spawned :
    (args : Latency.Args) (scb : MorpheusScb) (us : ℕ) (s : Latency.Shared)
    → (operation args (spawned scb) us s).checkpoint_yields ≡ s.checkpoint_yields
unfolding operation spawned checkpoint_sync
operation-spawned args scb us s = ground arith

operations-yields :
    (args : Latency.Args) (xs : List (MorpheusScb × ℕ)) (s : Latency.Shared)
    → (operations args (on_spawned xs) s).checkpoint_yields ≡ s.checkpoint_yields
unfolding operations
operations-yields args [] s = refl
operations-yields args ((scb, us) ∷ xs) s =
    operations-yields args xs (operation args (spawned scb) us s) ∙ operation-spawned args scb us s

good_rounds-yields :
    (xs : List (MorpheusScb × ℕ)) (last_tick : ℕ) (s : Starvation.Shared)
    → (good_rounds (on_spawned xs) last_tick s).good_task_yields ≡ s.good_task_yields
unfolding good_rounds good_round spawned checkpoint_sync
good_rounds-yields [] last_tick s = refl
good_rounds-yields ((scb, now) ∷ xs) last_tick s =
    good_rounds-yields xs now (good_round (spawned scb) now last_tick s).1

-- Whatever the threads of the benchmark for latency measure, no checkpoint yields, so under simulated
-- pressure with checkpoints the program always warns that hints may not reach userspace; and no good
-- task of the benchmark for starvation ever yields.
pub benchmarks_never_yield :
    (args : Latency.Args) (target : ℕ → ℕ) (xs ys : List (MorpheusScb × ℕ)) (last_tick : ℕ)
    (s : Starvation.Shared)
    → ((operations args (on_spawned xs) Latency.start).checkpoint_yields ≡ 0)
      × ((warnings target args (operations args (on_spawned xs) Latency.start)).1
          ≡ args.with_checkpoints && args.pressure)
      × ((good_rounds (on_spawned ys) last_tick s).good_task_yields ≡ s.good_task_yields)
unfolding warnings Latency.start
benchmarks_never_yield args target xs ys last_tick s =
    let none_yet = operations-yields args xs Latency.start in
    (none_yet, rw none_yet refl, good_rounds-yields ys last_tick s)

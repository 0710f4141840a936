-- ===== src/Bench/Starvation.antt =====
-- morpheus-bench/src/bin/starvation.rs: the tasks that behave, the one that does not, and the report
-- on the latencies. The clock is monotonic; `none` is a panic.
pub mod Report
pub mod Orders
use morpheus.Prelude.{
  ℕ, ◌+◌, ◌-◌, ◌*◌, ◌/◌, true, Option, none, some, List, [], ◌∷◌, ltb, leb, if◌then◌else◌, length,
  map, get_elem?, u64, add64,
}
use morpheus.Runtime.Worker.{Thread, checkpoint_sync}
use morpheus.Runtime.Builder.{Runtime, new_builder, num_workers, escapable, build}

pub record Args : Type 0 where
  pub num_good_tasks : ℕ
  pub duration : ℕ
  pub zombie_iterations : ℕ

-- The runtime that is built, for the tasks and the zombie.
unfoldable pub build_runtime : (parallelism : Option ℕ) → Args → Runtime
unfolding build new_builder num_workers escapable
build_runtime parallelism args =
    build (escapable true (num_workers (args.num_good_tasks + 1) (new_builder parallelism)))

-- A round of the zombie: its counter, and the cycles that all see.
unfoldable pub zombie_round : Args → (counter zombie_cycles : ℕ) → ℕ × ℕ
zombie_round args counter zombie_cycles =
    (u64 (counter + args.zombie_iterations), u64 (zombie_cycles + args.zombie_iterations))

-- What the good tasks share; latencies are nanoseconds, the latest first.
pub record Shared : Type 0 where
  pub latencies : List ℕ
  pub good_task_yields : ℕ

-- A round of a good task, at a time: the new time of its last round, and what is shared.
unfoldable pub good_round : Thread → (now last_tick : ℕ) → Shared → ℕ × Shared
unfolding checkpoint_sync
good_round t now last_tick s = (
  now,
  record {
    latencies =
        if ltb 1_000_000 (now - last_tick) then (now - last_tick) ∷ s.latencies else s.latencies;
    good_task_yields = if checkpoint_sync t then add64 s.good_task_yields 1 else s.good_task_yields;
  },
)

-- The rounds of one task, at the times of the clock.
unfoldable pub good_rounds : List (Thread × ℕ) → (last_tick : ℕ) → Shared → Shared
good_rounds [] last_tick s = s
good_rounds ((t, now) ∷ rest) last_tick s =
    let (last', s') = good_round t now last_tick s in good_rounds rest last' s'

-- `sort`.
unfoldable pub insert_sorted : ℕ → List ℕ → List ℕ
insert_sorted x [] = x ∷ []
insert_sorted x (y ∷ ys) = let rest = insert_sorted x ys in if leb x y then x ∷ y ∷ ys else y ∷ rest

unfoldable pub sort : List ℕ → List ℕ
unfolding insert_sorted
sort [] = []
sort (x ∷ xs) = insert_sorted x (sort xs)

pub record Percentiles : Type 0 where
  pub p50 : ℕ
  pub p95 : ℕ
  pub p99 : ℕ
  pub max : ℕ

-- `sorted[…]` at each of the indices.
unfoldable pub percentiles_of : Option ℕ → Option ℕ → Option ℕ → Option ℕ → Option Percentiles
percentiles_of (some p50) (some p95) (some p99) (some max) =
    some (record { p50 = p50; p95 = p95; p99 = p99; max = max })
percentiles_of none p95 p99 max = none
percentiles_of (some p50) none p99 max = none
percentiles_of (some p50) (some p95) none max = none
percentiles_of (some p50) (some p95) (some p99) none = none

-- Of the latencies in microseconds, of which there is one.
unfoldable pub percentiles : List ℕ → Option Percentiles
unfolding percentiles_of
percentiles sorted =
    percentiles_of (get_elem? sorted (length sorted / 2))
      (get_elem? sorted (u64 (length sorted * 95) / 100))
      (get_elem? sorted (u64 (length sorted * 99) / 100)) (get_elem? sorted (length sorted - 1))

-- `as_micros`, cut to 64 bits.
abbrev pub as_micros : ℕ → ℕ
as_micros ns = u64 (ns / 1000)

-- The report, where there are latencies, and the exit code.
pub data Outcome : Type 0 where
  panicked : Outcome
  complete : Option Percentiles → (exit_code : ℕ) → Outcome

unfoldable pub judge : Option Percentiles → Outcome
judge none = panicked
judge (some p) = complete (some p) (if ltb 10_000 p.p99 then 1 else 0)

unfoldable pub report : List ℕ → Outcome
unfolding judge percentiles sort
report [] = complete none 0
report (l ∷ ls) = judge (percentiles (sort (map as_micros (l ∷ ls))))

-- ===== src/Loader/Main/Settings.antt =====
-- What the main loop keeps in the maps, and how the loops end.
use morpheus.Prelude.{
  ℕ, ◌*◌, ◌≤◌, ◌≡◌, ◌⊎◌, refl, Bool, true, false, some, List, [], ◌∷◌, ◌++◌, length,
}
use morpheus.Kernel.State.{MorpheusConfig}
use morpheus.Loader.Psi.{F32, read_global_pressure}
use morpheus.Loader.Penalty.{System, State}
use morpheus.Loader.Main.{Args, Round, Maps, main_round, main_loop, monitor_round, monitor}

-- A configuration that the arguments allow.
pub record Allowed (args : Args) (c : MorpheusConfig) : Type 0 where
  pub slice :
      (c.slice_ns ≡ 2_000_000)
      ⊎ (c.slice_ns ≡ 10_000_000)
      ⊎ (c.slice_ns ≡ args.slice_ms * 1_000_000)
  pub grace : c.grace_period_ns ≡ args.grace_ms * 1_000_000

-- An entry of the pressure map.
pub record IsPressure (bytes : List ℕ) : Type 0 where
  pub size : length bytes ≡ 16
  pub cpu : (read_global_pressure bytes).cpu_pressure_pct ≤ 100
  pub io : (read_global_pressure bytes).io_pressure_pct ≤ 100
  pub memory : (read_global_pressure bytes).memory_pressure_pct ≤ 100

-- The maps hold what the main loop has put there, or what they held at the start.
pub record Published (args : Args) (m₀ m : Maps) : Type 0 where
  pub config :
      (m.kernel.config ≡ m₀.kernel.config)
      ⊎ ((c : MorpheusConfig) × (m.kernel.config ≡ some c) × Allowed args c)
  pub pressure : (m.global_pressure ≡ m₀.global_pressure) ⊎ IsPressure m.global_pressure
  pub mode : m.kernel.scheduler_mode ≡ m₀.kernel.scheduler_mode
  pub blocks : m.kernel.scb_map ≡ m₀.kernel.scb_map

module _ (f : F32) (args : Args) where
  main_loop-stops :
      (before : List (Bool × Round)) (r : Round) (after : List (Bool × Round)) (m : Maps)
      → main_loop f args (before ++ (false, r) ∷ after) m ≡ main_loop f args before m
  unfolding main_loop
  main_loop-stops [] r after m = refl
  main_loop-stops ((false, q) ∷ before) r after m = refl
  main_loop-stops ((true, q) ∷ before) r after m =
      main_loop-stops before r after (main_round f args q m)

monitor-stops :
    (before : List (Bool × List (System × List ℕ) × System)) (records' : List (System × List ℕ))
    (sys' : System) (after : List (Bool × List (System × List ℕ) × System)) (s : State)
    → monitor (before ++ (false, records', sys') ∷ after) s ≡ monitor before s
unfolding monitor
monitor-stops [] records' sys' after s = refl
monitor-stops ((false, records, sys) ∷ before) records' sys' after s = refl
monitor-stops ((true, records, sys) ∷ before) records' sys' after s =
    monitor-stops before records' sys' after (monitor_round records sys s)

-- Both loops end at the first round that finds `running` cleared: whatever would come later, they
-- leave what the rounds before it have left.
pub loops_end :
    (f : F32) (args : Args) (before after : List (Bool × Round)) (r : Round) (m : Maps)
    (polls polls' : List (Bool × List (System × List ℕ) × System))
    (records' : List (System × List ℕ)) (sys' : System) (s : State)
    → (main_loop f args (before ++ (false, r) ∷ after) m ≡ main_loop f args before m)
      × (monitor (polls ++ (false, records', sys') ∷ polls') s ≡ monitor polls s)
loops_end f args before after r m polls polls' records' sys' s =
    (main_loop-stops f args before r after m, monitor-stops polls records' sys' polls' s)

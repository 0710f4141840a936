-- ===== src/Tests/Main.antt =====
-- The loops of the loader at concrete inputs.
use morpheus.Prelude.{
  ℕ, List, map, ◌++◌, ◌+◌, ◌≡◌, refl, true, false, none, some, [], ◌∷◌, arith, lookup, nat_eq,
}
use morpheus.Prelude.Text.{text}
use morpheus.Loader.Main.{Round, Maps, monitor, event_bytes}
use morpheus.Loader.Main.Events.{IsWord, shutdown_leaves_throttled}
use morpheus.Loader.Main.Release.{started, monitor-releases}
use morpheus.Loader.Cgroup.{find_cgroup_path, max_file}
use morpheus.Loader.Penalty.{
  State, System, active, throttled, new, check_expired_penalties, penalty_ns,
}
use morpheus.Loader.PenaltyLaws.{quota}
use morpheus.Loader.PenaltyExpiry.{calls, escalation, unexpired, check-unexpired}
use morpheus.Kernel.State.{EscalationEvent}
use morpheus.Tests.Kernel.{kernel}
use morpheus.Tests.Loader.{proc, machine, file, quiet, event}

-- Two rounds, of which the second cannot write the pressure.
abbrev maps : Maps
maps = record { kernel = kernel; global_pressure = []; printed = [] }

abbrev pub round : Round
round = record {
  proc = proc;
  parallelism = some 4;
  pressure_written = true;
  config_written = true;
  stats = none;
}

abbrev failing : Round
failing = record round { pressure_written = false }

-- Two escalations, with a check that comes when only the first has expired.
abbrev escalated : State
escalated =
    calls
      ((machine, escalation (event 77))
        ∷ (record machine { now = 200 }, escalation (event 78))
        ∷ [])
      (record { manager = new; files = quiet.files })

check-unexpired_example :
    lookup 78 (active (check_expired_penalties (record machine { now = 5_000_000_150 }) escalated))
    ≡ unexpired 5_000_000_150 (lookup 78 (active escalated))
check-unexpired_example =
    check-unexpired
      ((machine, escalation (event 77))
        ∷ (record machine { now = 200 }, escalation (event 78))
        ∷ [])
      quiet.files (record machine { now = 5_000_000_150 }) 78

-- An event that comes in the last round.
abbrev last_event : EscalationEvent
last_event = record { worker_id = 3; pid = 77; severity = 2; timestamp = 90 }

fits : IsWord last_event
fits = record {
  worker_id = omega arith;
  pid = omega arith;
  severity = omega arith;
  timestamp = omega arith;
}

abbrev stopped : State
stopped =
    monitor
      ((true, (machine, event_bytes 0 last_event) ∷ [], record machine { now = 300 })
        ∷ (false, [], record machine { now = 9_000_000_000 })
        ∷ [])
      quiet

shutdown_leaves_throttled_example :
    (quota file stopped ≡ some throttled)
    × (active stopped
        ≡ (77, record { original = text "max 100000"; expiry = 100 + penalty_ns }) ∷ [])
unfolding find_cgroup_path max_file lookup
shutdown_leaves_throttled_example =
    shutdown_leaves_throttled machine (record machine { now = 300 }) 0 last_event quiet file
      (text "max 100000") [] (record machine { now = 9_000_000_000 }) [] fits refl refl refl refl
      (omega arith)

-- Two rounds, with an event in each, and a third one that comes late.
abbrev rounds : List (List (System × List ℕ) × System)
rounds =
    ((machine, event_bytes 0 last_event) ∷ [], record machine { now = 300 })
    ∷ ((record machine { now = 400 }, event_bytes 0 (record last_event { pid = 78 })) ∷ [], machine)
    ∷ []

monitor-releases_example :
    active (
      monitor
        (map started rounds ++ started ([], record machine { now = 6_000_000_000 }) ∷ [])
        (record { manager = new; files = quiet.files }))
    ≡ []
monitor-releases_example =
    monitor-releases rounds [] (record machine { now = 6_000_000_000 }) quiet.files
      ((omega arith, tt), ((omega arith, tt), tt)) tt

-- ===== src/Tests/Loader.antt =====
-- The loader at concrete inputs.
use morpheus.Prelude.{ℕ, ◌≡◌, refl, true, none, some, [], ◌∷◌, min, length, lookup, nat_eq, arith}
use morpheus.Prelude.Text.{Text, text, text_eq}
use morpheus.Loader.Psi.{F32, Proc}
use morpheus.Loader.Cgroup.{find_cgroup_path, max_file}
use morpheus.Loader.Penalty.{
  MorpheusEscalationEvent, System, State, active, throttled, handle_escalation_event,
  check_expired_penalties,
}
use morpheus.Loader.PenaltyLaws.{quota, check-handle, shared_cgroup_stays_throttled}

abbrev pub floats : F32
floats = record {
  Float = ℕ;
  parse = λ t. some (length t);
  clamp = λ v. min v 100;
  as_u32 = λ v. v;
  clamp_bounds = λ v. omega arith;
}

abbrev pub proc : Proc
proc = record {
  pressure_cpu = some (text "some avg10=1.5 avg60=0.0\n");
  pressure_io = none;
  pressure_memory = some (text "full avg10=2.0\n");
  loadavg = some (text "0.1 0.2 0.3 5/80 99\n");
}

-- Two threads of one cgroup.
abbrev pub machine : System
machine = record { proc_cgroup = λ pid. some (text "0::/a\n"); writable = λ file. true; now = 100 }

abbrev pub file : Text
file = text "/sys/fs/cgroup/a/cpu.max"

abbrev pub quiet : State
quiet = record {
  manager = record { active_penalties = [] };
  files = (file, text "max 100000") ∷ [];
}

abbrev pub event : ℕ → MorpheusEscalationEvent
event pid = record { worker_id = 3; pid = pid; severity = 2; timestamp = 90 }

check-handle_example :
    (quota file (handle_escalation_event machine (event 77) quiet) ≡ some throttled)
    × (quota file (
          check_expired_penalties
            (record machine { now = 6_000_000_000 })
            (handle_escalation_event machine (event 77) quiet))
        ≡ some (text "max 100000"))
    × (active (
          check_expired_penalties
            (record machine { now = 6_000_000_000 })
            (handle_escalation_event machine (event 77) quiet))
        ≡ [])
unfolding find_cgroup_path max_file lookup
check-handle_example =
    check-handle machine (record machine { now = 6_000_000_000 }) (event 77) quiet file
      (text "max 100000") refl refl refl refl refl refl (omega arith)

-- Both threads are escalated, and both penalties have expired.
abbrev both : State
both =
    handle_escalation_event (record machine { now = 200 }) (event 78)
      (handle_escalation_event machine (event 77) quiet)

abbrev after : State
after =
    check_expired_penalties (record machine { now = 5_000_000_300 })
      (check_expired_penalties (record machine { now = 5_000_000_150 }) both)

shared_cgroup_stays_throttled_example : (quota file after ≡ some throttled) × (active after ≡ [])
unfolding find_cgroup_path max_file lookup
shared_cgroup_stays_throttled_example =
    shared_cgroup_stays_throttled machine (event 77) (event 78) 200 5_000_000_150 5_000_000_300
      quiet file (text "max 100000") refl (omega arith) refl refl refl refl (omega arith)
      (omega arith) (omega arith) (omega arith)

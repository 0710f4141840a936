-- ===== src/Loader/Main.antt =====
-- scx_morpheus/src/main.rs: `main`, from the arguments to the two loops. What libbpf does is a
-- parameter: which paths it pins a map at, and which records and answers it hands over.
pub mod Settings
pub mod Events
pub mod Release
use Prim.Native.String.{String}
use morpheus.Prelude.{
  ℕ, ◌+◌, ◌*◌, Bool, false, Option, List, [], ◌∷◌, ◌++◌, ltb, if◌then◌else◌, length, u64, read_at,
  to_ne_bytes, insert, string_eq,
}
use morpheus.Runtime.Error.{Result, ok, err, bpf_map}
use morpheus.Kernel.State.{Kernel, EscalationEvent}
use morpheus.Loader.Psi.{F32, Proc, StatsTotals, global_pressure_bytes, stats_totals}
use morpheus.Loader.Tune.{adaptive_tune}
use morpheus.Loader.Penalty.{
  MorpheusEscalationEvent, System, State, handle_escalation_event, check_expired_penalties,
}

pub record Args : Type 0 where
  pub slice_ms : ℕ
  pub grace_ms : ℕ
  pub debug : Bool
  pub stats_interval : ℕ
  pub pin_maps : Bool
  pub enforce : Bool

-- The defaults of the command line.
abbrev pub default_args : Args
default_args = record {
  slice_ms = 5;
  grace_ms = 100;
  debug = false;
  stats_interval = 5;
  pin_maps = false;
  enforce = false;
}

-- The constant of the program that is set before it is loaded.
unfoldable pub set_mode : Args → Kernel → Kernel
set_mode args k = if args.enforce then record k { scheduler_mode = 1 } else k

-- The maps pinned below /sys/fs/bpf, by path; a map is its number.
abbrev pub Pinned : Type 0
Pinned = List (String × ℕ)

-- `pin` succeeds where the system grants the path.
unfoldable pub pin : (granted : String → Bool) → String → ℕ → Pinned → Pinned × Result (Unit {0})
pin granted path map_id pinned =
    if granted path then (insert path map_id pinned, ok tt) else (pinned, err (bpf_map path))

-- What is left to do after one step that may fail.
unfoldable pub and_then :
    Pinned × Result (Unit {0}) → (Pinned → Pinned × Result (Unit {0})) → Pinned × Result (Unit {0})
and_then (pinned, err e) next = (pinned, err e)
and_then (pinned, ok _) next = next pinned

-- `dir_made` is whether the directory is there or could be made.
unfoldable pub pin_maps :
    (granted : String → Bool)
    → (dir_made : Bool) (worker_tid_map scb_map : ℕ) → Args
    → Pinned
    → Pinned × Result (Unit {0})
unfolding pin and_then
pin_maps granted dir_made worker_tid_map scb_map args pinned =
    if args.pin_maps
    then if dir_made
      then and_then (pin granted "/sys/fs/bpf/morpheus/worker_tid_map" worker_tid_map pinned)
          (pin granted "/sys/fs/bpf/morpheus/scb_map" scb_map)
      else (pinned, err (bpf_map "/sys/fs/bpf/morpheus"))
    else (pinned, ok tt)

abbrev pub event_size : ℕ
event_size = 24

-- `read_unaligned` of an event; the word after the severity is padding.
unfoldable pub read_event : List ℕ → MorpheusEscalationEvent
unfolding read_at
read_event bytes = record {
  worker_id = read_at 0 4 bytes;
  pid = read_at 4 4 bytes;
  severity = read_at 8 4 bytes;
  timestamp = read_at 16 8 bytes;
}

-- The bytes that the scheduler submits, with what the padding happens to hold.
unfoldable pub event_bytes : (padding : ℕ) → EscalationEvent → List ℕ
event_bytes padding e =
    to_ne_bytes 4 e.worker_id
    ++ (to_ne_bytes 4 e.pid
        ++ (to_ne_bytes 4 e.severity ++ (to_ne_bytes 4 padding ++ to_ne_bytes 8 e.timestamp)))

-- The callback of the ring buffer; its answer 0 goes on with the next record.
unfoldable pub on_escalation : System → List ℕ → State → State × ℕ
unfolding read_event
on_escalation sys bytes s =
    if ltb (length bytes) event_size
    then (s, 0)
    else (handle_escalation_event sys (read_event bytes) s, 0)

-- The records of one poll, each with the system as it is then.
unfoldable pub poll : List (System × List ℕ) → State → State
unfolding on_escalation
poll [] s = s
poll ((sys, bytes) ∷ rest) s = poll rest (on_escalation sys bytes s).0

-- A round of the monitor thread: the poll, whose error is only logged, and the check.
unfoldable pub monitor_round : List (System × List ℕ) → System → State → State
unfolding poll
monitor_round records sys s = check_expired_penalties sys (poll records s)

-- The monitor thread: a round for each time that it finds `running` set.
unfoldable pub monitor : List (Bool × List (System × List ℕ) × System) → State → State
unfolding monitor_round
monitor [] s = s
monitor ((running, records, sys) ∷ rest) s =
    let next = monitor rest (monitor_round records sys s) in if running then next else s

-- What a round of the main loop meets: the files of /proc, and whether the two maps take the entry.
pub record Round : Type 0 where
  pub proc : Proc
  pub parallelism : Option ℕ
  pub pressure_written : Bool
  pub config_written : Bool
  pub stats : Option (List ℕ)

-- The maps that the main loop writes, and the totals that it has printed, the latest first.
pub record Maps : Type 0 where
  pub kernel : Kernel
  pub global_pressure : List ℕ
  pub printed : List StatsTotals

-- Errors of the updates are logged or ignored. Milliseconds are multiplied as 64-bit words.
unfoldable pub main_round : F32 → Args → Round → Maps → Maps
unfolding global_pressure_bytes adaptive_tune stats_totals
main_round f args r m = record {
  global_pressure =
      if r.pressure_written then global_pressure_bytes f r.proc else m.global_pressure;
  kernel =
      if r.config_written
      then adaptive_tune r.parallelism r.proc.loadavg (u64 (args.slice_ms * 1_000_000))
          (u64 (args.grace_ms * 1_000_000)) m.kernel
      else m.kernel;
  printed = if ltb 0 args.stats_interval then stats_totals r.stats ∷ m.printed else m.printed;
}

-- The main loop: each time that it finds `running` set it sleeps and does a round.
unfoldable pub main_loop : F32 → Args → List (Bool × Round) → Maps → Maps
unfolding main_round
main_loop f args [] m = m
main_loop f args ((running, r) ∷ rest) m =
    let next = main_loop f args rest (main_round f args r m) in if running then next else m

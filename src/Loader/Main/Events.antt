-- ===== src/Loader/Main/Events.antt =====
-- The way of an escalation from the bytes of the ring buffer to the cgroup, and the pinned maps.
use Prim.Native.String.{String}
use morpheus.Prelude.{
  ℕ, ◌+◌, ◌^◌, ◌<◌, ◌≡◌, refl, ◌∙◌, ap, Bool, true, false, none, some, List, [], ◌∷◌, arith, length,
  lookup, insert, string_eq, nat_eq, lookup-insert, lookup-insert_self, to_ne_bytes, read_at,
  read_at-head, read_at-skip, from-to_ne_bytes,
}
use morpheus.Prelude.Text.{Text, text_eq}
use morpheus.Runtime.Error.{ok}
use morpheus.Runtime.BpfMaps.{from_pinned_paths, open_map}
use morpheus.Kernel.State.{EscalationEvent}
use morpheus.Loader.Penalty.{
  MorpheusEscalationEvent, ActivePenalty, System, State, expired, release_all, active, throttled,
  penalty_ns, cpu_max, handle_escalation_event, check_expired_penalties,
}
use morpheus.Loader.PenaltyLaws.{quota, handle-throttles}
use morpheus.Loader.Main.{
  Args, Pinned, pin, and_then, pin_maps, event_size, read_event, event_bytes, on_escalation, poll,
  monitor_round, monitor,
}

-- The fields fit their C types.
pub record IsWord (e : EscalationEvent) : Type 0 where
  pub worker_id : e.worker_id < 2 ^ 32
  pub pid : e.pid < 2 ^ 32
  pub severity : e.severity < 2 ^ 32
  pub timestamp : e.timestamp < 2 ^ 64

-- The event as the loader declares it.
abbrev pub as_event : EscalationEvent → MorpheusEscalationEvent
as_event e = record {
  worker_id = e.worker_id;
  pid = e.pid;
  severity = e.severity;
  timestamp = e.timestamp;
}

module _ (padding : ℕ) (e : EscalationEvent) (w : IsWord e) where
  worker-read : read_at 0 4 (event_bytes padding e) ≡ e.worker_id
  unfolding event_bytes
  worker-read = read_at-head 4 _ _ w.worker_id

  pid-read : read_at 4 4 (event_bytes padding e) ≡ e.pid
  unfolding event_bytes
  pid-read = read_at-skip 4 0 4 _ _ ∙ read_at-head 4 _ _ w.pid

  severity-read : read_at 8 4 (event_bytes padding e) ≡ e.severity
  unfolding event_bytes
  severity-read = read_at-skip 4 4 4 _ _ ∙ (read_at-skip 4 0 4 _ _ ∙ read_at-head 4 _ _ w.severity)

  timestamp-read : read_at 16 8 (event_bytes padding e) ≡ e.timestamp
  unfolding event_bytes read_at to_ne_bytes
  timestamp-read = from-to_ne_bytes 8 e.timestamp w.timestamp

  length-event_bytes : length (event_bytes padding e) ≡ event_size
  unfolding event_bytes to_ne_bytes
  length-event_bytes = refl

  pub read-event_bytes : read_event (event_bytes padding e) ≡ as_event e
  unfolding read_event
  read-event_bytes = cc (worker-read, pid-read, severity-read, timestamp-read)

  -- An event whose fields fit their types, read back from the record that the scheduler submits, is
  -- handled as that event, whatever its padding holds, and the next record is asked for.
  pub on_escalation-event_bytes :
      (sys : System) (s : State)
      → on_escalation sys (event_bytes padding e) s
        ≡ (handle_escalation_event sys (as_event e) s, 0)
  unfolding on_escalation
  on_escalation-event_bytes sys s = rw (length-event_bytes, read-event_bytes) refl

-- Where the loader is asked to pin its maps and succeeds, a runtime that opens the two paths gets
-- the two maps, whatever was pinned before.
pub pin_maps-opens :
    (granted : String → Bool) (dir_made : Bool) (tid_map scb_map : ℕ) (args : Args)
    (pinned : Pinned)
    → args.pin_maps ≡ true
    → (pin_maps granted dir_made tid_map scb_map args pinned).1 ≡ ok tt
    → let after = (pin_maps granted dir_made tid_map scb_map args pinned).0 in
      from_pinned_paths
        (λ path. lookup path after)
        "/sys/fs/bpf/morpheus/worker_tid_map"
        "/sys/fs/bpf/morpheus/scb_map"
      ≡ ok (record { tid_map_fd = tid_map; scb_map_fd = scb_map })
unfolding pin_maps pin and_then from_pinned_paths open_map
pin_maps-opens granted dir_made tid_map scb_map args pinned asked done =
    let t : String = "/sys/fs/bpf/morpheus/worker_tid_map" in
    let b : String = "/sys/fs/bpf/morpheus/scb_map" in
    let p = insert t tid_map pinned in
    ground (
      arith,
      done,
      lookup-insert b t scb_map p,
      lookup-insert_self t tid_map pinned,
      lookup-insert_self b scb_map p,
    )

check_early :
    (sys : System) (pid : ℕ) (p : ActivePenalty) (files : List (Text × Text))
    → sys.now < p.expiry
    → check_expired_penalties sys
        (record { manager = record { active_penalties = (pid, p) ∷ [] }; files = files })
      ≡ record { manager = record { active_penalties = (pid, p) ∷ [] }; files = files }
unfolding check_expired_penalties expired release_all
check_early sys pid p files h = ground arith

last_round :
    (sys sys' : System) (bytes : List ℕ) (s : State) (records : List (System × List ℕ))
    (late : System) (rest : List (Bool × List (System × List ℕ) × System))
    → monitor ((true, (sys, bytes) ∷ [], sys') ∷ (false, records, late) ∷ rest) s
      ≡ check_expired_penalties sys' (on_escalation sys bytes s).0
unfolding monitor monitor_round poll on_escalation
last_round sys sys' bytes s records late rest = refl

-- The monitor thread ends without releasing anything: with no penalty before, an event whose fields
-- fit their types, for a process whose cgroup file can be read and written, in the last round, whose
-- check comes within five seconds of it, leaves the cgroup throttled and the penalty active,
-- whatever would come later.
pub shutdown_leaves_throttled :
    (sys sys' : System) (padding : ℕ) (e : EscalationEvent) (s : State) (file current : Text)
    (records : List (System × List ℕ)) (late : System)
    (rest : List (Bool × List (System × List ℕ) × System))
    → IsWord e
    → active s ≡ []
    → cpu_max sys e.pid ≡ some file
    → quota file s ≡ some current
    → sys.writable file ≡ true
    → sys'.now < sys.now + penalty_ns
    → let after =
        monitor
          ((true, (sys, event_bytes padding e) ∷ [], sys') ∷ (false, records, late) ∷ rest)
          s in
      (quota file after ≡ some throttled)
      × (active after ≡ (e.pid, record { original = current; expiry = sys.now + penalty_ns }) ∷ [])
unfolding lookup insert
shutdown_leaves_throttled sys sys' padding e s file current records late rest w idle found read
      granted soon =
    let p : ActivePenalty = record { original = current; expiry = sys.now + penalty_ns } in
    let fresh : lookup e.pid (active s) ≡ none = ap (lookup e.pid) idle in
    let one : insert e.pid p (active s) ≡ (e.pid, p) ∷ [] = ap (insert e.pid p) idle in
    rw
      (
        last_round sys sys' (event_bytes padding e) s records late rest,
        on_escalation-event_bytes padding e w sys s,
        handle-throttles sys (as_event e) s file current fresh found read granted,
        one,
        check_early sys' e.pid p (insert file throttled s.files) soon,
      )
      (lookup-insert_self file throttled s.files, refl)

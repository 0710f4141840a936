-- ===== src/Loader/Main/Release.antt =====
-- The monitor thread of scx_morpheus/src/main.rs while it runs: no penalty stays for good.
use morpheus.Prelude.{
  ℕ, ◌+◌, ◌≤◌, ◌≡◌, refl, sym, ◌∙◌, ap, ◌⊎◌, length, Bool, true, false, Option, none, some, List,
  [], ◌∷◌, ◌++◌, map, lookup, nat_eq, lookup-insert, arith, Option-cases, inl, inr, if◌then◌else◌,
  ltb, All,
}
use morpheus.Prelude.Text.{Text, text_eq}
use morpheus.Loader.Penalty.{
  MorpheusEscalationEvent, ActivePenalty, System, State, new, active, throttle,
  handle_escalation_event, expired, check_expired_penalties, cpu_max, penalty_ns,
}
use morpheus.Loader.PenaltyExpiry.{
  Unique, expired-lookup, release_all-active, release_all-Unique, handle-Unique,
}
use morpheus.Loader.Main.{on_escalation, read_event, event_size, poll, monitor_round, monitor}

-- All penalties expire by a time, and no process has two.
pub record Due (limit : ℕ) (s : State) : Type 0 where
  unique : Unique (active s)
  by_then : (pid : ℕ) (p : ActivePenalty) → lookup pid (active s) ≡ some p → p.expiry ≤ limit

throttle-by_then :
    (limit : ℕ) (sys : System) (pid : ℕ) (file : Text) (current : Option Text) (s : State)
    → sys.now + penalty_ns ≤ limit
    → Due limit s
    → (j : ℕ) (p : ActivePenalty) → lookup j (active (throttle sys pid file current s)) ≡ some p
    → p.expiry ≤ limit
unfolding throttle
throttle-by_then limit sys pid file none s early d j p e = d.by_then j p e
throttle-by_then limit sys pid file (some current) s early d j p e =
    let q : ActivePenalty = record { original = current; expiry = sys.now + penalty_ns } in
    ground (arith, e, d.by_then j p, lookup-insert pid j q (active s))

-- An escalation changes nothing or goes on to the file.
handle_cases :
    (sys : System) (event : MorpheusEscalationEvent) (s : State)
    → (handle_escalation_event sys event s ≡ s)
      ⊎ ((file : Text) × (handle_escalation_event sys event s
            ≡ throttle sys event.pid file (lookup file s.files) s))
unfolding handle_escalation_event
handle_cases sys event s = elim (Option-cases (lookup event.pid (active s))) [
  | inr (p, e) ↦ inl (rw (e, handle_escalation_event) refl)
  | inl e ↦ elim (Option-cases (cpu_max sys event.pid)) [
    | inl none_found ↦ inl (rw (e, none_found, handle_escalation_event) refl)
    | inr (file, found) ↦ inr (file, rw (e, found, handle_escalation_event) refl)
  ]
]

handle-Due :
    (limit : ℕ) (sys : System) (event : MorpheusEscalationEvent) (s : State)
    → sys.now + penalty_ns ≤ limit
    → Due limit s
    → Due limit (handle_escalation_event sys event s)
handle-Due limit sys event s early d = record {
  unique = handle-Unique sys event s d.unique;
  by_then = λ j p e. elim (handle_cases sys event s) [
    | inl same ↦ d.by_then j p (ap (λ t. lookup j (active t)) (sym same) ∙ e)
    | inr (file, went_on) ↦
        throttle-by_then limit sys event.pid file (lookup file s.files) s early d j p
          (ap (λ t. lookup j (active t)) (sym went_on) ∙ e)
  ];
}

-- The clock of each record of a poll comes early enough.
abbrev pub Early : ℕ → List (System × List ℕ) → Type 0
Early limit records = All (λ (r : System × List ℕ). r.0.now + penalty_ns ≤ limit) records

poll-Due :
    (limit : ℕ) (records : List (System × List ℕ)) (s : State)
    → Early limit records
    → Due limit s
    → Due limit (poll records s)
unfolding poll on_escalation
poll-Due limit [] s early d = d
poll-Due limit ((sys, bytes) ∷ rest) s (now, later) d =
    poll-Due limit rest (on_escalation sys bytes s).0 later
      (elim (ltb (length bytes) event_size)
        as (λ b.
          let r : State × ℕ =
            if b then (s, 0) else (handle_escalation_event sys (read_event bytes) s, 0) in
          Due limit r.0) [ true ↦ d | false ↦ handle-Due limit sys (read_event bytes) s now d ])

check-Due :
    (limit : ℕ) (sys : System) (s : State) → Due limit s → Due limit (check_expired_penalties sys s)
unfolding check_expired_penalties
check-Due limit sys s d =
    let pids = expired sys.now (active s) in
    record {
      unique = release_all-Unique sys pids s d.unique;
      by_then = λ j p e. ground (arith, e, d.by_then j p, release_all-active sys pids j s);
    }

nothing_found : (ps : List (ℕ × ActivePenalty)) → ((pid : ℕ) → lookup pid ps ≡ none) → ps ≡ []
unfolding lookup
nothing_found [] h = refl
nothing_found ((pid, p) ∷ ps) h = ground (arith, h pid)

-- A check that comes late enough releases everything.
check-empties :
    (limit : ℕ) (sys : System) (s : State)
    → limit ≤ sys.now
    → Due limit s
    → active (check_expired_penalties sys s) ≡ []
unfolding check_expired_penalties
check-empties limit sys s late d = nothing_found (active (check_expired_penalties sys s)) (λ pid.
    release_all-active sys (expired sys.now (active s)) pid s
    ∙ expired-lookup sys.now pid (active s) d.unique
    ∙ elim (Option-cases (lookup pid (active s))) [
      | inl absent ↦ rw absent refl
      | inr (p, there) ↦ ground (arith, there, d.by_then pid p there)
    ])

-- A round that the thread begins.
abbrev pub started : List (System × List ℕ) × System → Bool × List (System × List ℕ) × System
started (records, sys) = (true, records, sys)

monitor-empties :
    (limit : ℕ) (rounds : List (List (System × List ℕ) × System)) (records : List (System × List ℕ))
    (sys : System) (s : State)
    → All (λ (r : List (System × List ℕ) × System). Early limit r.0) rounds
    → Early limit records
    → limit ≤ sys.now
    → Due limit s
    → active (monitor (map started rounds ++ started (records, sys) ∷ []) s) ≡ []
unfolding monitor monitor_round
monitor-empties limit [] records sys s all_early early late d =
    check-empties limit sys (poll records s) late (poll-Due limit records s early d)
monitor-empties limit ((polled, checked) ∷ rounds) records sys s all_early early late d =
    monitor-empties limit rounds records sys (monitor_round polled checked s) all_early.1 early late
      (check-Due limit checked (poll polled s) (poll-Due limit polled s all_early.0 d))

-- While the monitor thread runs, no penalty stays for good: it starts with none, and whatever records
-- its polls hand over, whatever the system answers and whatever its checks have released before, a
-- round whose check comes at least five seconds after all of these records leaves no penalty active.
pub monitor-releases :
    (rounds : List (List (System × List ℕ) × System)) (records : List (System × List ℕ))
    (sys : System) (files : List (Text × Text))
    → All (λ (r : List (System × List ℕ) × System). Early sys.now r.0) rounds
    → Early sys.now records
    → active (
        monitor
          (map started rounds ++ started (records, sys) ∷ [])
          (record { manager = new; files = files }))
      ≡ []
unfolding new lookup
monitor-releases rounds records sys files all_early early =
    monitor-empties sys.now rounds records sys (record { manager = new; files = files }) all_early
      early (omega arith) (record { unique = tt; by_then = λ pid p e. ground (arith, e) })

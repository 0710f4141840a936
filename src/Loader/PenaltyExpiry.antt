-- ===== src/Loader/PenaltyExpiry.antt =====
-- scx_morpheus/src/main.rs: which penalties are active after any sequence of escalations and checks.
use morpheus.Prelude.{
  ℕ, ◌+◌, ◌≡◌, refl, ◌∙◌, Bool, false, ◌||◌, Option, none, some, List, [], ◌∷◌, leb, ◌==◌,
  if◌then◌else◌, lookup, insert, remove, nat_eq, lookup-insert, lookup-remove, arith, Option-cases,
  inl, inr,
}
use morpheus.Prelude.Text.{Text, text_eq}
use morpheus.Loader.Penalty.{
  MorpheusEscalationEvent, ActivePenalty, System, State, new, active, throttle,
  handle_escalation_event, expired, release, release_all, check_expired_penalties, cpu_max,
}

-- No process has two penalties.
abbrev pub Unique : List (ℕ × ActivePenalty) → Type 0
Unique [] = Unit
Unique ((pid, p) ∷ ps) = (lookup pid ps ≡ none) × Unique ps

insert-Unique :
    (pid : ℕ) (p : ActivePenalty) (ps : List (ℕ × ActivePenalty))
    → Unique ps
    → Unique (insert pid p ps)
unfolding insert lookup
insert-Unique pid p [] u = (refl, tt)
insert-Unique pid p ((i, q) ∷ ps) u =
    ground (arith, insert-Unique pid p ps, lookup-insert pid i p ps)

remove-Unique : (pid : ℕ) (ps : List (ℕ × ActivePenalty)) → Unique ps → Unique (remove pid ps)
unfolding remove
remove-Unique pid [] u = tt
remove-Unique pid ((i, q) ∷ ps) u = ground (arith, remove-Unique pid ps, lookup-remove pid i ps)

abbrev pub contains : ℕ → List ℕ → Bool
contains j [] = false
contains j (i ∷ is) = i == j || contains j is

-- What a check at a time leaves of the penalty of a process.
abbrev pub unexpired : ℕ → Option ActivePenalty → Option ActivePenalty
unexpired now none = none
unexpired now (some p) = if leb p.expiry now then none else some p

expired-absent :
    (now j : ℕ) (ps : List (ℕ × ActivePenalty))
    → lookup j ps ≡ none
    → contains j (expired now ps) ≡ false
unfolding expired lookup
expired-absent now j [] h = refl
expired-absent now j ((i, p) ∷ ps) h = ground (arith, expired-absent now j ps)

pub expired-lookup :
    (now j : ℕ) (ps : List (ℕ × ActivePenalty))
    → Unique ps
    → (if contains j (expired now ps) then none else lookup j ps) ≡ unexpired now (lookup j ps)
unfolding expired lookup
expired-lookup now j [] u = refl
expired-lookup now j ((i, p) ∷ ps) u =
    ground (arith, expired-lookup now j ps, expired-absent now i ps)

release-active :
    (sys : System) (pid j : ℕ) (s : State)
    → lookup j (active (release sys pid s)) ≡ (if pid == j then none else lookup j (active s))
unfolding release
release-active sys pid j s = ground (arith, lookup-remove pid j (active s))

release-Unique :
    (sys : System) (pid : ℕ) (s : State) → Unique (active s) → Unique (active (release sys pid s))
unfolding release
release-Unique sys pid s u = ground (arith, remove-Unique pid (active s))

pub release_all-active :
    (sys : System) (pids : List ℕ) (j : ℕ) (s : State)
    → lookup j (active (release_all sys pids s))
      ≡ (if contains j pids then none else lookup j (active s))
unfolding release_all
release_all-active sys [] j s = refl
release_all-active sys (pid ∷ pids) j s =
    ground (arith, release_all-active sys pids j (release sys pid s), release-active sys pid j s)

pub release_all-Unique :
    (sys : System) (pids : List ℕ) (s : State)
    → Unique (active s)
    → Unique (active (release_all sys pids s))
unfolding release_all
release_all-Unique sys [] s u = u
release_all-Unique sys (pid ∷ pids) s u =
    release_all-Unique sys pids (release sys pid s) (release-Unique sys pid s u)

throttle-Unique :
    (sys : System) (pid : ℕ) (file : Text) (current : Option Text) (s : State)
    → Unique (active s)
    → Unique (active (throttle sys pid file current s))
unfolding throttle
throttle-Unique sys pid file none s u = u
throttle-Unique sys pid file (some current) s u = ground (
  arith,
  insert-Unique pid (record { original = current; expiry = sys.now + 5_000_000_000 }) (active s),
)

-- What the monitor thread does with the manager.
pub data Call : Type 0 where
  escalation : MorpheusEscalationEvent → Call
  check : Call

-- Each call meets the system as it is then.
unfoldable pub calls : List (System × Call) → State → State
calls [] s = s
calls ((sys, escalation event) ∷ rest) s = calls rest (handle_escalation_event sys event s)
calls ((sys, check) ∷ rest) s = calls rest (check_expired_penalties sys s)

pub handle-Unique :
    (sys : System) (event : MorpheusEscalationEvent) (s : State)
    → Unique (active s)
    → Unique (active (handle_escalation_event sys event s))
unfolding handle_escalation_event
handle-Unique sys event s u = elim (Option-cases (lookup event.pid (active s))) [
  | inr (p, e) ↦ rw (e, handle_escalation_event) u
  | inl e ↦ elim (Option-cases (cpu_max sys event.pid)) [
    | inl none_found ↦ rw (e, none_found, handle_escalation_event) u
    | inr (file, found) ↦
        rw (e, found, handle_escalation_event)
          (throttle-Unique sys event.pid file (lookup file s.files) s u)
  ]
]

calls-Unique :
    (cs : List (System × Call)) (s : State) → Unique (active s) → Unique (active (calls cs s))
unfolding calls check_expired_penalties
calls-Unique [] s u = u
calls-Unique ((sys, escalation event) ∷ rest) s u =
    calls-Unique rest (handle_escalation_event sys event s) (handle-Unique sys event s u)
calls-Unique ((sys, check) ∷ rest) s u =
    calls-Unique rest (check_expired_penalties sys s)
      (release_all-Unique sys (expired sys.now (active s)) s u)

-- A manager that starts empty, after any sequence of escalations and checks, whatever the system
-- answers to them: a check drops the penalties that have expired by then, also where a quota cannot
-- be restored, and leaves every other penalty as it is.
pub check-unexpired :
    (cs : List (System × Call)) (files : List (Text × Text)) (sys : System) (pid : ℕ)
    → let s = calls cs (record { manager = new; files = files }) in
      lookup pid (active (check_expired_penalties sys s))
      ≡ unexpired sys.now (lookup pid (active s))
unfolding check_expired_penalties new
check-unexpired cs files sys pid =
    let s = calls cs (record { manager = new; files = files }) in
    release_all-active sys (expired sys.now (active s)) pid s
    ∙ expired-lookup sys.now pid (active s)
        (calls-Unique cs (record { manager = new; files = files }) tt)

-- ===== src/Loader/PenaltyLaws.antt =====
-- What a penalty does to the quota of a cgroup, and whether it is undone.
use morpheus.Prelude.{
  ℕ, ◌+◌, ◌≤◌, ◌<◌, ◌≡◌, ◌≢◌, refl, true, Option, none, some, List, [], ◌∷◌, lookup, insert, remove,
  nat_eq, lookup-insert_self, ap, ◌∙◌, arith,
}
use morpheus.Prelude.Text.{Text, text_eq}
use morpheus.Loader.Penalty.{
  MorpheusEscalationEvent, ActivePenalty, System, State, active, throttled, penalty_ns, cpu_max,
  throttle, handle_escalation_event, expired, restore, release, release_all,
  check_expired_penalties,
}

-- What the file of a cgroup holds.
abbrev pub quota : Text → State → Option Text
quota file s = lookup file s.files

-- An escalation of a process that is penalized already changes nothing.
pub handle-penalized :
    (sys : System) (event : MorpheusEscalationEvent) (s : State) {p : ActivePenalty}
    → lookup event.pid (active s) ≡ some p
    → handle_escalation_event sys event s ≡ s
unfolding handle_escalation_event
handle-penalized sys event s e = rw (e, handle_escalation_event) refl

-- The first escalation of a process whose cgroup file is there, with any contents, and can be
-- written: the cgroup is throttled, and the penalty is entered with the old contents and the time
-- five seconds from now. No other file and no other penalty changes.
pub handle-throttles :
    (sys : System) (event : MorpheusEscalationEvent) (s : State) (file current : Text)
    → lookup event.pid (active s) ≡ none
    → cpu_max sys event.pid ≡ some file
    → quota file s ≡ some current
    → sys.writable file ≡ true
    → (handle_escalation_event sys event s) ≡ record {
      manager = record {
        active_penalties =
            insert event.pid
              (record { original = current; expiry = sys.now + penalty_ns })
              (active s);
      };
      files = insert file throttled s.files;
    }
unfolding handle_escalation_event throttle
handle-throttles sys event s file current fresh found read granted = ground arith

abbrev held : List (ℕ × ActivePenalty) → List (Text × Text) → State
held ps files = record { manager = record { active_penalties = ps }; files = files }

-- The manager holds one penalty, whose file can be found and written: once it has
-- expired, a check puts the old contents back and drops the entry.
one_penalty :
    (sys : System) (pid : ℕ) (p : ActivePenalty) (files : List (Text × Text)) (file : Text)
    → cpu_max sys pid ≡ some file
    → sys.writable file ≡ true
    → p.expiry ≤ sys.now
    → check_expired_penalties sys (held ((pid, p) ∷ []) files)
      ≡ held [] (insert file p.original files)
unfolding check_expired_penalties expired release_all release restore lookup remove
one_penalty sys pid p files file found granted late = ground arith

-- With a second penalty that has not expired, the check puts back the first one alone.
two_penalties :
    (sys : System) (pid other : ℕ) (p q : ActivePenalty) (files : List (Text × Text)) (file : Text)
    → cpu_max sys pid ≡ some file
    → sys.writable file ≡ true
    → p.expiry ≤ sys.now
    → sys.now < q.expiry
    → pid ≢ other
    → check_expired_penalties sys (held ((pid, p) ∷ (other, q) ∷ []) files)
      ≡ held ((other, q) ∷ []) (insert file p.original files)
unfolding check_expired_penalties expired release_all release restore lookup remove
two_penalties sys pid other p q files file found granted late early ne = ground arith

abbrev penalty : System → Text → ActivePenalty
penalty sys current = record { original = current; expiry = sys.now + penalty_ns }

-- The first penalty.
handle_first :
    (sys : System) (event : MorpheusEscalationEvent) (s : State) (file current : Text)
    → active s ≡ []
    → cpu_max sys event.pid ≡ some file
    → quota file s ≡ some current
    → sys.writable file ≡ true
    → handle_escalation_event sys event s
      ≡ held ((event.pid, penalty sys current) ∷ []) (insert file throttled s.files)
unfolding lookup insert
handle_first sys event s file current idle found read granted =
    handle-throttles sys event s file current (rw idle refl) found read granted
    ∙ ap (λ ps. held (insert event.pid (penalty sys current) ps) (insert file throttled s.files))
        idle

-- The second penalty, of another process with the same file.
handle_second :
    (sys : System) (event : MorpheusEscalationEvent) (pid : ℕ) (p : ActivePenalty)
    (files : List (Text × Text)) (file current : Text)
    → pid ≢ event.pid
    → cpu_max sys event.pid ≡ some file
    → lookup file files ≡ some current
    → sys.writable file ≡ true
    → handle_escalation_event sys event (held ((pid, p) ∷ []) files)
      ≡ held ((pid, p) ∷ (event.pid, penalty sys current) ∷ []) (insert file throttled files)
unfolding lookup insert
handle_second sys event pid p files file current ne found read granted =
    handle-throttles sys event (held ((pid, p) ∷ []) files) file current (ground arith) found read
      granted
    ∙ ground arith

-- With no penalty active, and a cgroup file of the process that can be read and written: its
-- escalation throttles the cgroup, and a check from five seconds on with nothing in between, at
-- which the file is still found and writable, restores what it held before and leaves no penalty
-- active.
pub check-handle :
    (sys later : System) (event : MorpheusEscalationEvent) (s : State) (file current : Text)
    → active s ≡ []
    → cpu_max sys event.pid ≡ some file
    → quota file s ≡ some current
    → sys.writable file ≡ true
    → cpu_max later event.pid ≡ some file
    → later.writable file ≡ true
    → sys.now + penalty_ns ≤ later.now
    → (quota file (handle_escalation_event sys event s) ≡ some throttled)
      × (quota file (check_expired_penalties later (handle_escalation_event sys event s))
          ≡ some current)
      × (active (check_expired_penalties later (handle_escalation_event sys event s)) ≡ [])
check-handle sys later event s file current idle found read granted found' granted' late =
    let first = handle_first sys event s file current idle found read granted in
    let p = penalty sys current in
    rw
      (
        first,
        one_penalty later event.pid p (insert file throttled s.files) file found' granted' late,
      )
      (lookup-insert_self file throttled s.files, lookup-insert_self file current _, refl)

-- Two threads of one cgroup, such as two workers of one process, whose file can be read and
-- written: the escalation of the second one, after the first, saves the throttled quota as the
-- original. So once a check has released the first penalty, before the second one expires, and a
-- later check the second one, the cgroup stays throttled, with no penalty active.
pub shared_cgroup_stays_throttled :
    (sys : System) (first second : MorpheusEscalationEvent) (t₂ t₃ t₄ : ℕ) (s : State)
    (file current : Text)
    → active s ≡ []
    → first.pid ≢ second.pid
    → cpu_max sys first.pid ≡ some file
    → cpu_max sys second.pid ≡ some file
    → quota file s ≡ some current
    → sys.writable file ≡ true
    → sys.now < t₂
    → sys.now + penalty_ns ≤ t₃
    → t₃ < t₂ + penalty_ns
    → t₂ + penalty_ns ≤ t₄
    → let at = λ (t : ℕ). record sys { now = t } in
      let both = handle_escalation_event (at t₂) second (handle_escalation_event sys first s) in
      let after = check_expired_penalties (at t₄) (check_expired_penalties (at t₃) both) in
      (quota file after ≡ some throttled) × (active after ≡ [])
shared_cgroup_stays_throttled sys first second t₂ t₃ t₄ s file current idle ne f₁ f₂ read granted l₂
      l₃ l₃' l₄ =
    let at = λ (t : ℕ). record sys { now = t } in
    let p = penalty sys current in
    let q = penalty (at t₂) throttled in
    let files = insert file throttled s.files in
    rw
      (
        handle_first sys first s file current idle f₁ read granted,
        handle_second (at t₂) second first.pid p files file throttled ne f₂
            (lookup-insert_self file throttled s.files) granted,
        two_penalties (at t₃) first.pid second.pid p q (insert file throttled files) file f₁ granted
            l₃ l₃' ne,
        one_penalty (at t₄) second.pid q (insert file current (insert file throttled files)) file f₂
            granted l₄,
      )
      (lookup-insert_self file throttled _, refl)

-- ===== src/Loader/Penalty.antt =====
-- scx_morpheus/src/main.rs: the penalty manager. Its map is an association list in the order in
-- which its iterator meets the entries; times are nanoseconds.
use morpheus.Prelude.{
  ℕ, ◌+◌, ◌*◌, Bool, Option, none, some, List, [], ◌∷◌, leb, if◌then◌else◌, lookup, insert, remove,
  nat_eq,
}
use morpheus.Prelude.Text.{Text, text, text_eq}
use morpheus.Loader.Cgroup.{find_cgroup_path, max_file}

pub record MorpheusEscalationEvent : Type 0 where
  pub worker_id : ℕ
  pub pid : ℕ
  pub severity : ℕ
  pub timestamp : ℕ

-- The original quota, and when the penalty expires.
pub record ActivePenalty : Type 0 where
  pub original : Text
  pub expiry : ℕ

pub record PenaltyManager : Type 0 where
  pub active_penalties : List (ℕ × ActivePenalty)

unfoldable pub new : PenaltyManager
new = record { active_penalties = [] }

-- What the system answers during one call: the text of /proc/PID/cgroup, whether a write to a file
-- is granted, and the time.
pub record System : Type 0 where
  pub proc_cgroup : ℕ → Option Text
  pub writable : Text → Bool
  pub now : ℕ

-- The files of the cgroup hierarchy, with the manager.
pub record State : Type 0 where
  pub manager : PenaltyManager
  pub files : List (Text × Text)

abbrev pub active : State → List (ℕ × ActivePenalty)
active s = s.manager.active_penalties

abbrev pub throttled : Text
throttled = text "1000 100000"

abbrev pub penalty_ns : ℕ
penalty_ns = 5 * 1_000_000_000

-- The `cpu.max` file of the cgroup of a process.
abbrev pub cpu_max : System → ℕ → Option Text
cpu_max sys pid = elim (find_cgroup_path (sys.proc_cgroup pid)) [
  | none ↦ none
  | some path ↦ some (max_file path)
]

-- The file has been found; `current` is what was read from it.
unfoldable pub throttle : System → ℕ → Text → Option Text → State → State
throttle sys pid file none s = s
throttle sys pid file (some current) s =
    if sys.writable file
    then record {
      manager = record {
        active_penalties =
            insert pid (record { original = current; expiry = sys.now + penalty_ns }) (active s);
      };
      files = insert file throttled s.files;
    }
    else s

unfoldable pub handle_escalation_event : System → MorpheusEscalationEvent → State → State
handle_escalation_event sys event s = elim (lookup event.pid (active s)) [
  | some _ ↦ s
  | none ↦ elim (cpu_max sys event.pid) [
    | none ↦ s
    | some file ↦ throttle sys event.pid file (lookup file s.files) s
  ]
]

unfoldable pub expired : ℕ → List (ℕ × ActivePenalty) → List ℕ
expired now [] = []
expired now ((pid, p) ∷ ps) =
    let rest = expired now ps in if leb p.expiry now then pid ∷ rest else rest

-- The entry has been removed; the original quota goes back if the file can be written.
unfoldable pub restore : System → ℕ → ActivePenalty → List (Text × Text) → List (Text × Text)
restore sys pid p files = elim (cpu_max sys pid) [
  | none ↦ files
  | some file ↦ if sys.writable file then insert file p.original files else files
]

unfoldable pub release : System → ℕ → State → State
unfolding restore
release sys pid s = elim (lookup pid (active s)) [
  | none ↦ s
  | some p ↦ record {
    manager = record { active_penalties = remove pid (active s) };
    files = restore sys pid p s.files;
  }
]

unfoldable pub release_all : System → List ℕ → State → State
release_all sys [] s = s
release_all sys (pid ∷ pids) s = release_all sys pids (release sys pid s)

unfoldable pub check_expired_penalties : System → State → State
check_expired_penalties sys s = release_all sys (expired sys.now (active s)) s

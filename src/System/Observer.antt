-- ===== src/System/Observer.antt =====
-- A loader without enforcement: a session in which the kernel only observes.
use morpheus.Prelude.{ℕ, ◌≡◌, ◌≢◌, refl, ap, ◌∙◌, false, arith}
use morpheus.Kernel.State.{Kernel}
use morpheus.Kernel.Ops.{init, dispatch, enable, init_task, select_cpu, enqueue, running, stopping}
use morpheus.Kernel.Observing.{tick-Unforced}
use morpheus.Loader.Tune.{adaptive_tune}
use morpheus.Loader.Main.{Args}
use morpheus.Loader.Startup.{Machine, Session, start}
use morpheus.Loader.Startup
use morpheus.System.{Step, Steps, task_starts, ticks, here, next}
use morpheus.System.Dormant.{kicks}

-- What a step of a kernel that only observes leaves alone.
record Watched (k k' : Kernel) : Type 0 where
  mode : k'.scheduler_mode ≡ k.scheduler_mode
  kicked : kicks k'.actions ≡ kicks k.actions
  events : k'.escalation_ringbuf ≡ k.escalation_ringbuf

Step-Watched : {k k' : Kernel} → Step k k' → k.scheduler_mode ≢ 1 → Watched k k'
unfolding init dispatch enable select_cpu enqueue running stopping init_task adaptive_tune
Step-Watched {k} (ticks env pid) o =
    let same = tick-Unforced env pid k o in
    record { mode = same.mode; kicked = ap kicks same.actions; events = same.events }
Step-Watched {k} (task_starts created pid e) o = ground arith
Step-Watched {k} st o = ground arith

Steps-Watched : {k k' : Kernel} → Steps k k' → k.scheduler_mode ≢ 1 → Watched k k'
Steps-Watched here o = record { mode = refl; kicked = refl; events = refl }
Steps-Watched {k} (next r st) o =
    let w = Steps-Watched r o in
    let v = Step-Watched st (ground (arith, w.mode)) in
    record { mode = v.mode ∙ w.mode; kicked = v.kicked ∙ w.kicked; events = v.events ∙ w.events }

start-mode :
    (m : Machine) (tid_map scb_map : ℕ) (args : Args) (s : Session)
    → args.enforce ≡ false
    → (start m tid_map scb_map args s).0.kernel ≡ s.kernel
unfolding start Startup.set_scheduler_mode Startup.attach Startup.pin
start-mode m tid_map scb_map args s off = ground (arith, off)

-- A loader that is not asked to enforce, on a program as it was built, with the mode of an observer.
-- Whatever calls of the scheduler, the runtimes and the loader follow its start, in whatever order and
-- with whatever settings and blocks: no CPU is kicked and no escalation is submitted.
pub observer_never_kicks :
    (m : Machine) (tid_map scb_map : ℕ) (args : Args) (s : Session) {k : Kernel}
    → args.enforce ≡ false
    → s.kernel.scheduler_mode ≡ 0
    → Steps (start m tid_map scb_map args s).0.kernel k
    → (kicks k.actions ≡ kicks s.kernel.actions)
      × (k.escalation_ringbuf ≡ s.kernel.escalation_ringbuf)
observer_never_kicks m tid_map scb_map args s off built r =
    let same = start-mode m tid_map scb_map args s off in
    let w = Steps-Watched r (rw same (omega arith)) in
    (
      w.kicked ∙ ap (λ (k : Kernel). kicks k.actions) same,
      w.events ∙ ap (λ (k : Kernel). k.escalation_ringbuf) same,
    )

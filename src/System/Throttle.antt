-- ===== src/System/Throttle.antt =====
-- An escalation on its way from the tick to the quota of a cgroup, and the time before the loader
-- has written any settings.
use morpheus.Prelude.{
  ℕ, ◌≤◌, ◌<◌, ◌≡◌, ◌∙◌, true, none, some, ◌∷◌, arith, lookup, nat_eq, lookup-insert_self, update,
  inl, inr,
}
use morpheus.Prelude.Text.{Text, text_eq}
use morpheus.Kernel.State.{Kernel, Env, TaskCtx, EscalationEvent, severity_penalty, kick_cpu}
use morpheus.Kernel.Tick.{tick, account, raise_seq}
use morpheus.Kernel.Escalation.{MayKick}
use morpheus.Kernel.Escalates.{tick-escalates}
use morpheus.Kernel.Signals.{tick-signals}
use morpheus.Loader.Penalty.{System, State, active, throttled, cpu_max}
use morpheus.Loader.PenaltyLaws.{quota, handle-throttles}
use morpheus.Loader.Main.{event_bytes, on_escalation}
use morpheus.Loader.Main.Events.{IsWord, as_event, on_escalation-event_bytes}

-- The event that a tick submits.
abbrev pub event_of : Env → (pid : ℕ) → TaskCtx → EscalationEvent
event_of env pid tctx = record {
  worker_id = tctx.worker_id;
  pid = pid;
  severity = severity_penalty;
  timestamp = env.now;
}

throttled-quota :
    (sys : System) (padding : ℕ) (e : EscalationEvent) (s : State) (file current : Text)
    → IsWord e
    → lookup e.pid (active s) ≡ none
    → cpu_max sys e.pid ≡ some file
    → quota file s ≡ some current
    → sys.writable file ≡ true
    → quota file (on_escalation sys (event_bytes padding e) s).0 ≡ some throttled
throttled-quota sys padding e s file current w fresh found read granted =
    rw
      (
        on_escalation-event_bytes padding e w sys s,
        handle-throttles sys (as_event e) s file current fresh found read granted,
      )
      (lookup-insert_self file throttled s.files)

-- From the tick to the quota. A tick that may kick the CPU of a worker with a block, with a policy
-- that throttles and with room in the buffer, kicks it and submits one event; and the loader, to
-- which the record of that event comes, throttles the cgroup of that very task, if the task has no
-- penalty yet and the file of its cgroup can be read and written. Identifiers and times fit their C
-- types.
pub tick-throttles :
    (env : Env) (pid : ℕ) (k : Kernel) (tctx : TaskCtx) (sys : System) (padding : ℕ) (s : State)
    (file current : Text)
    → k.task_ctx_map pid ≡ some tctx
    → tctx.is_morpheus_worker ≡ true
    → tctx.worker_id < k.max_workers
    → MayKick (account env tctx) (k.scb_map tctx.worker_id) k
    → 2 ≤ (k.scb_map tctx.worker_id).escalation_policy
    → (k.scb_map tctx.worker_id).escalation_policy ≤ 3
    → env.escalation_room ≡ true
    → IsWord (event_of env pid tctx)
    → lookup pid (active s) ≡ none
    → cpu_max sys pid ≡ some file
    → quota file s ≡ some current
    → sys.writable file ≡ true
    → ((tick env pid k).actions ≡ kick_cpu pid ∷ k.actions)
      × ((tick env pid k).escalation_ringbuf ≡ event_of env pid tctx ∷ k.escalation_ringbuf)
      × (quota file (on_escalation sys (event_bytes padding (event_of env pid tctx)) s).0
          ≡ some throttled)
tick-throttles env pid k tctx sys padding s file current e worker small may strong known room w
      fresh found read granted =
    let (kicked, ring) = tick-escalates env pid k tctx e worker small may known in
    (
      kicked,
      ring ∙ ground (arith, room, strong),
      throttled-quota sys padding (event_of env pid tctx) s file current w fresh found read granted,
    )

-- The entry of an array map starts with zeros and is always there, so the defaults of the scheduler
-- are never read: until the loader has written the settings, every tick of a running worker with a
-- block that has run for any time at all asks for a yield, however short that time is.
pub unset_config-signals :
    (env : Env) (pid : ℕ) (k : Kernel) (tctx : TaskCtx)
    → k.config ≡ some (record { slice_ns = 0; grace_period_ns = 0 })
    → k.task_ctx_map pid ≡ some tctx
    → tctx.is_morpheus_worker ≡ true
    → tctx.worker_id < k.max_workers
    → (k.scb_map tctx.worker_id).worker_state ≡ 2
    → 0 < (account env tctx).runtime_ns
    → (tick env pid k).scb_map
      ≡ update k.scb_map tctx.worker_id (raise_seq (k.scb_map tctx.worker_id))
unset_config-signals env pid k tctx unset e worker small state ran =
    elim (tick-signals env pid k tctx e) [
      | inl (wants, s) ↦ s.scbs
      | inr (not_wanted, s) ↦ absurd (ground (arith, unset, worker, small, state, ran, not_wanted))
    ]

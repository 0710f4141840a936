-- ===== src/Tests/Signals.antt =====
-- A worker that is asked to yield, up to the consumer and to the loader, at concrete inputs.
use morpheus.Prelude.{◌+◌, ◌≡◌, refl, true, false, some, [], ◌∷◌, ltb, arith, lookup}
use morpheus.Runtime.HintConsumer.{is_defensive}
use morpheus.Kernel.State.{Kernel, TaskCtx, Env, kick_cpu}
use morpheus.Kernel.Tick.{
  tick, account, tick_worker, tick_scb, request_yield, signal, emit_hint, escalate, gate,
  execute_escalation, emit_escalation_event, worker_can_receive_hints,
}
use morpheus.Kernel.Drops.{drops}
use morpheus.Kernel.Escalation.{MayKick}
use morpheus.Loader.Main.{on_escalation, event_bytes}
use morpheus.Loader.Main.Events.{IsWord}
use morpheus.Loader.Cgroup.{find_cgroup_path, max_file}
use morpheus.Loader.Penalty.{throttled}
use morpheus.Loader.PenaltyLaws.{quota}
use morpheus.Prelude.Text.{text}
use morpheus.System.Hints.{Ticks, first, next, consume_all, consumer_counts_losses}
use morpheus.System.Throttle.{event_of, tick-throttles}
use morpheus.Tests.Kernel.{hog, context, env, kernel}
use morpheus.Tests.Loader.{machine, file, quiet}

-- A ring buffer that takes one hint, refuses two, and takes another one.
abbrev counted : Kernel
counted = record kernel {
  stats = some (record {
    hints_emitted = 0;
    hints_dropped = 0;
    escalations = 0;
    escalations_blocked = 0;
    ticks_total = 0;
    state_checks_skipped = 0;
  });
}

-- The context of the worker after its first tick, and a tick without room.
abbrev ticked : TaskCtx
ticked = record context { last_tick_ns = 3000; runtime_ns = 20_002_000 }

abbrev full : Env
full = record env { hint_room = false }

abbrev afterwards : Kernel
afterwards = tick env 77 (tick full 77 (tick full 77 (tick env 77 counted)))

run : Ticks 3 counted (true ∷ false ∷ false ∷ true ∷ []) afterwards
unfolding tick tick_worker tick_scb request_yield signal emit_hint account escalate gate
    execute_escalation emit_escalation_event worker_can_receive_hints
run =
    next env 77 ticked
      (next full 77 ticked
        (next full 77 ticked (first env 77 context refl refl refl refl) refl refl refl) refl refl
        refl)
      refl refl refl

consumer_counts_losses_example :
    (drops afterwards ≡ some 2)
    × ((consume_all afterwards.hint_ringbuf).hints_dropped + 0 ≡ 2)
    × ((consume_all afterwards.hint_ringbuf).hints_received + 2 ≡ 4)
    × (is_defensive (consume_all afterwards.hint_ringbuf)
        ≡ ltb 0 (consume_all afterwards.hint_ringbuf).hints_dropped)
consumer_counts_losses_example = consumer_counts_losses run refl refl (omega arith)

-- A worker whose cgroup is to be throttled.
abbrev strict : Kernel
strict = record kernel { scb_map = λ i. record hog { escalation_policy = 2 } }

may_kick : MayKick (account env context) (strict.scb_map 3) strict
unfolding account
may_kick = record {
  enforced = refl;
  running = refl;
  opted_in = omega arith;
  not_critical = refl;
  unacknowledged = omega arith;
  past_slice = omega arith;
  past_grace = omega arith;
  policy = omega arith;
}

fits : IsWord (event_of env 77 context)
fits = record {
  worker_id = omega arith;
  pid = omega arith;
  severity = omega arith;
  timestamp = omega arith;
}

tick-throttles_example :
    ((tick env 77 strict).actions ≡ kick_cpu 77 ∷ [])
    × ((tick env 77 strict).escalation_ringbuf ≡ event_of env 77 context ∷ [])
    × (quota file (on_escalation machine (event_bytes 0 (event_of env 77 context)) quiet).0
        ≡ some throttled)
unfolding find_cgroup_path max_file lookup
tick-throttles_example =
    tick-throttles env 77 strict context machine 0 quiet file (text "max 100000") refl refl
      (omega arith) may_kick (omega arith) (omega arith) refl fits refl refl refl refl

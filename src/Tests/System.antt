-- ===== src/Tests/System.antt =====
-- The whole memory at concrete inputs.
use morpheus.Prelude.{◌≡◌, refl, some, [], arith, update, true}
use morpheus.Runtime.Worker.{Thread}
use morpheus.Runtime.Critical.{critical_section, drop}
use morpheus.Runtime.Critical.Nesting.{Holds, take, give}
use morpheus.Runtime.Critical.Nesting
use morpheus.Kernel.State.{Kernel}
use morpheus.Kernel.Tick.{tick}
use morpheus.Kernel.Ops.{stopping}
use morpheus.System.{store, here, next, task_stops, ticks, maps_block, prioritizes}
use morpheus.System.Valid.{Valid, AllValid, Steps-Valid}
use morpheus.Common.Scb.{MorpheusScb}
use morpheus.Runtime.Error.{ok}
use morpheus.Runtime.ScbHandle.{initialize, set_priority}
use morpheus.Runtime.ScbHandle
use morpheus.System.Dormant.{Dormant, kicks, Steps-Dormant}
use morpheus.System.Protocol.{Moves, Steps-Moves}
use morpheus.System.Protocol
use morpheus.System.Shield.{guard-shields}
use morpheus.Tests.Kernel.{hog, context, env, kernel, with_context}

abbrev pub worker : Thread
worker = record {
  current_scb = some (record { ptr = 384; worker_id = 3 });
  worker_id = some 3;
  critical_depth = 0;
  scb = hog;
}

pub holds : Holds 0 worker
holds = record {
  counted = refl;
  fits = omega arith;
  flag = refl;
  handle = record { ptr = 384; worker_id = 3 };
  attached = refl;
}

-- Two guards are taken and one is dropped.
abbrev inside : Thread
inside = drop (critical_section (critical_section worker).0).0

abbrev two_and_one : Nesting.Steps 0 worker 1 inside
two_and_one = Nesting.next (Nesting.next (Nesting.next Nesting.here take) take) (give refl)

guard-shields_example : (tick env 77 (with_context context inside.scb)).actions ≡ []
guard-shields_example =
    guard-shields holds two_and_one (((tt, omega arith), omega arith), omega arith) env 77
      (with_context context inside.scb) context refl refl

abbrev asleep : Kernel
asleep = with_context context (record hog { worker_state = 0 })

abbrev later : Kernel
later = stopping 0 env 77 (tick env 77 asleep)

Steps-Dormant_example : Dormant later × (later.hint_ringbuf ≡ []) × (kicks later.actions ≡ 0)
Steps-Dormant_example =
    Steps-Dormant {k = asleep} {k' = later} (λ i. refl)
      (next (next here (ticks env 77)) (task_stops 0 env 77))

Steps-Moves_example :
    Moves (Protocol.worker 3 kernel) (Protocol.worker 3 (stopping 0 env 77 (tick env 77 kernel)))
Steps-Moves_example =
    Steps-Moves {k = kernel} {k' = stopping 0 env 77 (tick env 77 kernel)}
      (next (next here (ticks env 77)) (task_stops 0 env 77)) 3

-- The memory as the kernel has made it, and a worker that maps its block and raises its priority.
abbrev zeroed : MorpheusScb
zeroed = record {
  preempt_seq = 0;
  budget_remaining_ns = 0;
  kernel_pressure_level = 0;
  worker_state = 0;
  hint_loss_count = 0;
  last_escalation_ns = 0;
  ringbuf_overflow_count = 0;
  is_in_critical_section = 0;
  escapable = 0;
  last_ack_seq = 0;
  runtime_priority = 0;
  last_yield_reason = 0;
  reservation_token = 0;
  escalation_policy = 0;
}

abbrev fresh : Kernel
fresh = with_context context zeroed

zeroed-Valid : Valid zeroed
zeroed-Valid = record {
  requests = omega arith;
  budget = omega arith;
  flag = omega arith;
  opt_in = omega arith;
  priority = omega arith;
  pressure = refl;
  losses = refl;
  overflows = refl;
  reason = refl;
}

abbrev mapped : Kernel
mapped = record fresh { scb_map = update fresh.scb_map 3 (initialize true zeroed) }

abbrev raised : Kernel
raised = store 3 (set_priority 5000 (mapped.scb_map 3)) mapped

Steps-Valid_example : AllValid (stopping 0 env 77 raised)
unfolding ScbHandle.new
Steps-Valid_example =
    Steps-Valid {k = fresh} {k' = stopping 0 env 77 raised} (λ i. zeroed-Valid)
      (next
        (next
          (next here (
            maps_block (λ offset len. ok tt) 3 true {h = record { ptr = 384; worker_id = 3 }}
              {m = mapped.scb_map} refl))
          (prioritizes 3 5000))
        (task_stops 0 env 77))

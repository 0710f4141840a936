-- ===== src/Tests/Kernel.antt =====
-- The scheduler at a worker that has used up its slice.
use morpheus.Prelude.{◌≡◌, ◌⊎◌, refl, true, false, none, some, [], ◌∷◌, ◌==◌, if◌then◌else◌, arith}
use morpheus.Common.Scb.{MorpheusScb}
use morpheus.Kernel.State.{TaskCtx, kick_cpu, Kernel, Env}
use morpheus.Kernel.Tick.{tick, account}
use morpheus.Kernel.Escalation.{MayKick, tick-kicks}
use morpheus.Kernel.Escalates.{events, tick-escalates}
use morpheus.Kernel.Signals.{Signalled, SameShared, wants_yield, tick-signals}

-- It runs, has opted in, and has acknowledged everything.
abbrev pub hog : MorpheusScb
hog = record {
  preempt_seq = 4;
  budget_remaining_ns = 5000;
  kernel_pressure_level = 0;
  worker_state = 2;
  hint_loss_count = 0;
  last_escalation_ns = 0;
  ringbuf_overflow_count = 0;
  is_in_critical_section = 0;
  escapable = 1;
  last_ack_seq = 4;
  runtime_priority = 500;
  last_yield_reason = 0;
  reservation_token = 0;
  escalation_policy = 1;
}

abbrev pub context : TaskCtx
context = record {
  last_tick_ns = 1000;
  runtime_ns = 20_000_000;
  worker_id = 3;
  is_morpheus_worker = true;
}

abbrev pub env : Env
env = record { now = 3000; hint_room = true; escalation_room = true }

abbrev pub with_context : TaskCtx → MorpheusScb → Kernel
with_context c scb = record {
  scheduler_mode = 1;
  max_workers = 1024;
  default_slice_ns = 5_000_000;
  default_grace_period_ns = 100_000;
  config = none;
  stats = none;
  scb_map = λ i. scb;
  worker_tid_map = (77, 3) ∷ [];
  task_ctx_map = λ p. if p == 77 then some c else none;
  hint_ringbuf = [];
  escalation_ringbuf = [];
  actions = [];
}

abbrev pub kernel : Kernel
kernel = with_context context hog

tick-kicks_example :
    ((tick env 77 kernel).actions ≡ [])
    ⊎ ((tick env 77 kernel).actions ≡ kick_cpu 77 ∷ [])
      × ((tctx : TaskCtx) × (kernel.task_ctx_map 77 ≡ some tctx)
          × (tctx.is_morpheus_worker ≡ true)
          × MayKick (account env tctx) (kernel.scb_map tctx.worker_id) kernel)
tick-kicks_example = tick-kicks env 77 kernel

may_kick : MayKick (account env context) hog kernel
unfolding account
may_kick = record {
  enforced = refl;
  running = refl;
  opted_in = omega arith;
  not_critical = refl;
  unacknowledged = omega arith;
  past_slice = omega arith;
  past_grace = omega arith;
  policy = omega arith;
}

tick-escalates_example :
    ((tick env 77 kernel).actions ≡ kick_cpu 77 ∷ [])
    × ((tick env 77 kernel).escalation_ringbuf ≡ events env 77 context 1 [])
tick-escalates_example =
    tick-escalates env 77 kernel context refl refl (omega arith) may_kick (omega arith)

tick-signals_example :
    (wants_yield env context kernel ≡ true) × Signalled env 77 3 kernel (tick env 77 kernel)
    ⊎ (wants_yield env context kernel ≡ false) × SameShared kernel (tick env 77 kernel)
tick-signals_example = tick-signals env 77 kernel context refl

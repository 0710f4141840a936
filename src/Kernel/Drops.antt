-- ===== src/Kernel/Drops.antt =====
-- How a tick counts the hints that find no room.
use morpheus.Prelude.{
  ℕ, ◌≡◌, Bool, true, Option, none, some, ltb, ◌&&◌, ◌==◌, if◌then◌else◌, add64, arith, update,
}
use morpheus.Common.Scb.{MorpheusScb}
use morpheus.Kernel.State.{TaskCtx, Kernel, Env, slice_of, grace_of, count, ticked}
use morpheus.Kernel.Tick.{
  tick, tick_worker, tick_scb, account, request_yield, escalate, execute_escalation, emit_hint,
  signal, raise_seq,
}
use morpheus.Kernel.Signals.{wants_yield}

-- The counter of dropped hints, where there are counters.
abbrev pub drops : Kernel → Option ℕ
drops k = elim k.stats [ none ↦ none | some s ↦ some s.hints_dropped ]

abbrev pub one_more : Bool → Option ℕ → Option ℕ
one_more room none = none
one_more room (some n) = some (if room then n else add64 n 1)

execute_escalation-drops :
    (env : Env) (pid policy : ℕ) (tctx : TaskCtx) (k : Kernel)
    → drops (execute_escalation env pid policy tctx k) ≡ drops k
unfolding execute_escalation
execute_escalation-drops env pid policy tctx k = ground arith

escalate-drops :
    (env : Env) (pid : ℕ) (tctx : TaskCtx) (scb : MorpheusScb) (preempt_seq slice grace : ℕ)
    (k : Kernel)
    → drops (escalate env pid tctx scb preempt_seq slice grace k) ≡ drops k
unfolding escalate
escalate-drops env pid tctx scb preempt_seq slice grace k =
    ground (arith, execute_escalation-drops env pid scb.escalation_policy tctx k)

signal-drops :
    (env : Env) (pid : ℕ) (tctx : TaskCtx) (scb : MorpheusScb) (grace : ℕ) (k : Kernel)
    → drops (signal env pid tctx scb grace k) ≡ one_more env.hint_room (drops k)
unfolding signal emit_hint
signal-drops env pid tctx scb grace k = ground arith

request_yield-drops :
    (env : Env) (pid : ℕ) (tctx : TaskCtx) (scb : MorpheusScb) (slice grace : ℕ) (k : Kernel)
    → drops (request_yield env pid tctx scb slice grace k) ≡ one_more env.hint_room (drops k)
unfolding request_yield
request_yield-drops env pid tctx scb slice grace k = ground (
  arith,
  signal-drops env pid tctx scb grace k,
  escalate-drops env pid tctx (raise_seq scb) (add64 scb.preempt_seq 1) slice grace
      (signal env pid tctx scb grace k),
)

tick_scb-drops :
    (env : Env) (pid : ℕ) (tctx : TaskCtx) (scb : MorpheusScb) (k : Kernel)
    → (scb.worker_state == 2 && ltb (slice_of k) tctx.runtime_ns) ≡ true
    → drops (tick_scb env pid tctx scb k) ≡ one_more env.hint_room (drops k)
unfolding tick_scb
tick_scb-drops env pid tctx scb k h =
    ground (arith, request_yield-drops env pid tctx scb (slice_of k) (grace_of k) k)

-- A tick that asks for a yield counts a dropped hint exactly if the buffer has no room.
pub tick-drops :
    (env : Env) (pid : ℕ) (k : Kernel) (tctx : TaskCtx)
    → k.task_ctx_map pid ≡ some tctx
    → wants_yield env tctx k ≡ true
    → drops (tick env pid k) ≡ one_more env.hint_room (drops k)
unfolding tick tick_worker account
tick-drops env pid k tctx e w =
    let k' = count ticked k in
    ground (
      arith,
      e,
      tick_scb-drops env pid (account env tctx) (k.scb_map tctx.worker_id)
          (record k' { task_ctx_map = update k.task_ctx_map pid (some (account env tctx)) }),
    )

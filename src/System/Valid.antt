-- ===== src/System/Valid.antt =====
-- What every block of the shared memory always satisfies.
use morpheus.Prelude.{ℕ, ◌≡◌, ◌≤◌, ◌<◌, ◌^◌, arith}
use morpheus.Common.Config.{default_slice_ns}
use morpheus.Common.Scb.{MorpheusScb}
use morpheus.Runtime.ScbHandle.{
  initialize, acknowledge_from, compare_exchange, enter_critical, exit_critical, set_priority,
}
use morpheus.Kernel.State.{Kernel}
use morpheus.Kernel.Ops.{charge}
use morpheus.System.Blocks.{
  Change, kept, raised, charged, initialized, acknowledged, entered, exited, prioritized,
  Step-Change,
}
use morpheus.System.{Steps, here, next}

pub record Valid (scb : MorpheusScb) : Type 0 where
  pub requests : scb.preempt_seq < 2 ^ 64
  pub budget : scb.budget_remaining_ns ≤ default_slice_ns
  pub flag : scb.is_in_critical_section ≤ 1
  pub opt_in : scb.escapable ≤ 1
  pub priority : scb.runtime_priority ≤ 1000
  pub pressure : scb.kernel_pressure_level ≡ 0
  pub losses : scb.hint_loss_count ≡ 0
  pub overflows : scb.ringbuf_overflow_count ≡ 0
  pub reason : scb.last_yield_reason ≡ 0

Change-Valid : {scb scb' : MorpheusScb} → Change scb scb' → Valid scb → Valid scb'
unfolding charge initialize acknowledge_from compare_exchange enter_critical exit_critical
    set_priority
Change-Valid kept v = v
Change-Valid (raised running) v = ground (arith, v)
Change-Valid (charged delta) v = ground (arith, v)
Change-Valid (initialized escapable) v = ground (arith, v)
Change-Valid (acknowledged target current) v = ground (arith, v)
Change-Valid entered v = ground (arith, v)
Change-Valid exited v = ground (arith, v)
Change-Valid (prioritized priority) v = ground (arith, v)

abbrev pub AllValid : Kernel → Type 0
AllValid k = (i : ℕ) → Valid (k.scb_map i)

-- From a memory in which every block is valid, as the zeroed map is: whatever calls of the scheduler,
-- the runtimes and the loader follow, in every block the number of requests fits its word, the budget
-- is at most the default slice, both flags are 0 or 1, the priority is at most 1000, and the pressure
-- level, the counts of lost and refused hints and the reason of the last yield are 0.
pub Steps-Valid : {k k' : Kernel} → AllValid k → Steps k k' → AllValid k'
Steps-Valid v here = v
Steps-Valid v (next r st) = λ i. Change-Valid (Step-Change st i) (Steps-Valid v r i)

-- ===== src/Common/Scb.antt =====
-- morpheus-common/src/lib.rs: the shared control block, one for each worker thread. A field is the
-- word that its atomic holds; the padding words are left out.
use morpheus.Prelude.{ℕ, Bool, true, if◌then◌else◌}
use morpheus.Common.WorkerState
use morpheus.Common.YieldReason
use morpheus.Common.EscalationPolicy

pub record MorpheusScb : Type 0 where
  pub preempt_seq : ℕ
  pub budget_remaining_ns : ℕ
  pub kernel_pressure_level : ℕ
  pub worker_state : ℕ
  pub hint_loss_count : ℕ
  pub last_escalation_ns : ℕ
  pub ringbuf_overflow_count : ℕ
  pub is_in_critical_section : ℕ
  pub escapable : ℕ
  pub last_ack_seq : ℕ
  pub runtime_priority : ℕ
  pub last_yield_reason : ℕ
  pub reservation_token : ℕ
  pub escalation_policy : ℕ

unfoldable pub new : Bool → MorpheusScb
unfolding WorkerState.as_u32 YieldReason.as_u32 EscalationPolicy.as_u32
new escapable = record {
  preempt_seq = 0;
  budget_remaining_ns = 0;
  kernel_pressure_level = 0;
  worker_state = WorkerState.as_u32 WorkerState.init;
  hint_loss_count = 0;
  last_escalation_ns = 0;
  ringbuf_overflow_count = 0;
  is_in_critical_section = 0;
  escapable = if escapable then 1 else 0;
  last_ack_seq = 0;
  runtime_priority = 500;
  last_yield_reason = YieldReason.as_u32 YieldReason.none;
  reservation_token = 0;
  escalation_policy = EscalationPolicy.as_u32 EscalationPolicy.none;
}

unfoldable pub default : MorpheusScb
unfolding new
default = new true

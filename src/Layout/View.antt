-- ===== src/Layout/View.antt =====
-- The shared control block in memory: the kernel stores and loads its words by the declaration in C, the
-- runtime by the declaration in Rust.
pub mod Laws
pub mod Accesses
pub mod Operations
pub mod Race
use morpheus.Prelude.{ℕ, ◌+◌, ◌*◌, Option, none, some, List}
use morpheus.Common.Scb.{MorpheusScb}
use morpheus.Layout.{Word, Field, width, offset_of, word_of}
use morpheus.Layout.Memory.{Memory, store, load}
use morpheus.Layout.Block.{
  Cell, preempt_seq, budget_remaining_ns, kernel_pressure_level, worker_state, hint_loss_count,
  last_escalation_ns, ringbuf_overflow_count, is_in_critical_section, escapable, last_ack_seq,
  runtime_priority, last_yield_reason, reservation_token, escalation_policy, name, word,
}

abbrev or_zero : Option ℕ → ℕ
or_zero none = 0
or_zero (some o) = o

abbrev width_or_zero : Option Word → ℕ
width_or_zero none = 0
width_or_zero (some w) = width w

abbrev pub scb_size : ℕ
scb_size = 128

-- Where a declared struct has a word of the block with a number, and how wide it is.
unfoldable pub address : List Field → (block : ℕ) → Cell → ℕ
address fs block c = scb_size * block + or_zero (offset_of (name c) fs)

unfoldable pub width_in : List Field → Cell → ℕ
width_in fs c = width_or_zero (word_of (name c) fs)

-- An access to a word, by a declaration.
unfoldable pub load_word : List Field → ℕ → Cell → Memory → ℕ
unfolding address width_in
load_word fs block c m = load (address fs block c) (width_in fs c) m

unfoldable pub store_word : List Field → ℕ → Cell → (v : ℕ) → Memory → Memory
unfolding address width_in
store_word fs block c v m = store (address fs block c) (width_in fs c) v m

-- The block as a declaration reads it.
unfoldable pub view : List Field → Memory → ℕ → MorpheusScb
unfolding load_word
view fs m block = record {
  preempt_seq = load_word fs block preempt_seq m;
  budget_remaining_ns = load_word fs block budget_remaining_ns m;
  kernel_pressure_level = load_word fs block kernel_pressure_level m;
  worker_state = load_word fs block worker_state m;
  hint_loss_count = load_word fs block hint_loss_count m;
  last_escalation_ns = load_word fs block last_escalation_ns m;
  ringbuf_overflow_count = load_word fs block ringbuf_overflow_count m;
  is_in_critical_section = load_word fs block is_in_critical_section m;
  escapable = load_word fs block escapable m;
  last_ack_seq = load_word fs block last_ack_seq m;
  runtime_priority = load_word fs block runtime_priority m;
  last_yield_reason = load_word fs block last_yield_reason m;
  reservation_token = load_word fs block reservation_token m;
  escalation_policy = load_word fs block escalation_policy m;
}

unfoldable pub get : Cell → MorpheusScb → ℕ
get preempt_seq s = s.preempt_seq
get budget_remaining_ns s = s.budget_remaining_ns
get kernel_pressure_level s = s.kernel_pressure_level
get worker_state s = s.worker_state
get hint_loss_count s = s.hint_loss_count
get last_escalation_ns s = s.last_escalation_ns
get ringbuf_overflow_count s = s.ringbuf_overflow_count
get is_in_critical_section s = s.is_in_critical_section
get escapable s = s.escapable
get last_ack_seq s = s.last_ack_seq
get runtime_priority s = s.runtime_priority
get last_yield_reason s = s.last_yield_reason
get reservation_token s = s.reservation_token
get escalation_policy s = s.escalation_policy

unfoldable pub set : Cell → ℕ → MorpheusScb → MorpheusScb
set preempt_seq v s = record s { preempt_seq = v }
set budget_remaining_ns v s = record s { budget_remaining_ns = v }
set kernel_pressure_level v s = record s { kernel_pressure_level = v }
set worker_state v s = record s { worker_state = v }
set hint_loss_count v s = record s { hint_loss_count = v }
set last_escalation_ns v s = record s { last_escalation_ns = v }
set ringbuf_overflow_count v s = record s { ringbuf_overflow_count = v }
set is_in_critical_section v s = record s { is_in_critical_section = v }
set escapable v s = record s { escapable = v }
set last_ack_seq v s = record s { last_ack_seq = v }
set runtime_priority v s = record s { runtime_priority = v }
set last_yield_reason v s = record s { last_yield_reason = v }
set reservation_token v s = record s { reservation_token = v }
set escalation_policy v s = record s { escalation_policy = v }

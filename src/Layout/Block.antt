-- ===== src/Layout/Block.antt =====
-- The shared control block as its two sides declare it: `MorpheusScb` of morpheus-common/src/lib.rs and
-- `struct morpheus_scb` of morpheus-common/include/morpheus_shared.h.
use Prim.Native.String.{String}
use morpheus.Prelude.{ℕ, ◌≡◌, refl, some, List, [], ◌∷◌, string_eq}
use morpheus.Layout.{Word, u32, u64, Field, offset_of, word_of, size_of}

abbrev pub one : String → Word → Field
one name word = record { name = name; word = word; count = 1 }

abbrev pub five : String → Word → Field
five name word = record { name = name; word = word; count = 5 }

unfoldable pub rust_fields : List Field
rust_fields =
    one "preempt_seq" u64
    ∷ one "budget_remaining_ns" u64
    ∷ one "kernel_pressure_level" u32
    ∷ one "worker_state" u32
    ∷ one "hint_loss_count" u32
    ∷ one "last_escalation_ns" u64
    ∷ one "ringbuf_overflow_count" u32
    ∷ five "_reserved0" u32
    ∷ one "is_in_critical_section" u32
    ∷ one "escapable" u32
    ∷ one "last_ack_seq" u64
    ∷ one "runtime_priority" u32
    ∷ one "last_yield_reason" u32
    ∷ one "reservation_token" u64
    ∷ one "escalation_policy" u32
    ∷ one "_pad" u32
    ∷ []

unfoldable pub c_fields : List Field
c_fields =
    one "preempt_seq" u64
    ∷ one "budget_remaining_ns" u64
    ∷ one "kernel_pressure_level" u32
    ∷ one "worker_state" u32
    ∷ one "hint_loss_count" u32
    ∷ one "last_escalation_ns" u64
    ∷ one "ringbuf_overflow_count" u32
    ∷ five "_reserved0" u32
    ∷ one "is_in_critical_section" u32
    ∷ one "escapable" u32
    ∷ one "last_ack_seq" u64
    ∷ one "runtime_priority" u32
    ∷ one "last_yield_reason" u32
    ∷ one "reservation_token" u64
    ∷ one "escalation_policy" u32
    ∷ one "_pad" u32
    ∷ []

-- `align(64)` on both sides.
abbrev pub alignment : ℕ
alignment = 64

-- The words that the two sides read and write.
pub data Cell : Type 0 where
  preempt_seq : Cell
  budget_remaining_ns : Cell
  kernel_pressure_level : Cell
  worker_state : Cell
  hint_loss_count : Cell
  last_escalation_ns : Cell
  ringbuf_overflow_count : Cell
  is_in_critical_section : Cell
  escapable : Cell
  last_ack_seq : Cell
  runtime_priority : Cell
  last_yield_reason : Cell
  reservation_token : Cell
  escalation_policy : Cell

unfoldable pub name : Cell → String
name preempt_seq = "preempt_seq"
name budget_remaining_ns = "budget_remaining_ns"
name kernel_pressure_level = "kernel_pressure_level"
name worker_state = "worker_state"
name hint_loss_count = "hint_loss_count"
name last_escalation_ns = "last_escalation_ns"
name ringbuf_overflow_count = "ringbuf_overflow_count"
name is_in_critical_section = "is_in_critical_section"
name escapable = "escapable"
name last_ack_seq = "last_ack_seq"
name runtime_priority = "runtime_priority"
name last_yield_reason = "last_yield_reason"
name reservation_token = "reservation_token"
name escalation_policy = "escalation_policy"

-- Where a word stands, and how wide it is, in numbers.
abbrev pub offset : Cell → ℕ
offset preempt_seq = 0
offset budget_remaining_ns = 8
offset kernel_pressure_level = 16
offset worker_state = 20
offset hint_loss_count = 24
offset last_escalation_ns = 32
offset ringbuf_overflow_count = 40
offset is_in_critical_section = 64
offset escapable = 68
offset last_ack_seq = 72
offset runtime_priority = 80
offset last_yield_reason = 84
offset reservation_token = 88
offset escalation_policy = 96

abbrev pub word : Cell → Word
word preempt_seq = u64
word budget_remaining_ns = u64
word kernel_pressure_level = u32
word worker_state = u32
word hint_loss_count = u32
word last_escalation_ns = u64
word ringbuf_overflow_count = u32
word is_in_critical_section = u32
word escapable = u32
word last_ack_seq = u64
word runtime_priority = u32
word last_yield_reason = u32
word reservation_token = u64
word escalation_policy = u32

-- A declared struct places a word there, with that width.
pub record Places (fs : List Field) (c : Cell) : Type 0 where
  pub offset_same : offset_of (name c) fs ≡ some (offset c)
  pub word_same : word_of (name c) fs ≡ some (word c)

pub rust-Places : (c : Cell) → Places rust_fields c
unfolding offset_of word_of rust_fields name
rust-Places preempt_seq = record { offset_same = refl; word_same = refl }
rust-Places c = record { offset_same = refl; word_same = refl }

pub c-Places : (c : Cell) → Places c_fields c
unfolding offset_of word_of c_fields name
c-Places preempt_seq = record { offset_same = refl; word_same = refl }
c-Places c = record { offset_same = refl; word_same = refl }

-- Both structs fill two cache lines.
pub both_sizes : (size_of alignment rust_fields ≡ 128) × (size_of alignment c_fields ≡ 128)
unfolding size_of rust_fields c_fields
both_sizes = (refl, refl)

-- ===== src/Runtime/HintConsumer.antt =====
-- morpheus-runtime/src/ringbuf.rs: the consumer of kernel hints, which detects gaps in their
-- sequence numbers. Counters are 64-bit words.
pub mod Accounting
use morpheus.Prelude.{
  ℕ, ◌+◌, ◌-◌, Bool, true, false, not, ◌&&◌, List, ltb, if◌then◌else◌, length, add64, sub64,
}
use morpheus.Common.Hint.{MorpheusHint, hint_size, read_hint}

pub record RingBufStats : Type 0 where
  pub hints_received : ℕ
  pub hints_dropped : ℕ
  pub defensive_triggers : ℕ

pub record HintConsumer : Type 0 where
  pub last_seq : ℕ
  pub defensive_mode : Bool
  pub stats : RingBufStats
  pub open stats use *

unfoldable pub new : HintConsumer
new = record {
  last_seq = 0;
  defensive_mode = false;
  stats = record { hints_received = 0; hints_dropped = 0; defensive_triggers = 0 };
}

unfoldable pub is_defensive : HintConsumer → Bool
is_defensive c = c.defensive_mode

-- `defensive_mode.swap(true)`, counted as a trigger if it was false.
unfoldable pub trigger_defensive : HintConsumer → HintConsumer
trigger_defensive c = record c {
  defensive_mode = true;
  stats = record c.stats {
    defensive_triggers =
        if not c.defensive_mode then add64 c.defensive_triggers 1 else c.defensive_triggers;
  };
}

unfoldable pub note_dropped : ℕ → HintConsumer → HintConsumer
note_dropped dropped c = record c {
  stats = record c.stats { hints_dropped = add64 c.hints_dropped dropped };
}

-- A hint that was parsed: `hint.seq > last + 1 && last > 0` is a gap.
unfoldable pub receive : MorpheusHint → HintConsumer → HintConsumer
unfolding trigger_defensive note_dropped
receive hint c =
    let last = c.last_seq in
    let c' = record c { stats = record c.stats { hints_received = add64 c.hints_received 1 } } in
    let c'' =
      if ltb (add64 last 1) hint.seq && ltb 0 last
      then trigger_defensive (note_dropped (sub64 (sub64 hint.seq last) 1) c')
      else c' in
    record c'' { last_seq = hint.seq }

-- The new state and the status for the ring buffer, which is always "continue".
unfoldable pub process_hint : List ℕ → HintConsumer → HintConsumer × ℕ
unfolding receive
process_hint bytes c =
    if ltb (length bytes) hint_size then (c, 0) else (receive (read_hint bytes) c, 0)

unfoldable pub reset_defensive : HintConsumer → HintConsumer
reset_defensive c = record c { defensive_mode = false }

-- ===== src/Common/WorkerState.antt =====
-- morpheus-common/src/lib.rs: `WorkerState`, with its discriminants and the conversion back
-- from a word (`none` stands for `Err(())`).
use morpheus.Prelude.{ℕ, ◌≡◌, ◌↔◌, Option, arith, ◌==◌, if◌then◌else◌, Bool, true, false}

pub data WorkerState : Type 0 where
  init : WorkerState
  registered : WorkerState
  running : WorkerState
  quiescing : WorkerState
  dead : WorkerState

unfoldable pub as_u32 : WorkerState → ℕ
as_u32 init = 0
as_u32 registered = 1
as_u32 running = 2
as_u32 quiescing = 3
as_u32 dead = 4

unfoldable pub try_from : ℕ → Option WorkerState
try_from value =
    if value == 0
    then Option.some WorkerState.init
    else if value == 1
    then Option.some WorkerState.registered
    else if value == 2
    then Option.some WorkerState.running
    else if value == 3
    then Option.some WorkerState.quiescing
    else if value == 4
    then Option.some WorkerState.dead
    else Option.none

-- The conversion accepts the discriminants and no other word.
pub try_from_iff :
    (value : ℕ) (x : WorkerState) → (try_from value ≡ Option.some x) ↔ (as_u32 x ≡ value)
unfolding try_from as_u32
try_from_iff value x = ground arith

unfoldable pub can_receive_hints : WorkerState → Bool
can_receive_hints running = true
can_receive_hints _ = false

unfoldable pub can_escalate : WorkerState → Bool
can_escalate running = true
can_escalate _ = false

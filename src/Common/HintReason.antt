-- ===== src/Common/HintReason.antt =====
-- morpheus-common/src/lib.rs: `HintReason`, with its discriminants and the conversion back
-- from a word (`none` stands for `Err(())`).
use morpheus.Prelude.{ℕ, ◌≡◌, ◌↔◌, Option, arith, ◌==◌, if◌then◌else◌}

pub data HintReason : Type 0 where
  budget : HintReason
  pressure : HintReason
  imbalance : HintReason
  deadline : HintReason

unfoldable pub as_u32 : HintReason → ℕ
as_u32 budget = 1
as_u32 pressure = 2
as_u32 imbalance = 3
as_u32 deadline = 4

unfoldable pub try_from : ℕ → Option HintReason
try_from value =
    if value == 1
    then Option.some HintReason.budget
    else if value == 2
    then Option.some HintReason.pressure
    else if value == 3
    then Option.some HintReason.imbalance
    else if value == 4
    then Option.some HintReason.deadline
    else Option.none

-- The conversion accepts the discriminants and no other word.
pub try_from_iff :
    (value : ℕ) (x : HintReason) → (try_from value ≡ Option.some x) ↔ (as_u32 x ≡ value)
unfolding try_from as_u32
try_from_iff value x = ground arith

-- ===== src/Common/YieldReason.antt =====
-- morpheus-common/src/lib.rs: `YieldReason`, with its discriminants and the conversion back
-- from a word (`none` stands for `Err(())`).
use morpheus.Prelude.{ℕ, ◌≡◌, ◌↔◌, Option, arith, ◌==◌, if◌then◌else◌}

pub data YieldReason : Type 0 where
  none : YieldReason
  hint : YieldReason
  checkpoint : YieldReason
  budget : YieldReason
  defensive : YieldReason
  escalation_recovery : YieldReason

unfoldable pub as_u32 : YieldReason → ℕ
as_u32 none = 0
as_u32 hint = 1
as_u32 checkpoint = 2
as_u32 budget = 3
as_u32 defensive = 4
as_u32 escalation_recovery = 5

unfoldable pub try_from : ℕ → Option YieldReason
try_from value =
    if value == 0
    then Option.some YieldReason.none
    else if value == 1
    then Option.some YieldReason.hint
    else if value == 2
    then Option.some YieldReason.checkpoint
    else if value == 3
    then Option.some YieldReason.budget
    else if value == 4
    then Option.some YieldReason.defensive
    else if value == 5
    then Option.some YieldReason.escalation_recovery
    else Option.none

-- The conversion accepts the discriminants and no other word.
pub try_from_iff :
    (value : ℕ) (x : YieldReason) → (try_from value ≡ Option.some x) ↔ (as_u32 x ≡ value)
unfolding try_from as_u32
try_from_iff value x = ground arith

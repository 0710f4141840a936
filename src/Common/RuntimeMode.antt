-- ===== src/Common/RuntimeMode.antt =====
-- morpheus-common/src/lib.rs: `RuntimeMode`, with its discriminants.
use morpheus.Prelude.{ℕ, Bool, true, false}

pub data RuntimeMode : Type 0 where
  deterministic : RuntimeMode
  pressured : RuntimeMode
  defensive : RuntimeMode

unfoldable pub as_u32 : RuntimeMode → ℕ
as_u32 deterministic = 0
as_u32 pressured = 1
as_u32 defensive = 2

unfoldable pub should_yield_eagerly : RuntimeMode → Bool
should_yield_eagerly defensive = true
should_yield_eagerly _ = false

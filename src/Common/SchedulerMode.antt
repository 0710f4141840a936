-- ===== src/Common/SchedulerMode.antt =====
-- morpheus-common/src/lib.rs: `SchedulerMode`, with its discriminants.
use morpheus.Prelude.{ℕ}

pub data SchedulerMode : Type 0 where
  observer_only : SchedulerMode
  enforced : SchedulerMode

unfoldable pub as_u32 : SchedulerMode → ℕ
as_u32 observer_only = 0
as_u32 enforced = 1

-- The variant that is marked as the default.
unfoldable pub default : SchedulerMode
default = observer_only

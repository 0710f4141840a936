-- ===== src/Common/EscalationPolicy.antt =====
-- morpheus-common/src/lib.rs: `EscalationPolicy`, with its discriminants and the conversion back
-- from a word (`none` stands for `Err(())`).
use morpheus.Prelude.{ℕ, ◌≡◌, ◌↔◌, Option, arith, ◌==◌, if◌then◌else◌}

pub data EscalationPolicy : Type 0 where
  none : EscalationPolicy
  thread_kick : EscalationPolicy
  cgroup_throttle : EscalationPolicy
  hybrid : EscalationPolicy

-- The variant that is marked as the default.
unfoldable pub default : EscalationPolicy
default = EscalationPolicy.none

unfoldable pub as_u32 : EscalationPolicy → ℕ
as_u32 none = 0
as_u32 thread_kick = 1
as_u32 cgroup_throttle = 2
as_u32 hybrid = 3

unfoldable pub try_from : ℕ → Option EscalationPolicy
try_from value =
    if value == 0
    then Option.some EscalationPolicy.none
    else if value == 1
    then Option.some EscalationPolicy.thread_kick
    else if value == 2
    then Option.some EscalationPolicy.cgroup_throttle
    else if value == 3
    then Option.some EscalationPolicy.hybrid
    else Option.none

-- The conversion accepts the discriminants and no other word.
pub try_from_iff :
    (value : ℕ) (x : EscalationPolicy) → (try_from value ≡ Option.some x) ↔ (as_u32 x ≡ value)
unfolding try_from as_u32
try_from_iff value x = ground arith

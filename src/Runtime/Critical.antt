-- ===== src/Runtime/Critical.antt =====
-- morpheus-runtime/src/critical.rs: nested critical sections. The depth is thread-local; the flag
-- in the shared block is set by the first entry and cleared by the last exit.
pub mod Nesting
use morpheus.Prelude.{ℕ, ◌+◌, ◌-◌, ◌^◌, Bool, ltb, ◌==◌, if◌then◌else◌, u32}
use morpheus.Runtime.ScbHandle
use morpheus.Runtime.Worker.{Thread, with_current_scb}

-- The guard is the depth that it records.
pub record CriticalGuard : Type 0 where
  pub depth : ℕ

unfoldable pub critical_section : Thread → Thread × CriticalGuard
unfolding ScbHandle.enter_critical
critical_section t =
    let current = t.critical_depth in
    let t' = record t { critical_depth = u32 (current + 1) } in
    (
      if current == 0 then with_current_scb (λ scb. (ScbHandle.enter_critical scb).0) t' else t',
      record { depth = u32 (current + 1) },
    )

-- `drop` of a guard.
unfoldable pub drop : Thread → Thread
unfolding ScbHandle.exit_critical
drop t =
    let current = t.critical_depth in
    let t' = record t { critical_depth = u32 (current + 2 ^ 32 - 1) } in
    if current == 1 then with_current_scb ScbHandle.exit_critical t' else t'

unfoldable pub in_critical_section : Thread → Bool
in_critical_section t = ltb 0 t.critical_depth

-- ===== src/Runtime/DefensiveMode.antt =====
-- morpheus-runtime/src/ringbuf.rs: the defensive mode controller.
pub mod Laws
use morpheus.Prelude.{ℕ, Bool, true, false, leb, if◌then◌else◌, sub64}

pub record DefensiveMode : Type 0 where
  pub active : Bool
  pub yields_remaining : ℕ
  pub default_yields : ℕ

unfoldable pub new : ℕ → DefensiveMode
new default_yields = record {
  active = false;
  yields_remaining = 0;
  default_yields = default_yields;
}

unfoldable pub enter : DefensiveMode → DefensiveMode
enter d = record d { active = true; yields_remaining = d.default_yields }

-- `fetch_sub` returns the count from before, and wraps at 0.
unfoldable pub should_yield : DefensiveMode → DefensiveMode × Bool
should_yield d =
    if d.active
    then (
      record d {
        active = if leb d.yields_remaining 1 then false else true;
        yields_remaining = sub64 d.yields_remaining 1;
      },
      true,
    )
    else (d, false)

unfoldable pub is_active : DefensiveMode → Bool
is_active d = d.active

unfoldable pub exit : DefensiveMode → DefensiveMode
exit d = record d { active = false; yields_remaining = 0 }

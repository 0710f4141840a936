-- ===== src/Common/Pressure.antt =====
-- morpheus-common/src/lib.rs: `GlobalPressure`.
use morpheus.Prelude.{ℕ, Bool, ◌||◌, ltb}

pub record GlobalPressure : Type 0 where
  pub cpu_pressure_pct : ℕ
  pub io_pressure_pct : ℕ
  pub memory_pressure_pct : ℕ
  pub runqueue_depth : ℕ

unfoldable pub new : GlobalPressure
new = record {
  cpu_pressure_pct = 0;
  io_pressure_pct = 0;
  memory_pressure_pct = 0;
  runqueue_depth = 0;
}

unfoldable pub is_pressured : GlobalPressure → Bool
is_pressured p =
    ltb 50 p.cpu_pressure_pct || ltb 50 p.io_pressure_pct || ltb 50 p.memory_pressure_pct

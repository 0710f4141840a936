-- ===== src/Common.antt =====
-- The shared types of morpheus-common/src/lib.rs.
pub mod SchedulerMode
pub mod WorkerState
pub mod EscalationPolicy
pub mod YieldReason
pub mod RuntimeMode
pub mod HintReason
pub mod Config
pub mod Scb
pub mod Pressure
pub mod Hint
pub mod Codes

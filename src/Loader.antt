-- ===== src/Loader.antt =====
-- scx_morpheus/src/main.rs: the loader of the scheduler, its main loop's work.
pub mod Psi
pub mod Tune
pub mod Cgroup
pub mod Penalty
pub mod Main
pub mod Startup
pub mod Build
pub mod PenaltyLaws
pub mod PenaltyExpiry

-- ===== src/Tests.antt =====
-- The theorems at concrete inputs.
mod Kernel
mod System
mod Runtime
mod Executor
mod Metrics
mod Loader
mod Python
mod Layout
mod Tokio
mod Signals
mod Main
mod Startup
mod Bench

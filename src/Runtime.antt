-- ===== src/Runtime.antt =====
-- morpheus-runtime/src: the userspace runtime, a module for each source file.
pub mod Error
pub mod ScbHandle
pub mod Worker
pub mod Critical
pub mod HintConsumer
pub mod DefensiveMode
pub mod Executor
pub mod Metrics
pub mod Adapter
pub mod BpfMaps
pub mod Builder
pub mod Lifecycle

-- ===== src/Runtime/Executor.antt =====
-- morpheus-runtime/src/executor.rs: the executor of one worker. The queues of crossbeam are not
-- part of the repository: they are an interface with the laws that the executor relies on.
pub mod Deque
pub mod Defs
pub mod Tasks
pub mod Progress
pub mod Yield
pub mod Spawned
pub mod Fleet

-- ===== src/Kernel.antt =====
-- scx_morpheus/src/bpf/scx_morpheus.bpf.c: the kernel side of the protocol. A call of a helper of
-- the kernel whose answer the code branches on (room in a ring buffer, the clock) is a field of
-- `Env`.
pub mod State
pub mod Ops
pub mod Tick
pub mod Escalation
pub mod Escalates
pub mod Signals
pub mod Frame
pub mod Observing
pub mod Budget
pub mod Drops

-- ===== src/Bench.antt =====
-- morpheus-bench/src/bin: the programs that measure the runtime, a module for each of them. Time is
-- what the clock answers: the durations that a program measures are its inputs.
pub mod Latency
pub mod Starvation
pub mod Liar
pub mod Unattached

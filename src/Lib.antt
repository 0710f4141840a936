-- ===== src/Lib.antt =====
-- Morpheus: cooperative scheduling between a sched_ext scheduler in the kernel and the runtimes of
-- programs in userspace.
--
-- The program. A BPF scheduler (scx_morpheus/src/bpf/scx_morpheus.bpf.c) watches the tasks that are
-- registered as workers. At a tick beyond the slice of a worker it raises `preempt_seq` in the
-- control block that it shares with that worker, emits a hint into a ring buffer, and in enforced
-- mode may escalate: kick the CPU, or ask the loader for a throttle. The runtime
-- (morpheus-runtime/src) reads the block at checkpoints, acknowledges, marks critical sections in
-- it, and falls back to a defensive mode when hints are lost. The loader (scx_morpheus/src/main.rs)
-- tunes the slice, publishes the pressure of the system, and throttles cgroups for five seconds.
-- Bindings for Python (morpheus-py/src/lib.rs) and for Tokio (morpheus-tokio/src/lib.rs) stand on
-- the runtime; morpheus-common/src/lib.rs holds the types that all sides share.
--
-- The files.
-- Prelude: numbers as machine words (`u32`, `u64`, `add64`, `sub64` wrap), integers as Python's, lists,
--   association lists, native-endian bytes, and texts as lists of bytes with what is used of Rust's `str`.
-- Common: morpheus-common/src/lib.rs, a module for each type. `Common.Scb` is the control block, a
--   word for each atomic; `Common.Hint` has the layout of a hint in bytes; `Common.Codes` reads the
--   enums as types of words.
-- Kernel: scx_morpheus.bpf.c. `Kernel.State` is the state of all maps and globals; `Kernel.Tick` is
--   morpheus_tick with its helpers, `Kernel.Ops` the other operations but morpheus_exit. The other
--   children prove what a tick does.
-- Layout: the shared control block in memory. `Layout` places the fields of a struct as repr(C) and C
--   do; `Layout.Block` has the two declarations of the block, in morpheus-common/src/lib.rs and in
--   morpheus-common/include/morpheus_shared.h, and `Layout.Ctypes` the one of
--   morpheus-py/morpheus_common/_morpheus_shared.py. `Layout.View` reads the block out of bytes by a
--   declaration; Operations are the stores of each operation on a block, and Race is the
--   initialization of a block with a request of the kernel in between.
-- Runtime: morpheus-runtime/src, a module for each source file: ScbHandle is scb.rs (Race takes
--   `acknowledge` an atomic access at a time), Worker is worker.rs with `checkpoint_sync` of lib.rs,
--   Critical is critical.rs, HintConsumer and DefensiveMode are ringbuf.rs, Executor is executor.rs,
--   Metrics is metrics.rs, Adapter is adapter.rs, BpfMaps is bpf_maps.rs, Builder is runtime.rs,
--   Error is error.rs. `Executor.Yield` is the future of `yield_now` and of tasks with `checkpoint!`,
--   `Executor.Spawned` the schedule closure of `spawn`, and `Executor.Fleet` several executors that
--   steal from each other. `BpfMaps.Attr` has the attributes of the system call bpf in bytes,
--   `BpfMaps.ObjGet` the opening of a pinned map with them.
--   `Lifecycle` is the rest of runtime.rs: the runtimes of a process, by address, with the owners of
--   each `Arc` and the global instance.
-- Loader: main.rs. Psi reads /proc and packs map entries, Tune is adaptive slicing, Cgroup and
--   Penalty are the penalty manager, PenaltyLaws and PenaltyExpiry are about it. Main is `main`: the
--   arguments, the pinned maps, the callback of the ring buffer, the monitor thread and the main loop;
--   Main.Settings, Main.Events and Main.Release are about what it writes, hands on
--   and releases. Startup is `main` from the command line to its end, with the errors of its calls,
--   and Startup.Restart is about two runs one after the other. Build is scx_morpheus/build.rs.
-- Bench: morpheus-bench/src/bin, a module for each program. `Bench.Latency` is the histogram and the
--   workers of latency.rs, `Bench.Starvation` the tasks and the report of starvation.rs, `Bench.Liar`
--   the iterations of liar.rs on a worker thread; the modules Orders are about the interleavings of
--   their threads, and Unattached about threads without a control block.
-- Python and Tokio: the two bindings. `Python.Init` is `init_worker`, and `Python.Module` what the
--   module registers. `Python.Asyncio` is morpheus-py/python/morpheus/asyncio.py: its helpers, the
--   adaptive checkpointer and the wrapper around an event loop.
-- System: one memory for the scheduler, the runtime and the loader, with a step for each of their
--   calls. Its children are about runs that cross the parts: Dormant and Shield from any part to the
--   tick, Handshake from a tick to the executor that answers it, Hints from the ticks through the ring
--   buffer to the consumer, Throttle from a tick to the quota that the loader writes, Observer from the
--   command line of the loader to all that follows its start. Blocks is what a step does to one block;
--   Protocol and Valid stand on it, and are about the block as a protocol of requests and answers and
--   about the values of its words, Memory about what the steps store to the bytes of the map, and Bytes
--   about the flag of a critical section in those bytes.
-- UnitTests: what the unit tests beside the code assert, of the model.
-- Tests: the theorems at concrete inputs.
--
-- The state. A method that changes an object takes its state and returns it. A thread is its
-- thread-local context with the block that its handle maps; the map of blocks is a function of the
-- slot. Calls of one handler are one step, as a tick runs on the CPU of the task that it is about;
-- where threads race, in `acknowledge`, the steps are the single accesses.
--
-- Parameters, for what the repository only calls: the queues of crossbeam (`Deque`), the system
-- calls on BPF maps (`Bpf`), mmap, floats (`F32`, `F64`), futures and timers of Tokio, `run`
-- of async-task, clocks, the files of /proc and of the cgroups, what libbpf, bpftool and the module
-- object of PyO3 answer, and the event loop of asyncio. Their hypotheses state what their
-- documentation says.
--
-- Bounds. Loops go over lists; only `display` of Metrics runs on fuel, 20 digits, which every 64-bit
-- number fits, and `bit_length` of the histogram on 64 steps, the bits of a word. Loops that end when
-- a flag is cleared from outside (`run` of the executor, the main loop and the monitor of the loader,
-- the workers of the benchmarks) go over the list of what they meet in their rounds; `drive` polls a
-- task as often as it is told. Words wrap where the code's do; a theorem that needs a counter below
-- its width says so.
--
-- Not modelled: morpheus_exit, which records a reason by a macro of the scx library, the parsing of
-- arguments (a call of clap), what libbpf does to load the BPF object, logs, how async-task keeps the
-- tasks and their results, the event loop of asyncio and the scripts in Python, and the measurements
-- of morpheus-bench/benches.
pub mod Prelude
pub mod Common
pub mod Runtime
pub mod Kernel
pub mod Loader
pub mod Bench
pub mod Layout
pub mod System
pub mod Python
pub mod Tokio
pub mod UnitTests
mod Tests

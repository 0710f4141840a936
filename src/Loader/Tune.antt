-- ===== src/Loader/Tune.antt =====
-- scx_morpheus/src/main.rs: adaptive slicing.
use morpheus.Prelude.{ℕ, ◌*◌, ◌^◌, ◌≤◌, ◌<◌, Option, some, ltb, if◌then◌else◌, u32, arith}
use morpheus.Prelude.Text.{Text}
use morpheus.Kernel.State.{MorpheusConfig, Kernel}
use morpheus.Loader.Psi.{read_runqueue_depth, unwrap_or}

-- `num_cpus * 2` is a product of 32-bit words.
unfoldable pub slice_for : (num_cpus runqueue_depth default_slice_ns : ℕ) → ℕ
slice_for num_cpus runqueue_depth default_slice_ns =
    if ltb (u32 (num_cpus * 2)) runqueue_depth
    then 2_000_000
    else if ltb runqueue_depth num_cpus
    then 10_000_000
    else default_slice_ns

-- The entry that goes into the config map; `parallelism` is what `available_parallelism` answers.
unfoldable pub adaptive_config :
    (parallelism : Option ℕ) (loadavg : Option Text) (default_slice_ns default_grace_ns : ℕ)
    → MorpheusConfig
unfolding slice_for
adaptive_config parallelism loadavg default_slice_ns default_grace_ns = record {
  slice_ns =
      slice_for (u32 (unwrap_or parallelism 1)) (unwrap_or (read_runqueue_depth loadavg) 0)
        default_slice_ns;
  grace_period_ns = default_grace_ns;
}

unfoldable pub adaptive_tune :
    Option ℕ → Option Text → (default_slice_ns default_grace_ns : ℕ) → Kernel → Kernel
unfolding adaptive_config
adaptive_tune parallelism loadavg default_slice_ns default_grace_ns k = record k {
  config = some (adaptive_config parallelism loadavg default_slice_ns default_grace_ns);
}

-- The deeper the run queue, the shorter or equal the slice, if the default lies between the two
-- extremes of 2 and 10 milliseconds, and twice the number of CPUs is a 32-bit word; and the slice
-- never leaves the range between them.
pub slice_for-antitone :
    (num_cpus depth deeper default_slice_ns : ℕ)
    → num_cpus * 2 < 2 ^ 32
    → 2_000_000 ≤ default_slice_ns
    → default_slice_ns ≤ 10_000_000
    → depth ≤ deeper
    → (slice_for num_cpus deeper default_slice_ns ≤ slice_for num_cpus depth default_slice_ns)
      × (2_000_000 ≤ slice_for num_cpus deeper default_slice_ns)
      × (slice_for num_cpus depth default_slice_ns ≤ 10_000_000)
unfolding slice_for
slice_for-antitone num_cpus depth deeper default_slice_ns fits lo hi le = ground arith

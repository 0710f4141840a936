-- ===== src/Common/Config.antt =====
-- morpheus-common/src/lib.rs: the constants of `config`.
use morpheus.Prelude.{ℕ, ◌*◌}

abbrev pub max_workers : ℕ
max_workers = 1024

abbrev pub default_slice_ns : ℕ
default_slice_ns = 5 * 1_000_000

abbrev pub grace_period_ns : ℕ
grace_period_ns = 100 * 1_000_000

abbrev pub ringbuf_size : ℕ
ringbuf_size = 256 * 1024

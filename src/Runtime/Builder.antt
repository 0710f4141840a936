-- ===== src/Runtime/Builder.antt =====
-- morpheus-runtime/src/runtime.rs: the configuration, the builder, and the runtime with the global
-- instance. Durations are nanoseconds.
use morpheus.Prelude.{ℕ, ◌≡◌, refl, Bool, false, Option, none, some, List, []}
use morpheus.Runtime.Worker.Pool.{WorkerConfig, WorkerPool}
use morpheus.Runtime.Worker.Pool
use morpheus.Runtime.DefensiveMode.{DefensiveMode}
use morpheus.Runtime.DefensiveMode
use morpheus.Runtime.HintConsumer.{HintConsumer}
use morpheus.Runtime.HintConsumer

pub record RuntimeConfig : Type 0 where
  pub workers : WorkerConfig
  pub defensive_yields : ℕ
  pub poll_timeout : ℕ

unfoldable pub default_config : Option ℕ → RuntimeConfig
unfolding Pool.default
default_config parallelism = record {
  workers = Pool.default parallelism;
  defensive_yields = 100;
  poll_timeout = 1_000_000;
}

pub record Builder : Type 0 where
  pub config : RuntimeConfig

unfoldable pub new_builder : Option ℕ → Builder
unfolding default_config
new_builder parallelism = record { config = default_config parallelism }

unfoldable pub num_workers : ℕ → Builder → Builder
num_workers n b = record b {
  config = record b.config { workers = record b.config.workers { num_workers = n } };
}

unfoldable pub escapable : Bool → Builder → Builder
escapable e b = record b {
  config = record b.config { workers = record b.config.workers { escapable = e } };
}

unfoldable pub defensive_yields : ℕ → Builder → Builder
defensive_yields count b = record b { config = record b.config { defensive_yields = count } }

unfoldable pub poll_timeout : ℕ → Builder → Builder
poll_timeout timeout b = record b { config = record b.config { poll_timeout = timeout } }

-- The injector is not used by the runtime, and is left out.
pub record Runtime : Type 0 where
  pub config : RuntimeConfig
  pub workers : Option WorkerPool
  pub defensive : DefensiveMode
  pub hints : HintConsumer
  pub running : Bool

unfoldable pub new : RuntimeConfig → Runtime
unfolding DefensiveMode.new HintConsumer.new
new config = record {
  config = config;
  workers = none;
  defensive = DefensiveMode.new config.defensive_yields;
  hints = HintConsumer.new;
  running = false;
}

unfoldable pub build : Builder → Runtime
unfolding new
build b = new b.config

-- The runtime after `shutdown`, and the threads that were joined.
unfoldable pub shutdown : Runtime → Runtime × List ℕ
unfolding Pool.shutdown
shutdown r = elim r.workers [
  | none ↦ (record r { running = false }, [])
  | some pool ↦
      (record r { running = false; workers = some (Pool.shutdown pool).0 }, (Pool.shutdown pool).1)
]

-- The setters of the builder act on fields of their own, so their order does not matter, and the
-- runtime that is built has what was set, is not running, and is not in defensive mode.
pub build_configured :
    (b : Builder) (n count timeout : ℕ) (e : Bool)
    → let r =
        build (num_workers n (escapable e (defensive_yields count (poll_timeout timeout b)))) in
      (r ≡ build (poll_timeout timeout (defensive_yields count (escapable e (num_workers n b)))))
      × (r.config.workers.num_workers ≡ n)
      × (r.config.workers.escapable ≡ e)
      × (r.config.poll_timeout ≡ timeout)
      × (r.defensive.default_yields ≡ count)
      × (r.running ≡ false)
      × (DefensiveMode.is_active r.defensive ≡ false)
unfolding build num_workers escapable defensive_yields poll_timeout DefensiveMode.is_active
build_configured b n count timeout e = (refl, refl, refl, refl, refl, refl, refl)

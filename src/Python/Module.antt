-- ===== src/Python/Module.antt =====
-- morpheus-py/src/lib.rs: the names that the module `_morpheus` gives to Python. The object of the
-- module is PyO3's: each of its calls may fail.
use Prim.Native.String.{String}
use morpheus.Prelude.{ℕ, Option, none, some, List, [], ◌∷◌}
use morpheus.Common.HintReason.{budget, pressure, imbalance, deadline}
use morpheus.Common.HintReason
use morpheus.Common.Config.{max_workers, default_slice_ns, grace_period_ns}

abbrev pub functions : List String
functions =
    "init_worker" ∷ "checkpoint" ∷ "yield_requested" ∷ "yield_now_async" ∷ "acknowledge_yield"
    ∷ "pressure_level" ∷ "budget_remaining_ns" ∷ "set_priority" ∷ "is_in_critical_section_py"
    ∷ "worker_id" ∷ "critical" ∷ "enter_critical_section" ∷ "exit_critical_section" ∷ "get_stats"
    ∷ "is_defensive_mode" ∷ []

abbrev pub classes : List String
classes = "CriticalSection" ∷ "Stats" ∷ []

unfoldable pub constants : List (String × ℕ)
unfolding HintReason.as_u32
constants =
    ("HINT_BUDGET", HintReason.as_u32 budget)
    ∷ ("HINT_PRESSURE", HintReason.as_u32 pressure)
    ∷ ("HINT_IMBALANCE", HintReason.as_u32 imbalance)
    ∷ ("HINT_DEADLINE", HintReason.as_u32 deadline)
    ∷ ("MAX_WORKERS", max_workers)
    ∷ ("DEFAULT_SLICE_NS", default_slice_ns)
    ∷ ("GRACE_PERIOD_NS", grace_period_ns)
    ∷ []

infixl 5 ◌>>=◌
abbrev ◌>>=◌ : {A B : Type 0} → Option A → (A → Option B) → Option B
none >>= f = none
some a >>= f = f a

-- The calls one after the other; the first that fails ends them.
unfoldable add_all : {A M : Type 0} → (A → M → Option M) → List A → M → Option M
add_all add [] m = some m
add_all add (x ∷ xs) m = add x m >>= add_all add xs

module _ {M : Type 0} (add_function add_class : String → M → Option M)
    (add : String × ℕ → M → Option M) where
  -- The body of `#[pymodule]`.
  unfoldable pub init_module : M → Option M
  unfolding add_all
  init_module m = do
    m1 ← add_all add_function functions m
    m2 ← add_all add_class classes m1
    add_all add constants m2

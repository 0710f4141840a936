-- ===== src/Runtime/ScbHandle.antt =====
-- morpheus-runtime/src/scb.rs: the operations of a worker on its shared control block. A method is
-- a function of the block that the handle points to, and returns the block that it leaves. The map
-- of blocks is a function of the slot; a mapping at an offset aliases the slot that starts there.
pub mod Laws
pub mod Race
use morpheus.Prelude.{ℕ, ◌*◌, ◌/◌, Bool, true, false, ltb, leb, ◌==◌, if◌then◌else◌, min, update}
use morpheus.Common.Config.{max_workers, default_slice_ns}
use morpheus.Common.Scb.{MorpheusScb}
use morpheus.Runtime.Error.{Result, ok, err, ◌>>=◌, invalid_worker}

pub record ScbHandle : Type 0 where
  pub ptr : ℕ
  pub worker_id : ℕ

abbrev pub scb_size : ℕ
scb_size = 128

-- The stores with which `new` initializes the block.
unfoldable pub initialize : Bool → MorpheusScb → MorpheusScb
initialize escapable scb = record scb {
  preempt_seq = 0;
  budget_remaining_ns = default_slice_ns;
  kernel_pressure_level = 0;
  is_in_critical_section = 0;
  escapable = if escapable then 1 else 0;
  last_ack_seq = 0;
  runtime_priority = 500;
}

-- `map_mut offset len` is the answer of the system to the mapping (`dup` and `mmap`).
unfoldable pub new :
    (ℕ → ℕ → Result (Unit {0}))
    → (ℕ → MorpheusScb)
    → ℕ
    → Bool
    → Result (ScbHandle × (ℕ → MorpheusScb))
unfolding initialize
new map_mut scb_map worker_id escapable =
    if leb max_workers worker_id
    then err (invalid_worker worker_id)
    else let offset = worker_id * scb_size in
      map_mut offset scb_size >>= λ _. ok (
        record { ptr = offset; worker_id = worker_id },
        update scb_map (offset / scb_size) (initialize escapable (scb_map (offset / scb_size))),
      )

unfoldable pub yield_requested : MorpheusScb → Bool
yield_requested scb = ltb scb.last_ack_seq scb.preempt_seq

-- The atomic compare-exchange of `last_ack_seq`, with `is_ok`.
unfoldable pub compare_exchange : ℕ → ℕ → MorpheusScb → MorpheusScb × Bool
compare_exchange current target scb =
    if scb.last_ack_seq == current
    then (record scb { last_ack_seq = target }, true)
    else (scb, false)

-- The body of `acknowledge` after its two loads.
unfoldable pub acknowledge_from : ℕ → ℕ → MorpheusScb → MorpheusScb × Bool
unfolding compare_exchange
acknowledge_from target current scb =
    if leb target current then (scb, true) else compare_exchange current target scb

-- `acknowledge` with nobody else at the block.
unfoldable pub acknowledge : MorpheusScb → MorpheusScb × Bool
unfolding acknowledge_from
acknowledge scb = acknowledge_from scb.preempt_seq scb.last_ack_seq scb

-- `swap`, which returns the previous state.
unfoldable pub enter_critical : MorpheusScb → MorpheusScb × ℕ
enter_critical scb = (record scb { is_in_critical_section = 1 }, scb.is_in_critical_section)

unfoldable pub exit_critical : MorpheusScb → MorpheusScb
exit_critical scb = record scb { is_in_critical_section = 0 }

unfoldable pub pressure_level : MorpheusScb → ℕ
pressure_level scb = scb.kernel_pressure_level

unfoldable pub budget_remaining_ns : MorpheusScb → ℕ
budget_remaining_ns scb = scb.budget_remaining_ns

unfoldable pub set_priority : ℕ → MorpheusScb → MorpheusScb
set_priority priority scb = record scb { runtime_priority = min priority 1000 }

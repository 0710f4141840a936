-- ===== src/Runtime/ScbHandle/Laws.antt =====
-- What the operations of a block promise, run by themselves.
use morpheus.Prelude.{ℕ, ◌*◌, ◌≡◌, ◌<◌, Bool, true, false, arith, max, update, if◌then◌else◌}
use morpheus.Common.Config.{max_workers, default_slice_ns}
use morpheus.Common.Scb.{MorpheusScb}
use morpheus.Runtime.Error.{Result, ok}
use morpheus.Runtime.ScbHandle.{ScbHandle, scb_size, new, yield_requested, acknowledge}

-- An acknowledgement that nobody interrupts succeeds: it raises `last_ack_seq` to `preempt_seq`
-- where that is larger, leaves every other word as it is, and no yield is requested after it.
pub acknowledge-settles :
    (scb : MorpheusScb)
    → (acknowledge scb ≡ (record scb { last_ack_seq = max scb.preempt_seq scb.last_ack_seq }, true))
      × (yield_requested (acknowledge scb).0 ≡ false)
unfolding acknowledge yield_requested
acknowledge-settles scb = ground arith

-- If `new` succeeds, then the worker id is below `max_workers`, the mapping was granted at the
-- offset of the slot, the handle carries the id, and of all slots only that of the worker differs:
-- it has the default budget and no yield request, is in no critical section, allows escalation
-- exactly as asked for, and keeps its lifecycle state and its escalation policy.
pub new-fresh :
    (map_mut : ℕ → ℕ → Result (Unit {0})) (scb_map : ℕ → MorpheusScb) (worker_id : ℕ) (b : Bool)
    {h : ScbHandle} {m : ℕ → MorpheusScb}
    → new map_mut scb_map worker_id b ≡ ok (h, m)
    → (worker_id < max_workers)
      × (map_mut (worker_id * scb_size) scb_size ≡ ok tt)
      × (h.worker_id ≡ worker_id)
      × (m ≡ update scb_map worker_id (m worker_id))
      × (yield_requested (m worker_id) ≡ false)
      × ((m worker_id).budget_remaining_ns ≡ default_slice_ns)
      × ((m worker_id).is_in_critical_section ≡ 0)
      × ((m worker_id).escapable ≡ (if b then 1 else 0))
      × ((m worker_id).worker_state ≡ (scb_map worker_id).worker_state)
      × ((m worker_id).escalation_policy ≡ (scb_map worker_id).escalation_policy)
unfolding new yield_requested
new-fresh map_mut scb_map worker_id b e = ground arith

-- ===== src/System/Protocol.antt =====
-- What the scheduler, the runtime and the loader do to one block, as moves of a protocol that knows
-- nothing else of them.
use morpheus.Prelude.{ℕ, ◌<◌, ◌≤◌, ◌≡◌, ◌⊎◌, sym, ap, subst, add64, arith, inl, inr}
use morpheus.Common.Config.{default_slice_ns}
use morpheus.Common.Scb.{MorpheusScb}
use morpheus.Runtime.ScbHandle.{
  initialize, acknowledge_from, compare_exchange, enter_critical, exit_critical, set_priority,
}
use morpheus.Kernel.State.{Kernel}
use morpheus.Kernel.Ops.{running, charge}
use morpheus.System.Blocks.{
  Change, kept, raised, charged, initialized, acknowledged, entered, exited, prioritized,
  Step-Change,
}
use morpheus.System.{Steps, here, next}

-- A worker as the protocol sees it.
pub record Worker : Type 0 where
  pub state : ℕ
  pub requested : ℕ
  pub acked : ℕ
  pub protected : ℕ
  pub budget : ℕ

-- What a worker and the scheduler may do to each other.
pub data Move (w : Worker) : Worker → Type 0 where
  nothing : Move w w
  request : w.state ≡ 2 → Move w (record w { requested = add64 w.requested 1 })
  answer : (target : ℕ) → w.acked < target → Move w (record w { acked = target })
  protect : Move w (record w { protected = 1 })
  unprotect : Move w (record w { protected = 0 })
  spend : (left : ℕ) → left ≤ w.budget → Move w (record w { budget = left })
  restart : Move w (record w { requested = 0; acked = 0; protected = 0; budget = default_slice_ns })

pub data Moves (w : Worker) : Worker → Type 0 where
  still : Moves w w
  more : {u v : Worker} → Moves w u → Move u v → Moves w v

unfoldable pub view : MorpheusScb → Worker
view scb = record {
  state = scb.worker_state;
  requested = scb.preempt_seq;
  acked = scb.last_ack_seq;
  protected = scb.is_in_critical_section;
  budget = scb.budget_remaining_ns;
}

abbrev pub worker : ℕ → Kernel → Worker
worker i k = view (k.scb_map i)

unmoved : {w v : Worker} → v ≡ w → Move w v
unmoved {w} e = subst (Move w) (sym e) nothing

acknowledge_from_cases :
    (scb : MorpheusScb) (target current : ℕ)
    → ((acknowledge_from target current scb).0 ≡ scb)
      ⊎ (scb.last_ack_seq < target)
        × ((acknowledge_from target current scb).0 ≡ record scb { last_ack_seq = target })
unfolding acknowledge_from compare_exchange
acknowledge_from_cases scb target current = ground arith

answer-at :
    (scb : MorpheusScb) (target current : ℕ)
    → Move (view scb) (view (acknowledge_from target current scb).0)
unfolding view
answer-at scb target current = elim (acknowledge_from_cases scb target current) [
  | inl same ↦ unmoved (ap view same)
  | inr (larger, stored) ↦ subst (λ b. Move (view scb) (view b)) (sym stored) (answer target larger)
]

charge-falls :
    (delta : ℕ) (scb : MorpheusScb)
    → (charge delta scb).budget_remaining_ns ≤ scb.budget_remaining_ns
unfolding charge
charge-falls delta scb = ground arith

pub Change-Move : {scb scb' : MorpheusScb} → Change scb scb' → Move (view scb) (view scb')
unfolding view charge initialize enter_critical exit_critical set_priority
Change-Move kept = nothing
Change-Move (raised running) = request running
Change-Move {scb} (charged delta) =
    spend (charge delta scb).budget_remaining_ns (charge-falls delta scb)
Change-Move (initialized escapable) = restart
Change-Move {scb} (acknowledged target current) = answer-at scb target current
Change-Move entered = protect
Change-Move exited = unprotect
Change-Move (prioritized priority) = nothing

-- The whole system refines the protocol. Whatever calls of the scheduler, the runtimes and the loader
-- follow each other: seen from any one block, they are moves of the protocol, in which a request
-- raises the number of requests by one and comes only while the worker is in the state running, an
-- answer only raises the acknowledged number, the budget only falls, a worker that maps its block
-- anew starts from zero with a full budget, and nothing else than that touches these numbers and the
-- protection, and nothing at all the state.
pub Steps-Moves : {k k' : Kernel} → Steps k k' → (i : ℕ) → Moves (worker i k) (worker i k')
Steps-Moves here i = still
Steps-Moves (next r st) i = more (Steps-Moves r i) (Change-Move (Step-Change st i))

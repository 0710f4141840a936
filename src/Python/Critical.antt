-- ===== src/Python/Critical.antt =====
-- What the pairs of `enter_critical_section` and `exit_critical_section` leave behind.
use morpheus.Prelude.{ℕ, ◌≡◌, refl, true, some, arith, List, [], ◌∷◌}
use morpheus.Runtime.ScbHandle.{ScbHandle}
use morpheus.Runtime.Worker.{Thread}
use morpheus.Runtime.HintConsumer.{process_hint}
use morpheus.Runtime.Builder.{Runtime}
use morpheus.Python.{
  critical, enter, exit, checkpoint, is_in_critical_section_py, is_defensive_mode,
  enter_critical_section,
}

-- `with critical(): with critical(): …` up to the end of the inner block.
abbrev pub inner_done : Thread → Thread
inner_done t =
    let outer = enter critical t in let inner = enter critical outer.1 in (exit inner.0 inner.1).1

-- On a worker thread that is in no critical section: at the end of an inner block the flag that the
-- kernel reads is 0, though the outer block is not left; the depth is 2, as no exit lowers it.
pub inner_exit_unprotects :
    (t : Thread) (h : ScbHandle)
    → t.current_scb ≡ some h
    → t.critical_depth ≡ 0
    → ((inner_done t).scb.is_in_critical_section ≡ 0)
      × ((inner_done t).critical_depth ≡ 2)
      × (is_in_critical_section_py (inner_done t) ≡ true)
unfolding enter exit critical is_in_critical_section_py
inner_exit_unprotects t h attached zero_depth = ground arith

-- One block of the context manager.
abbrev pub block : Thread → Thread
block t = let c = enter critical t in (exit c.0 c.1).1

-- On a worker thread that is in no critical section: after one block the thread still counts as in
-- a critical section, and a second block does not set the flag that the kernel reads, so that it is
-- 0 while the thread is in that block.
pub second_block_unprotected :
    (t : Thread) (h : ScbHandle)
    → t.current_scb ≡ some h
    → t.critical_depth ≡ 0
    → (is_in_critical_section_py (block t) ≡ true)
      × ((enter critical (block t)).1.scb.is_in_critical_section ≡ 0)
unfolding enter exit critical is_in_critical_section_py
second_block_unprotected t h attached zero_depth = ground arith

-- A critical section does not change the answer of `checkpoint`.
pub checkpoint-enter : (t : Thread) → checkpoint (enter_critical_section t) ≡ checkpoint t
unfolding checkpoint enter_critical_section
checkpoint-enter t = ground arith

-- The consumer of a runtime takes in the records of the ring buffer.
unfoldable pub consume : List (List ℕ) → Runtime → Runtime
consume [] rt = rt
consume (r ∷ rs) rt = consume rs (record rt { hints = (process_hint r rt.hints).0 })

-- No record of the ring buffer changes the answer of `is_defensive_mode`: it asks the controller of
-- the runtime, which the consumer that detects the gaps does not know.
pub is_defensive_mode-consume :
    (rs : List (List ℕ)) (rt : Runtime)
    → is_defensive_mode (some (consume rs rt)) ≡ is_defensive_mode (some rt)
unfolding consume is_defensive_mode
is_defensive_mode-consume [] rt = refl
is_defensive_mode-consume (r ∷ rs) rt =
    is_defensive_mode-consume rs (record rt { hints = (process_hint r rt.hints).0 })

-- ===== src/Python/Asyncio/EventLoop.antt =====
-- morpheus-py/python/morpheus/asyncio.py: `_MorpheusEventLoop`, the wrapper around an event loop. The
-- inner loop is asyncio's.
use morpheus.Prelude.{◌≡◌, refl, ◌∙◌, Bool, true, false, Option, none, some}
use morpheus.Runtime.Worker.{Thread}
use morpheus.Python.{checkpoint}

-- What the wrapper uses of asyncio: `call_soon` gives a handle to a callback that waits for its turn,
-- `cancel` takes it back, and at its turn a callback waits no longer.
pub record Asyncio : Type 1 where
  pub Loop : Type 0
  pub Handle : Type 0
  pub call_soon : Loop → Loop × Handle
  pub cancel : Handle → Loop → Loop
  pub turn : Handle → Loop → Loop
  pub waiting : Handle → Loop → Bool
  pub call_soon_waits : (l : Loop) → waiting (call_soon l).1 (call_soon l).0 ≡ true
  pub cancel_waits_not : (h : Handle) (l : Loop) → waiting h (cancel h l) ≡ false

module _ (asyncio : Asyncio) where
  pub record EventLoop : Type 0 where
    pub inner : asyncio.Loop
    pub check_handle : Option asyncio.Handle

  unfoldable pub new : asyncio.Loop → EventLoop
  new inner = record { inner = inner; check_handle = none }

  unfoldable pub schedule_check : EventLoop → EventLoop
  schedule_check w =
      let (inner', h) = asyncio.call_soon w.inner in
      record { inner = inner'; check_handle = some h }

  unfoldable pub cancel_check : EventLoop → EventLoop
  cancel_check w = elim w.check_handle [
    | none ↦ w
    | some h ↦ record { inner = asyncio.cancel h w.inner; check_handle = none }
  ]

  -- The answer of the checkpoint is not used.
  unfoldable pub check_and_reschedule : Thread → EventLoop → Bool × EventLoop
  unfolding checkpoint schedule_check
  check_and_reschedule t w = (checkpoint t, schedule_check w)

  -- What comes while the inner loop runs: the turn of the check, on a thread in whatever state, and what
  -- other callbacks do to the loop, who do not have the handle of the check.
  pub data Step (w : EventLoop) : EventLoop → Type 0 where
    checks :
        (t : Thread) {h : asyncio.Handle}
        → w.check_handle ≡ some h
        → Step w (check_and_reschedule t (record w { inner = asyncio.turn h w.inner })).1
    works :
        (l : asyncio.Loop)
        → ((h : asyncio.Handle)
            → w.check_handle ≡ some h
            → asyncio.waiting h l ≡ asyncio.waiting h w.inner)
        → Step w (record w { inner = l })

  pub data Steps (w : EventLoop) : EventLoop → Type 0 where
    here : Steps w w
    next : {u v : EventLoop} → Steps w u → Step u v → Steps w v

  -- The check has a handle, and waits.
  pub record Busy (w : EventLoop) : Type 0 where
    pub handle : asyncio.Handle
    pub held : w.check_handle ≡ some handle
    pub waits : asyncio.waiting handle w.inner ≡ true

  schedule-Busy : (w : EventLoop) → Busy (schedule_check w)
  unfolding schedule_check
  schedule-Busy w = record {
    handle = (asyncio.call_soon w.inner).1;
    held = refl;
    waits = asyncio.call_soon_waits w.inner;
  }

  Step-Busy : {w v : EventLoop} → Step w v → Busy w → Busy v
  unfolding check_and_reschedule
  Step-Busy {w} (checks t {h} held) b = schedule-Busy (record w { inner = asyncio.turn h w.inner })
  Step-Busy (works l keeps) b = record {
    handle = b.handle;
    held = b.held;
    waits = keeps b.handle b.held ∙ b.waits;
  }

  pub Steps-Busy : (w : EventLoop) {v : EventLoop} → Steps (schedule_check w) v → Busy v
  Steps-Busy w here = schedule-Busy w
  Steps-Busy w (next r s) = Step-Busy s (Steps-Busy w r)

  cancel-idle :
      (w : EventLoop) (b : Busy w)
      → ((cancel_check w).check_handle ≡ none)
        × (asyncio.waiting b.handle (cancel_check w).inner ≡ false)
  unfolding cancel_check
  cancel-idle w b = rw b.held (refl, asyncio.cancel_waits_not b.handle w.inner)

  -- The loop is never idle. From the scheduling with which a run begins, whatever turns of the check and
  -- whatever work of others come: there is always a callback of the wrapper that waits, so that the inner
  -- loop never waits for its events; the cancelling with which the run ends takes it back, and leaves the
  -- wrapper with no handle.
  pub run-Busy :
      (w : EventLoop) {v : EventLoop}
      → Steps (schedule_check w) v
      → (b : Busy v) × ((cancel_check v).check_handle ≡ none)
        × (asyncio.waiting b.handle (cancel_check v).inner ≡ false)
  run-Busy w {v} r = let b = Steps-Busy w r in let (gone, idle) = cancel-idle v b in (b, gone, idle)

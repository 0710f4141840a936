-- ===== src/Runtime/Executor/Yield.antt =====
-- morpheus-runtime/src/executor.rs: the future `YieldNow` and the executor of the thread, with the
-- macro `checkpoint!` of morpheus-runtime/src/lib.rs. A future is a function of its state to what a
-- poll returns and the state that it leaves; the waker of a poll is the number of its wakes.
use morpheus.Prelude.{
  ℕ, zero, suc, ◌+◌, ◌<◌, ◌≤◌, ◌≡◌, refl, ap, ◌∙◌, Bool, true, false, if◌then◌else◌, Option, none,
  some, List, [], ◌∷◌, arith,
}
use morpheus.Runtime.Worker.{Thread, try_current_scb, checkpoint_sync}
use morpheus.Runtime.ScbHandle

pub data Poll : Type 0 where
  pending : Poll
  ready : Poll

pub record YieldNow : Type 0 where
  pub yielded : Bool

unfoldable pub yield_now : YieldNow
yield_now = record { yielded = false }

unfoldable pub poll : YieldNow → ℕ → Poll × YieldNow × ℕ
poll y wakes =
    if y.yielded then (ready, y, wakes) else (pending, record { yielded = true }, wakes + 1)

-- What `checkpoint!` awaits.
unfoldable pub checkpoint : Thread → Option YieldNow
unfolding ScbHandle.yield_requested
checkpoint t = elim (try_current_scb t) [
  | none ↦ none
  | some h ↦ if ScbHandle.yield_requested t.scb then some yield_now else none
]

-- An asynchronous function with checkpoints: the yield that it waits for, the states of the thread
-- at the checkpoints ahead, and how often it has woken itself.
pub record Task : Type 0 where
  pub awaiting : Option YieldNow
  pub ahead : List Thread
  pub wakes : ℕ

-- From one await to the next one that is pending.
unfoldable pub advance : List Thread → ℕ → Poll × Task
advance [] wakes = (ready, record { awaiting = none; ahead = []; wakes = wakes })
advance (t ∷ ts) wakes = elim (checkpoint t) [
  | none ↦ advance ts wakes
  | some y ↦
      let (p, y', wakes') = poll y wakes in
      elim p [
        | pending ↦ (pending, record { awaiting = some y'; ahead = ts; wakes = wakes' })
        | ready ↦ advance ts wakes'
      ]
]

unfoldable pub poll_task : Task → Poll × Task
poll_task task = elim task.awaiting [
  | none ↦ advance task.ahead task.wakes
  | some y ↦
      let (p, y', wakes') = poll y task.wakes in
      elim p [
        | pending ↦ (pending, record task { awaiting = some y'; wakes = wakes' })
        | ready ↦ advance task.ahead wakes'
      ]
]

-- At most so many polls of a task.
unfoldable pub drive : ℕ → Task → Poll × Task
drive zero task = (pending, task)
drive (suc n) task =
    let (p, task') = poll_task task in elim p [ pending ↦ drive n task' | ready ↦ (ready, task') ]

abbrev pub start : List Thread → Task
start ts = record { awaiting = none; ahead = ts; wakes = 0 }

-- The checkpoints at which a request is pending.
abbrev pub requests : List Thread → ℕ
requests [] = 0
requests (t ∷ ts) = let rest = requests ts in if checkpoint_sync t then suc rest else rest

-- `CURRENT_EXECUTOR` of the threads.
unfoldable pub set_current_executor : {E : Type 0} → E → Option E → Option E
set_current_executor executor e = some executor

unfoldable pub current_executor : {E : Type 0} → Option E → Option E
current_executor e = e

abbrev after : ℕ → Poll × Task → Poll × Task
after n r = elim r.0 [ pending ↦ drive n r.1 | ready ↦ (ready, r.1) ]

drive-suc : (n : ℕ) (task : Task) → drive (suc n) task ≡ after n (poll_task task)
unfolding drive
drive-suc n task = refl

checkpoint-checkpoint_sync :
    (t : Thread) → checkpoint t ≡ (if checkpoint_sync t then some yield_now else none)
unfolding checkpoint checkpoint_sync
checkpoint-checkpoint_sync t = ground arith

-- A task that has yielded goes on with what is ahead.
abbrev pub waiting : List Thread → ℕ → Task
waiting ts wakes = record { awaiting = some (record { yielded = true }); ahead = ts; wakes = wakes }

pub poll_task-waiting :
    (ts : List Thread) (wakes : ℕ) → poll_task (waiting ts wakes) ≡ advance ts wakes
unfolding poll_task poll
poll_task-waiting ts wakes = refl

pub advance-∷ :
    (t : Thread) (ts : List Thread) (wakes : ℕ)
    → advance (t ∷ ts) wakes
      ≡ (if checkpoint_sync t then (pending, waiting ts (wakes + 1)) else advance ts wakes)
unfolding advance poll yield_now
advance-∷ t ts wakes = rw (checkpoint-checkpoint_sync t, advance) (ground arith)

-- A task that is through, with so many wakes.
abbrev pub finished : ℕ → Task
finished wakes = record { awaiting = none; ahead = []; wakes = wakes }

abbrev pub through : ℕ → Poll × Task
through wakes = (ready, finished wakes)

after-advance :
    (ts : List Thread) (wakes : ℕ)
    → after (requests ts) (advance ts wakes) ≡ through (wakes + requests ts)
unfolding advance
after-advance [] wakes = ap through (omega arith)
after-advance (t ∷ ts) wakes =
    rw (advance-∷ t ts wakes) (next (after-advance ts) (checkpoint_sync t))
  where
    next :
        ((w : ℕ) → after (requests ts) (advance ts w) ≡ through (w + requests ts))
        → (b : Bool)
        → after
            (if b then suc (requests ts) else requests ts)
            (if b then (pending, waiting ts (wakes + 1)) else advance ts wakes)
          ≡ through (wakes + (if b then suc (requests ts) else requests ts))
    next rest false = rest wakes
    next rest true =
        drive-suc (requests ts) (waiting ts (wakes + 1))
        ∙ ap (after (requests ts)) (poll_task-waiting ts (wakes + 1))
        ∙ rest (wakes + 1)
        ∙ ap through (omega arith)

after_few :
    (n : ℕ) (ts : List Thread) (wakes : ℕ)
    → n < requests ts
    → (after n (advance ts wakes)).0 ≡ pending
unfolding drive
after_few n [] wakes h = absurd (omega arith)
after_few n (t ∷ ts) wakes h =
    rw (advance-∷ t ts wakes) (next (λ m. after_few m ts) n (checkpoint_sync t) h)
  where
    next :
        ((m w : ℕ) → m < requests ts → (after m (advance ts w)).0 ≡ pending)
        → (n : ℕ) (b : Bool) → n < (if b then suc (requests ts) else requests ts)
        → (after n (if b then (pending, waiting ts (wakes + 1)) else advance ts wakes)).0 ≡ pending
    next rest n false h = rest n wakes h
    next rest zero true h = refl
    next rest (suc n) true h =
        ap (λ r. r.0)
          (drive-suc n (waiting ts (wakes + 1)) ∙ ap (after n) (poll_task-waiting ts (wakes + 1)))
        ∙ rest n (wakes + 1) (omega arith)

-- A task ends: after one poll more than there are checkpoints with a request pending, and not after
-- fewer polls. It has woken itself once for every such checkpoint, so that none of its polls waits for
-- somebody else.
pub drive-requests :
    (ts : List Thread)
    → (drive (suc (requests ts)) (start ts) ≡ through (requests ts))
      × ((n : ℕ) → n ≤ requests ts → (drive n (start ts)).0 ≡ pending)
unfolding drive poll_task
drive-requests ts = (all, few)
  where
    begin : (n : ℕ) → drive (suc n) (start ts) ≡ after n (advance ts 0)
    begin n = refl

    all : drive (suc (requests ts)) (start ts) ≡ through (requests ts)
    all = begin (requests ts) ∙ after-advance ts 0 ∙ ap through (omega arith)

    few : (n : ℕ) → n ≤ requests ts → (drive n (start ts)).0 ≡ pending
    few zero h = refl
    few (suc n) h = ap (λ r. r.0) (begin n) ∙ after_few n ts 0 (omega arith)

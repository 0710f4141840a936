-- ===== src/Tokio.antt =====
-- morpheus-tokio/src/lib.rs: the integration with Tokio. Futures and timers are not part of the
-- repository: a future is a state with a poll, and the timer only has a state.
use morpheus.Prelude.{
  ℕ, zero, suc, Bool-cases, ◌⊎◌, inl, inr, ◌+◌, ◌*◌, ◌≡◌, refl, Bool, true, false, List, [], ◌∷◌,
  if◌then◌else◌, arith,
}
use morpheus.Runtime.Worker.{Thread, checkpoint_sync}

pub data Poll {ℓ} (A : Type ℓ) : Type ℓ where
  ready : A → Poll A
  pending : Poll A

-- At how many of the states no request is pending, and at how many one is.
abbrev pub idle : List Thread → ℕ
idle [] = 0
idle (t ∷ ts) = (if checkpoint_sync t then 0 else 1) + idle ts

abbrev pub requested : List Thread → ℕ
requested [] = 0
requested (t ∷ ts) = (if checkpoint_sync t then 1 else 0) + requested ts

counts-asked :
    (t : Thread) (ts : List Thread)
    → checkpoint_sync t ≡ true
    → (idle (t ∷ ts) ≡ idle ts) × (requested (t ∷ ts) ≡ suc (requested ts))
counts-asked t ts h = ground (arith, h)

counts-calm :
    (t : Thread) (ts : List Thread)
    → checkpoint_sync t ≡ false
    → (idle (t ∷ ts) ≡ suc (idle ts)) × (requested (t ∷ ts) ≡ requested ts)
counts-calm t ts h = ground (arith, h)

Poll-cases : {A : Type 0} (p : Poll A) → (p ≡ pending) ⊎ ((a : A) × (p ≡ ready a))
Poll-cases (ready a) = inr (a, refl)
Poll-cases pending = inl refl

-- `yield_if_requested` and the macro `checkpoint!`: whether they yield to Tokio.
unfoldable pub yield_if_requested : Thread → Bool
unfolding checkpoint_sync
yield_if_requested t = if checkpoint_sync t then true else false

module _ {F I T : Type 0} (poll : F → F × Poll T) (poll_tick : I → I) where
  -- The state of the closure that `poll_fn` polls; `woken` counts the wake-ups of its own.
  pub record Wrapped : Type 0 where
    pub future : F
    pub interval : I
    pub woken : ℕ

  -- One poll of `with_checkpoints`.
  unfoldable pub poll_wrapped : Thread → Wrapped → Wrapped × Poll T
  poll_wrapped t w =
      if checkpoint_sync t
      then (record w { woken = suc w.woken }, pending)
      else let (future', r) = poll w.future in
        (record w { future = future'; interval = poll_tick w.interval }, r)

  -- The executor polls again after an answer that is pending.
  unfoldable after_poll : Poll T → Wrapped → Wrapped × Poll T → Wrapped × Poll T
  after_poll (ready a) w rest = (w, ready a)
  after_poll pending w rest = rest

  -- The polls at the states that the thread is in at those times; the answer of the last one.
  unfoldable pub poll_all : List Thread → Wrapped → Wrapped × Poll T
  unfolding after_poll
  poll_all [] w = (w, pending)
  poll_all (t ∷ ts) w = let p = poll_wrapped t w in after_poll p.1 p.0 (poll_all ts p.0)

  poll_wrapped_requested :
      (t : Thread) (w : Wrapped)
      → checkpoint_sync t ≡ true
      → poll_wrapped t w ≡ (record w { woken = suc w.woken }, pending)
  unfolding poll_wrapped
  poll_wrapped_requested t w h = rw (h, poll_wrapped) refl

  -- Once no request is pending, a poll is one poll of the inner future and one of the timer.
  poll_wrapped_idle :
      (t : Thread) (w : Wrapped)
      → checkpoint_sync t ≡ false
      → poll_wrapped t w ≡ (
        record w { future = (poll w.future).0; interval = poll_tick w.interval },
        (poll w.future).1,
      )
  unfolding poll_wrapped
  poll_wrapped_idle t w h = rw (h, poll_wrapped) refl

  -- The inner future by itself, polled so often at most, up to its result.
  abbrev alone_after : F × Poll T → F × Poll T → F × Poll T
  alone_after (f, ready a) rest = (f, ready a)
  alone_after (f, pending) rest = rest

  abbrev pub alone : ℕ → F → F × Poll T
  alone zero f = (f, pending)
  alone (suc n) f = alone_after (poll f) (alone n (poll f).0)

  -- How many polls that takes.
  abbrev polls_after : Poll T → ℕ → ℕ
  polls_after (ready a) n = 0
  polls_after pending n = n

  abbrev pub polls : ℕ → F → ℕ
  polls zero f = 0
  polls (suc n) f = suc (polls_after (poll f).1 (polls n (poll f).0))

  abbrev pub tick_times : ℕ → I → I
  tick_times zero i = i
  tick_times (suc n) i = tick_times n (poll_tick i)

  -- What a future with checkpoints has come to, with its answer, after so many polls with no request and
  -- so many with one.
  pub record Delayed (free asked : ℕ) (w : Wrapped) (r : Wrapped × Poll T) : Type 0 where
    pub answer : r.1 ≡ (alone free w.future).1
    pub inner : r.0.future ≡ (alone free w.future).0
    pub timer : r.0.interval ≡ tick_times (polls free w.future) w.interval
    pub wakes : r.1 ≡ pending → r.0.woken ≡ asked + w.woken

  -- The wrapper after a poll of the inner future.
  abbrev polled : Wrapped → Wrapped
  polled w = record w { future = (poll w.future).0; interval = poll_tick w.interval }

  poll_all-asked :
      (t : Thread) (ts : List Thread) (w : Wrapped)
      → checkpoint_sync t ≡ true
      → poll_all (t ∷ ts) w ≡ poll_all ts (record w { woken = suc w.woken })
  unfolding poll_all after_poll
  poll_all-asked t ts w h = rw (poll_wrapped_requested t w h) refl

  poll_all-waits :
      (t : Thread) (ts : List Thread) (w : Wrapped)
      → checkpoint_sync t ≡ false
      → (poll w.future).1 ≡ pending
      → poll_all (t ∷ ts) w ≡ poll_all ts (polled w)
  unfolding poll_all after_poll
  poll_all-waits t ts w h e = rw (poll_wrapped_idle t w h, e) refl

  poll_all-ready :
      (t : Thread) (ts : List Thread) (w : Wrapped) (a : T)
      → checkpoint_sync t ≡ false
      → (poll w.future).1 ≡ ready a
      → poll_all (t ∷ ts) w ≡ (polled w, ready a)
  unfolding poll_all after_poll
  poll_all-ready t ts w a h e = rw (poll_wrapped_idle t w h, e) refl

  asked-Delayed :
      (n m : ℕ) (w : Wrapped) (r : Wrapped × Poll T)
      → Delayed n m (record w { woken = suc w.woken }) r
      → Delayed n (suc m) w r
  asked-Delayed n m w r d = record {
    answer = d.answer;
    inner = d.inner;
    timer = d.timer;
    wakes = λ e. omega (arith, d.wakes e);
  }

  waits-Delayed :
      (n m : ℕ) (w : Wrapped) (r : Wrapped × Poll T)
      → (poll w.future).1 ≡ pending
      → Delayed n m (polled w) r
      → Delayed (suc n) m w r
  waits-Delayed n m w r e d = record {
    answer = rw e d.answer;
    inner = rw e d.inner;
    timer = rw e d.timer;
    wakes = d.wakes;
  }

  ready-Delayed :
      (n m : ℕ) (w : Wrapped) (a : T)
      → (poll w.future).1 ≡ ready a
      → Delayed (suc n) m w (polled w, ready a)
  ready-Delayed n m w a e = record {
    answer = rw e refl;
    inner = rw e refl;
    timer = rw e refl;
    wakes = λ none. cc;
  }

  -- The checkpoints delay a future, and change nothing else. Whatever requests come and go between the
  -- polls of a future with checkpoints, and whatever the future is: after the polls its answer and its
  -- state are those of the inner future by itself, polled as often as there was no request at a poll, or
  -- up to its result if that comes before; the timer was asked once for each poll of the inner future;
  -- and if there is no result yet, the task has woken itself once for each poll at which there was a
  -- request.
  pub poll_all-Delayed :
      (ts : List Thread) (w : Wrapped) → Delayed (idle ts) (requested ts) w (poll_all ts w)
  unfolding poll_all
  poll_all-Delayed [] w = record {
    answer = refl;
    inner = refl;
    timer = refl;
    wakes = λ e. omega arith;
  }
  poll_all-Delayed (t ∷ ts) w = elim (Bool-cases (checkpoint_sync t)) [
    | inl asked ↦
        let counts = counts-asked t ts asked in
        let w' = record w { woken = suc w.woken } in
        rw (counts.0, counts.1, poll_all-asked t ts w asked)
          (asked-Delayed (idle ts) (requested ts) w (poll_all ts w') (poll_all-Delayed ts w'))
    | inr calm ↦
        let counts = counts-calm t ts calm in
        elim (Poll-cases (poll w.future).1) [
          | inl waits ↦
              rw (counts.0, counts.1, poll_all-waits t ts w calm waits)
                (waits-Delayed (idle ts) (requested ts) w (poll_all ts (polled w)) waits
                  (poll_all-Delayed ts (polled w)))
          | inr (a, done) ↦
              rw (counts.0, counts.1, poll_all-ready t ts w a calm done)
                (ready-Delayed (idle ts) (requested ts) w a done)
        ]
  ]

-- The builder; its interval is in milliseconds.
pub record MorpheusTokioBuilder : Type 0 where
  pub escapable : Bool
  pub check_interval_ms : ℕ

unfoldable pub default : MorpheusTokioBuilder
default = record { escapable = true; check_interval_ms = 1 }

unfoldable pub new : MorpheusTokioBuilder
unfolding default
new = default

unfoldable pub set_escapable : Bool → MorpheusTokioBuilder → MorpheusTokioBuilder
set_escapable e b = record b { escapable = e }

unfoldable pub set_check_interval_ms : ℕ → MorpheusTokioBuilder → MorpheusTokioBuilder
set_check_interval_ms ms b = record b { check_interval_ms = ms }

unfoldable pub is_escapable : MorpheusTokioBuilder → Bool
is_escapable b = b.escapable

-- A duration in nanoseconds.
unfoldable pub get_check_interval : MorpheusTokioBuilder → ℕ
get_check_interval b = b.check_interval_ms * 1_000_000

-- ===== src/Runtime/ScbHandle/Race.antt =====
-- `acknowledge` an atomic access at a time: any number of threads that share the handle load, load
-- and compare-exchange, while the kernel raises `preempt_seq` in between.
use morpheus.Prelude.{true, false, ℕ, ◌+◌, ◌^◌, ◌≤◌, ◌<◌, ◌≡◌, Bool, arith, update}
use morpheus.Common.Scb.{MorpheusScb}
use morpheus.Runtime.ScbHandle.{acknowledge_from}
use morpheus.Kernel.Tick.{raise_seq}

-- Where a thread stands in `acknowledge`, with its local variables.
pub data Pc : Type 0 where
  idle : Pc
  loaded_target : (target : ℕ) → Pc
  loaded_both : (target current : ℕ) → Pc
  returned : (target : ℕ) (result : Bool) → Pc

pub record System : Type 0 where
  pub scb : MorpheusScb
  pub pc : ℕ → Pc

-- One access of one thread to the block.
pub data Move (m : MorpheusScb) : Pc → MorpheusScb → Pc → Type 0 where
  load_preempt : Move m idle m (loaded_target m.preempt_seq)
  load_ack : {t : ℕ} → Move m (loaded_target t) m (loaded_both t m.last_ack_seq)
  finish :
      {t c : ℕ}
      → Move m (loaded_both t c) (acknowledge_from t c m).0 (returned t (acknowledge_from t c m).1)
  again : {t : ℕ} {b : Bool} → Move m (returned t b) m idle

-- A request is the kernel's `__sync_add_and_fetch`.
pub data Step (s : System) : System → Type 0 where
  request : Step s (record s { scb = raise_seq s.scb })
  thread :
      (i : ℕ) {m : MorpheusScb} {p : Pc}
      → Move s.scb (s.pc i) m p
      → Step s (record { scb = m; pc = update s.pc i p })

pub data Steps (s : System) : System → Type 0 where
  here : Steps s s
  next : {t u : System} → Steps s t → Step t u → Steps s u

-- The number of requests fits its word after every request.
abbrev pub StepFits : {s t : System} → Step s t → Type 0
StepFits {s} request = s.scb.preempt_seq + 1 < 2 ^ 64
StepFits (thread i m) = Unit

abbrev pub Fits : {s t : System} → Steps s t → Type 0
Fits here = Unit
Fits (next r st) = Fits r × StepFits st

-- What the locals of a thread say about the block.
abbrev pub Knows : MorpheusScb → Pc → Type 0
Knows m idle = Unit
Knows m (loaded_target t) = t ≤ m.preempt_seq
Knows m (loaded_both t c) = (t ≤ m.preempt_seq) × (c ≤ m.last_ack_seq)
Knows m (returned t true) = t ≤ m.last_ack_seq
Knows m (returned t false) = Unit

pub record Inv (s : System) : Type 0 where
  pub acked : s.scb.last_ack_seq ≤ s.scb.preempt_seq
  pub knows : (i : ℕ) → Knows s.scb (s.pc i)

Knows-mono :
    (m n : MorpheusScb) (p : Pc)
    → m.preempt_seq ≤ n.preempt_seq
    → m.last_ack_seq ≤ n.last_ack_seq
    → Knows m p
    → Knows n p
Knows-mono m n idle le ack k = tt
Knows-mono m n (loaded_target t) le ack k = omega arith
Knows-mono m n (loaded_both t c) le ack k = (omega arith, omega arith)
Knows-mono m n (returned t true) le ack k = omega arith
Knows-mono m n (returned t false) le ack k = tt

record Moved (m m' : MorpheusScb) (p' : Pc) : Type 0 where
  same : m'.preempt_seq ≡ m.preempt_seq
  acked : m'.last_ack_seq ≤ m'.preempt_seq
  grows : m.last_ack_seq ≤ m'.last_ack_seq
  knows : Knows m' p'

Move-Moved :
    {m m' : MorpheusScb} {p p' : Pc}
    → Move m p m' p'
    → Knows m p
    → m.last_ack_seq ≤ m.preempt_seq
    → Moved m m' p'
unfolding acknowledge_from
Move-Moved load_preempt k a = ground arith
Move-Moved load_ack k a = ground arith
Move-Moved finish k a = ground arith
Move-Moved again k a = ground arith

module _ {s : System} (v : Inv s) where
  open s use {scb, pc}

  Step-grows :
      {t : System} (st : Step s t)
      → StepFits st
      → (scb.last_ack_seq ≤ t.scb.last_ack_seq) × (scb.preempt_seq ≤ t.scb.preempt_seq)
  Step-grows request small = omega arith
  Step-grows (thread i mv) small = ground (arith, Move-Moved mv (v.knows i) v.acked)

  thread-Knows :
      (i : ℕ) {m : MorpheusScb} {p : Pc} → Moved scb m p → (j : ℕ) → Knows m (update pc i p j)
  thread-Knows i {m} mv j =
      ground
        (arith, mv.knows, Knows-mono scb m (pc j) (omega (arith, mv.same)) mv.grows (v.knows j))

  Step-Inv : {t : System} (st : Step s t) → StepFits st → Inv t
  Step-Inv request small = record {
    acked = omega (arith, v.acked);
    knows = λ i. Knows-mono scb (raise_seq scb) (pc i) (omega arith) (omega arith) (v.knows i);
  }
  Step-Inv (thread i mv) small =
      let moved = Move-Moved mv (v.knows i) v.acked in
      record { acked = moved.acked; knows = thread-Knows i moved }

-- Any number of threads may acknowledge at once, interleaved with requests of the kernel, of which none
-- takes `preempt_seq` to 2^64. If at the start `last_ack_seq` is at most `preempt_seq`, every number that
-- a thread has loaded is at most the counter that it came from, and what was acknowledged with success
-- is at most `last_ack_seq`, then all of this holds after every such run: a call that returned true stays
-- acknowledged. And neither counter has become smaller.
pub Steps-ordered :
    {s t : System}
    → Inv s
    → (r : Steps s t) → Fits r
    → Inv t × (s.scb.last_ack_seq ≤ t.scb.last_ack_seq) × (s.scb.preempt_seq ≤ t.scb.preempt_seq)
Steps-ordered v here fits = (v, omega arith, omega arith)
Steps-ordered v (next r st) fits =
    let (w, a, p) = Steps-ordered v r fits.0 in
    let (a', p') = Step-grows w st fits.1 in (Step-Inv w st fits.1, omega arith, omega arith)

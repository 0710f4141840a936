-- ===== src/System/Hints.antt =====
-- The hints of one worker, from its ticks to the consumer that reads the ring buffer in order.
pub mod Reader
use morpheus.Prelude.{
  ℕ, ◌+◌, ◌^◌, ◌<◌, ◌≡◌, ◌∙◌, sym, subst, Bool, true, some, List, [], ◌∷◌, ltb, length, arith, inl,
  inr, Bool-cases,
}
use morpheus.Runtime.HintConsumer.{is_defensive}
use morpheus.Kernel.State.{Kernel, Env, TaskCtx, grace_of}
use morpheus.Kernel.Tick.{tick}
use morpheus.Kernel.Signals.{tick-signals, wants_yield, hint_of, Signalled}
use morpheus.Kernel.Drops.{drops, tick-drops}
pub use morpheus.System.Hints.Reader.{consume_all, lost, trailing}
use morpheus.System.Hints.Reader.{Seen, lost-le, Seen-first, Seen-hint, Seen-lost}

-- A run of the system, seen from one worker: its ticks that ask for a yield, with whether each of
-- them found room (the last one first), and between them whatever leaves its number, the buffer and
-- the counter of drops alone. It starts with a tick that finds room in an empty buffer.
pub data Ticks (worker_id : ℕ) (k : Kernel) : List Bool → Kernel → Type 0 where
  first :
      (env : Env) (pid : ℕ) (c : TaskCtx)
      → k.task_ctx_map pid ≡ some c
      → c.worker_id ≡ worker_id
      → wants_yield env c k ≡ true
      → env.hint_room ≡ true
      → Ticks worker_id k (true ∷ []) (tick env pid k)
  next :
      {rooms : List Bool} {l : Kernel} (env : Env) (pid : ℕ) (c : TaskCtx)
      → Ticks worker_id k rooms l
      → l.task_ctx_map pid ≡ some c
      → c.worker_id ≡ worker_id
      → wants_yield env c l ≡ true
      → Ticks worker_id k (env.hint_room ∷ rooms) (tick env pid l)
  meanwhile :
      {rooms : List Bool} {l m : Kernel}
      → Ticks worker_id k rooms l
      → (m.scb_map worker_id).preempt_seq ≡ (l.scb_map worker_id).preempt_seq
      → m.hint_ringbuf ≡ l.hint_ringbuf
      → drops m ≡ drops l
      → Ticks worker_id k rooms m

-- What a run has left in the kernel and at the consumer.
record Delivered (s worker_id : ℕ) (rooms : List Bool) (l : Kernel) : Type 0 where
  seen : Seen s rooms (l.scb_map worker_id).preempt_seq (consume_all l.hint_ringbuf)
  counted : drops l ≡ some (lost rooms)

pub tick-hints :
    (env : Env) (pid : ℕ) (l : Kernel) (c : TaskCtx)
    → l.task_ctx_map pid ≡ some c
    → wants_yield env c l ≡ true
    → Signalled env pid c.worker_id l (tick env pid l)
tick-hints env pid l c e w = elim (tick-signals env pid l c e) [
  | inl (yes_it_does, s) ↦ s
  | inr (n, same) ↦ absurd (cc (n, w))
]

first-Delivered :
    (env : Env) (pid : ℕ) (c : TaskCtx) (k : Kernel)
    → k.task_ctx_map pid ≡ some c
    → wants_yield env c k ≡ true
    → env.hint_room ≡ true
    → k.hint_ringbuf ≡ []
    → drops k ≡ some 0
    → (k.scb_map c.worker_id).preempt_seq + 1 < 2 ^ 64
    → Delivered (k.scb_map c.worker_id).preempt_seq c.worker_id (true ∷ []) (tick env pid k)
unfolding consume_all
first-Delivered env pid c k e w room empty fresh fits =
    let s = (k.scb_map c.worker_id).preempt_seq in
    let sig = tick-hints env pid k c e w in
    let h = hint_of env pid (k.scb_map c.worker_id) (grace_of k) in
    let seq_now : ((tick env pid k).scb_map c.worker_id).preempt_seq ≡ s + 1 =
      ground (arith, sig.scbs) in
    let ring : (tick env pid k).hint_ringbuf ≡ h ∷ [] = ground (arith, sig.hints, room, empty) in
    record {
      seen = rw (seq_now, ring) (Seen-first s h fits (omega arith));
      counted = ground (arith, tick-drops env pid k c e w, fresh, room);
    }

next-Delivered :
    (s : ℕ) (rooms : List Bool) (env : Env) (pid : ℕ) (c : TaskCtx) (l : Kernel)
    → l.task_ctx_map pid ≡ some c
    → wants_yield env c l ≡ true
    → s + length rooms + 1 < 2 ^ 64
    → Delivered s c.worker_id rooms l
    → Delivered s c.worker_id (env.hint_room ∷ rooms) (tick env pid l)
unfolding consume_all
next-Delivered s rooms env pid c l e w fits v =
    let seq = (l.scb_map c.worker_id).preempt_seq in
    let sig = tick-hints env pid l c e w in
    let h = hint_of env pid (l.scb_map c.worker_id) (grace_of l) in
    let number = v.seen.number in
    let seq_now : ((tick env pid l).scb_map c.worker_id).preempt_seq ≡ seq + 1 =
      ground (arith, sig.scbs, number) in
    let counted = tick-drops env pid l c e w in
    let le = lost-le rooms in
    elim (Bool-cases env.hint_room) [
      | inl room ↦
          let ring : (tick env pid l).hint_ringbuf ≡ h ∷ l.hint_ringbuf =
            ground (arith, sig.hints, room) in
          subst (λ b. Delivered s c.worker_id (b ∷ rooms) (tick env pid l)) (sym room)
            (record {
              seen =
                  rw (seq_now, ring)
                    (Seen-hint s rooms seq (consume_all l.hint_ringbuf) h v.seen (omega arith)
                      (omega arith));
              counted = ground (arith, counted, v.counted, room);
            })
      | inr full ↦
          let ring : (tick env pid l).hint_ringbuf ≡ l.hint_ringbuf =
            ground (arith, sig.hints, full) in
          subst (λ b. Delivered s c.worker_id (b ∷ rooms) (tick env pid l)) (sym full)
            (record {
              seen = rw (seq_now, ring) (Seen-lost s rooms seq (consume_all l.hint_ringbuf) v.seen);
              counted = ground (arith, counted, v.counted, full, number, le);
            })
    ]

meanwhile-Delivered :
    (s worker_id : ℕ) (rooms : List Bool) (l m : Kernel)
    → (m.scb_map worker_id).preempt_seq ≡ (l.scb_map worker_id).preempt_seq
    → m.hint_ringbuf ≡ l.hint_ringbuf
    → drops m ≡ drops l
    → Delivered s worker_id rooms l
    → Delivered s worker_id rooms m
meanwhile-Delivered s worker_id rooms l m same ring counted v = record {
  seen = rw (same, ring) v.seen;
  counted = counted ∙ v.counted;
}

Ticks-Delivered :
    {worker_id : ℕ} {k : Kernel} {rooms : List Bool} {l : Kernel}
    → Ticks worker_id k rooms l
    → k.hint_ringbuf ≡ []
    → drops k ≡ some 0
    → (k.scb_map worker_id).preempt_seq + length rooms < 2 ^ 64
    → Delivered (k.scb_map worker_id).preempt_seq worker_id rooms l
Ticks-Delivered {worker_id} {k} (first env pid c e own w room) empty fresh fits =
    subst (λ i. Delivered (k.scb_map i).preempt_seq i (true ∷ []) (tick env pid k)) own
      (first-Delivered env pid c k e w room empty fresh (rw own (omega arith)))
Ticks-Delivered {worker_id} {k} (next {rooms} {l} env pid c r e own w) empty fresh fits =
    let s = (k.scb_map worker_id).preempt_seq in
    let v = Ticks-Delivered r empty fresh (omega arith) in
    subst (λ i. Delivered s i (env.hint_room ∷ rooms) (tick env pid l)) own
      (next-Delivered s rooms env pid c l e w (omega arith)
        (subst (λ i. Delivered s i rooms l) (sym own) v))
Ticks-Delivered {worker_id} {k} (meanwhile {rooms} {l} {m} r same ring counted) empty fresh fits =
    meanwhile-Delivered (k.scb_map worker_id).preempt_seq worker_id rooms l m same ring counted
      (Ticks-Delivered r empty fresh fits)

-- The loss of hints, counted on both sides. A run of any length in which one worker is asked to
-- yield, its first hint finding room in an empty buffer and no counter leaving 64 bits: the kernel
-- has counted as dropped exactly the hints that found no room. A fresh consumer that then reads the
-- buffer in order has counted the same number, but for those lost since the last hint that it got;
-- it has received all others; and it is in defensive mode exactly if it has counted a loss.
pub consumer_counts_losses :
    {worker_id : ℕ} {k : Kernel} {rooms : List Bool} {l : Kernel}
    → Ticks worker_id k rooms l
    → k.hint_ringbuf ≡ []
    → drops k ≡ some 0
    → (k.scb_map worker_id).preempt_seq + length rooms < 2 ^ 64
    → let c = consume_all l.hint_ringbuf in
      (drops l ≡ some (lost rooms))
      × (c.hints_dropped + trailing rooms ≡ lost rooms)
      × (c.hints_received + lost rooms ≡ length rooms)
      × (is_defensive c ≡ ltb 0 c.hints_dropped)
consumer_counts_losses r empty fresh fits =
    let v = Ticks-Delivered r empty fresh fits in
    (v.counted, v.seen.count, v.seen.received, v.seen.defensive)

-- ===== src/System/Handshake.antt =====
-- A request of the kernel and the answer of the executor of that worker.
use morpheus.Prelude.{
  ℕ, ◌+◌, ◌^◌, ◌<◌, ◌≤◌, ◌≡◌, refl, ◌∙◌, ap, sym, subst, Bool, true, false, Option, none, some,
  List, [], ◌∷◌, ◌++◌, max, arith,
}
use morpheus.Common.Scb.{MorpheusScb}
use morpheus.Runtime.ScbHandle.{ScbHandle}
use morpheus.Runtime.Worker.{checkpoint_sync}
use morpheus.Runtime.Critical.{in_critical_section}
use morpheus.Runtime.Executor.Deque.{Deque, Taken}
use morpheus.Runtime.Executor.Defs.{
  LocalExecutor, should_yield, acknowledge_yield, run_task, run_found, from_queue, find_task,
}
use morpheus.Runtime.Executor.Defs as Executor
use morpheus.Kernel.State.{Kernel, Env, TaskCtx}
use morpheus.Kernel.Tick.{tick}
use morpheus.Kernel.Signals.{wants_yield}
use morpheus.System.Hints.{tick-hints}

-- The first of some tasks and one more.
abbrev pub head_of {ℓ} : {R : Type ℓ} → List R → R → R
head_of [] r = r
head_of (x ∷ xs) r = x

-- An executor on a worker thread that is in no critical section, with no defensive yields to make.
pub record Ready {R : Type 0} (d : Deque R) (e : LocalExecutor d) : Type 0 where
  pub handle : ScbHandle
  pub attached : e.thread.current_scb ≡ some handle
  pub calm : e.thread.critical_depth ≡ 0
  pub inactive : e.defensive.active ≡ false

module _ {R : Type 0} (d : Deque R) where
  open d use {Queue, to_list}

  -- The task is found and the request is obeyed.
  record Yielded (r : R) (q : Queue) (e : LocalExecutor d) (t : LocalExecutor d × Option R × Bool)
      : Type 0 where
    ran : t.1 ≡ none
    queue : t.0.queue ≡ d.push q r
    scb : t.0.thread.scb ≡ record e.thread.scb {
      last_ack_seq = max e.thread.scb.preempt_seq e.thread.scb.last_ack_seq;
    }
    current : t.0.thread.current_scb ≡ e.thread.current_scb
    depth : t.0.thread.critical_depth ≡ e.thread.critical_depth
    active : t.0.defensive.active ≡ e.defensive.active

  found-Yielded :
      (r : R) (q : Queue) (e : LocalExecutor d)
      → Ready d e
      → checkpoint_sync e.thread ≡ true
      → Yielded r q e (run_found d (from_queue d (some r, q) e))
  unfolding run_found from_queue run_task should_yield checkpoint_sync acknowledge_yield
      in_critical_section
  found-Yielded r q e ready asked = record {
    ran = ground (arith, ready.attached, ready.calm, ready.inactive, asked);
    queue = ground (arith, ready.attached, ready.calm, ready.inactive, asked);
    scb = ground (arith, ready.attached, ready.calm, ready.inactive, asked);
    current = ground (arith, ready.attached, ready.calm, ready.inactive, asked);
    depth = ground (arith, ready.attached, ready.calm, ready.inactive, asked);
    active = ground (arith, ready.attached, ready.calm, ready.inactive, asked);
  }

  found-runs :
      (r : R) (q : Queue) (e : LocalExecutor d)
      → Ready d e
      → checkpoint_sync e.thread ≡ false
      → (run_found d (from_queue d (some r, q) e)).1 ≡ some r
  unfolding run_found from_queue run_task should_yield checkpoint_sync in_critical_section
  found-runs r q e ready quiet = ground (arith, ready.attached, ready.calm, ready.inactive, quiet)

  pop_first :
      (q : Queue) (r : R) (rs : List R)
      → to_list q ≡ r ∷ rs
      → (q' : Queue) × (d.pop q ≡ (some r, q')) × (to_list q' ≡ rs)
  pop_first q r rs e =
      let q' = (d.pop q).1 in
      let found : (d.pop q).0 ≡ some r = d.pop-cons q r rs e in
      let rest : to_list q ≡ r ∷ to_list q' =
        subst (λ o. Taken to_list q o q') found (d.pop-Taken q) in
      (q', ap (λ o. (o, q')) found, cc (e, rest))

  tick-Yielded :
      (e : LocalExecutor d) (r : R) (q : Queue)
      → Ready d e
      → checkpoint_sync e.thread ≡ true
      → d.pop e.queue ≡ (some r, q)
      → Yielded r q e (Executor.tick d e)
  unfolding Executor.tick find_task
  tick-Yielded e r q ready asked popped =
      subst (λ p. Yielded r q e (run_found d (from_queue d p e))) (sym popped)
        (found-Yielded r q e ready asked)

  tick-runs :
      (e : LocalExecutor d) (r : R) (q : Queue)
      → Ready d e
      → checkpoint_sync e.thread ≡ false
      → d.pop e.queue ≡ (some r, q)
      → (Executor.tick d e).1 ≡ some r
  unfolding Executor.tick find_task
  tick-runs e r q ready quiet popped =
      subst (λ p. (run_found d (from_queue d p e)).1 ≡ some r) (sym popped)
        (found-runs r q e ready quiet)

  Yielded-Ready :
      (r : R) (q : Queue) (e : LocalExecutor d) (t : LocalExecutor d × Option R × Bool)
      → Ready d e
      → Yielded r q e t
      → Ready d t.0
  Yielded-Ready r q e t ready y = record {
    handle = ready.handle;
    attached = y.current ∙ ready.attached;
    calm = y.depth ∙ ready.calm;
    inactive = y.active ∙ ready.inactive;
  }

  Yielded-quiet :
      (r : R) (q : Queue) (e : LocalExecutor d) (t : LocalExecutor d × Option R × Bool)
      → Ready d e
      → Yielded r q e t
      → checkpoint_sync t.0.thread ≡ false
  unfolding checkpoint_sync
  Yielded-quiet r q e t ready y = ground (arith, y.current, ready.attached, y.scb)

  head_next : (rs : List R) (r : R) → (ys : List R) × (rs ++ r ∷ [] ≡ head_of rs r ∷ ys)
  head_next [] r = ([], refl)
  head_next (x ∷ rs) r = (rs ++ r ∷ [], refl)

  -- What one request does to an executor.
  pub record Answered (r : R) (rs : List R) (seq : ℕ) (e : LocalExecutor d) : Type 0 where
    pub refused : (Executor.tick d e).1 ≡ none
    pub requeued : to_list (Executor.tick d e).0.queue ≡ rs ++ r ∷ []
    pub acknowledged : (Executor.tick d e).0.thread.scb.last_ack_seq ≡ seq
    pub quiet : checkpoint_sync (Executor.tick d e).0.thread ≡ false
    pub resumed : (Executor.tick d (Executor.tick d e).0).1 ≡ some (head_of rs r)

  asked-Answered :
      (e : LocalExecutor d) (r : R) (rs : List R)
      → Ready d e
      → checkpoint_sync e.thread ≡ true
      → to_list e.queue ≡ r ∷ rs
      → Answered r rs (max e.thread.scb.preempt_seq e.thread.scb.last_ack_seq) e
  asked-Answered e r rs ready asked queued =
      let (q, popped, rest) = pop_first e.queue r rs queued in
      let y = tick-Yielded e r q ready asked popped in
      let e' = (Executor.tick d e).0 in
      let ready' = Yielded-Ready r q e (Executor.tick d e) ready y in
      let quiet = Yielded-quiet r q e (Executor.tick d e) ready y in
      let requeued : to_list e'.queue ≡ rs ++ r ∷ [] =
        ap to_list y.queue ∙ (d.to_list-push q r ∙ ap (λ xs. xs ++ r ∷ []) rest) in
      let (ys, next) = head_next rs r in
      let (q', popped', rest') = pop_first e'.queue (head_of rs r) ys (requeued ∙ next) in
      record {
        refused = y.ran;
        requeued = requeued;
        acknowledged = ap (λ (m : MorpheusScb). m.last_ack_seq) y.scb;
        quiet = quiet;
        resumed = tick-runs e' (head_of rs r) q' ready' quiet popped';
      }

  -- A request and its answer. Where a tick of the scheduler asks a worker to yield, which has
  -- acknowledged at most the number before, where the new number is below 2^64, and its executor, on a thread with a handle, with a task
  -- in its queue, no critical section and no defensive mode, works on the block that this tick
  -- leaves: the next tick of the executor runs nothing, puts its task behind the others, and
  -- acknowledges the new number; then no request is pending, and the tick after it runs the task that
  -- has come to the front.
  pub request-Answered :
      (env : Env) (pid : ℕ) (k : Kernel) (c : TaskCtx) (e : LocalExecutor d) (r : R) (rs : List R)
      → k.task_ctx_map pid ≡ some c
      → wants_yield env c k ≡ true
      → (k.scb_map c.worker_id).last_ack_seq ≤ (k.scb_map c.worker_id).preempt_seq
      → (k.scb_map c.worker_id).preempt_seq + 1 < 2 ^ 64
      → e.thread.scb ≡ (tick env pid k).scb_map c.worker_id
      → Ready d e
      → to_list e.queue ≡ r ∷ rs
      → Answered r rs ((k.scb_map c.worker_id).preempt_seq + 1) e
  unfolding checkpoint_sync
  request-Answered env pid k c e r rs known wants acked fits shared ready queued =
      let scb = k.scb_map c.worker_id in
      let sig = tick-hints env pid k c known wants in
      let raised : e.thread.scb.preempt_seq ≡ scb.preempt_seq + 1 =
        ground (arith, shared, sig.scbs) in
      let kept : e.thread.scb.last_ack_seq ≡ scb.last_ack_seq = ground (arith, shared, sig.scbs) in
      let number : max e.thread.scb.preempt_seq e.thread.scb.last_ack_seq ≡ scb.preempt_seq + 1 =
        omega (arith, raised, kept) in
      subst (λ n. Answered r rs n e) number
        (asked-Answered e r rs ready (ground (arith, ready.attached, raised, kept)) queued)

-- ===== src/Runtime/Executor/Progress.antt =====
-- When an executor yields, and that it does not yield for ever.
use morpheus.Prelude.{
  ℕ, zero, suc, ◌+◌, ◌^◌, ◌<◌, ◌≡◌, ◌≢◌, refl, sym, ap, ◌⊎◌, inl, inr, Bool, true, false, not, ◌&&◌,
  ◌||◌, Option, none, some, List, [], ◌∷◌, ◌++◌, arith, if◌then◌else◌, add64, max,
}
use morpheus.Runtime.Worker.{Thread, checkpoint_sync}
use morpheus.Runtime.Critical.{in_critical_section}
use morpheus.Runtime.DefensiveMode.{DefensiveMode}
use morpheus.Runtime.DefensiveMode
use morpheus.Runtime.Executor.Deque.{Deque}
use morpheus.Runtime.Executor.Defs.{
  LocalExecutor, should_yield, acknowledge_yield, run_task, obey, run_found, from_queue, find_task,
  tick,
}
use morpheus.Runtime.Executor.Tasks.{as_list}

append-ne-nil {ℓ} : {A : Type ℓ} (xs : List A) (a : A) → xs ++ a ∷ [] ≢ []
append-ne-nil [] a = λ h. cc
append-ne-nil (x ∷ xs) a = λ h. cc

append-ne-nil_right {ℓ} : {A : Type ℓ} (xs : List A) {ys : List A} → ys ≢ [] → xs ++ ys ≢ []
append-ne-nil_right [] h = h
append-ne-nil_right (x ∷ xs) h = λ e. cc

module _ {R : Type 0} (d : Deque R) where
  -- The executor yields before a task exactly if the thread is in no critical section and either
  -- defensive mode is active or the kernel has a request that is not acknowledged.
  pub should_yield_iff :
      (e : LocalExecutor d)
      → (should_yield d e).1
        ≡ not (in_critical_section e.thread)
          && (DefensiveMode.is_active e.defensive || checkpoint_sync e.thread)
  unfolding should_yield DefensiveMode.is_active checkpoint_sync
  should_yield_iff e = ground arith

  -- How often the executor may still yield with no new request.
  abbrev pub patience : DefensiveMode → Thread → ℕ
  patience m t =
      (if m.active then max m.yields_remaining 1 else 0) + (if checkpoint_sync t then 1 else 0)

  abbrev patience_of : LocalExecutor d → ℕ
  patience_of e = patience e.defensive e.thread

  should_yield-patience :
      (e : LocalExecutor d)
      → e.defensive.yields_remaining < 2 ^ 64
      → (should_yield d e).1 ≡ true
      → (patience_of (acknowledge_yield d (should_yield d e).0) < patience_of e)
        × ((acknowledge_yield d (should_yield d e).0).defensive.yields_remaining < 2 ^ 64)
  unfolding should_yield acknowledge_yield checkpoint_sync
  should_yield-patience e fits h = ground arith

  -- What a task that was found leads to: it runs, or it goes to the end of the local queue and
  -- the patience of the executor gets smaller.
  record Yielded (r : R) (e e' : LocalExecutor d) : Type 0 where
    less : patience_of e' < patience_of e
    fits : e'.defensive.yields_remaining < 2 ^ 64
    queued : d.to_list e'.queue ≡ d.to_list e.queue ++ r ∷ []

  acknowledge_yield-queue : (e : LocalExecutor d) → (acknowledge_yield d e).queue ≡ e.queue
  unfolding acknowledge_yield
  acknowledge_yield-queue e = ground arith

  obey-Yielded :
      (r : R) (e e' : LocalExecutor d)
      → patience_of (acknowledge_yield d e') < patience_of e
      → (acknowledge_yield d e').defensive.yields_remaining < 2 ^ 64
      → e'.queue ≡ e.queue
      → Yielded r e (obey d r (e', true)).0
  unfolding obey acknowledge_yield checkpoint_sync
  obey-Yielded r e e' less fits same = record {
    less = ground arith;
    fits = ground arith;
    queued =
        rw
          (acknowledge_yield-queue (record e' { queue = d.push e'.queue r }), d.to_list-push, same);
  }

  should_yield-queue : (e : LocalExecutor d) → (should_yield d e).0.queue ≡ e.queue
  unfolding should_yield
  should_yield-queue e = ground arith

  obey-cases :
      (r : R) (e : LocalExecutor d) (s : LocalExecutor d × Bool)
      → s ≡ should_yield d e
      → e.defensive.yields_remaining < 2 ^ 64
      → ((obey d r s).1 ≡ some r) ⊎ Yielded r e (obey d r s).0
  unfolding obey
  obey-cases r e (e', false) same fits = inl refl
  obey-cases r e (e', true) same fits =
      let e1 : e' ≡ (should_yield d e).0 = ap (λ p. p.0) same in
      let (less, fewer) = should_yield-patience e fits (sym (ap (λ p. p.1) same)) in
      inr (obey-Yielded r e e' (rw e1 less) (rw e1 fewer) (rw e1 (should_yield-queue e)))

  -- Tasks run, in order, by `n` ticks with nothing else going on.
  unfoldable pub ticks : ℕ → LocalExecutor d → LocalExecutor d × List R
  ticks zero e = (e, [])
  ticks (suc n) e =
      let next = tick d e in let rest = ticks n next.0 in (rest.0, as_list next.1 ++ rest.1)

  -- A tick with a task at hand runs one, or leaves less patience and a task in the local queue.
  abbrev Moves : LocalExecutor d → LocalExecutor d × Option R × Bool → Type 0
  Moves e (e', ran, found) =
      ((r : R) × (ran ≡ some r))
      ⊎ (patience_of e' < patience_of e)
        × (e'.defensive.yields_remaining < 2 ^ 64)
        × (d.to_list e'.queue ≢ [])

  abbrev with_queue : d.Queue → LocalExecutor d → LocalExecutor d
  with_queue q e = record e { queue = q; stats = record e.stats { polls = add64 e.stats.polls 1 } }

  run_found-Moves :
      (e : LocalExecutor d) (s : Option R × d.Queue)
      → s.0 ≢ none
      → e.defensive.yields_remaining < 2 ^ 64
      → Moves e (run_found d (from_queue d s e))
  unfolding run_found from_queue run_task
  run_found-Moves e (none, q) h fits = absurd (h refl)
  run_found-Moves e (some r, q) h fits =
      elim (obey-cases r (with_queue q e) (should_yield d (with_queue q e)) refl fits) [
        | inl ran ↦ inl (r, ran)
        | inr y ↦ inr (y.less, y.fits, rw y.queued (append-ne-nil (d.to_list q) r))
      ]

  pop-ne-none : (q : d.Queue) → d.to_list q ≢ [] → (d.pop q).0 ≢ none
  pop-ne-none q h = go (d.to_list q) refl
    where
      go : (rs : List R) → d.to_list q ≡ rs → (d.pop q).0 ≢ none
      go [] e = absurd (h e)
      go (r ∷ rs) e = λ n. cc (d.pop-cons q r rs e)

  tick-Moves :
      (e : LocalExecutor d)
      → d.to_list e.queue ≢ []
      → e.defensive.yields_remaining < 2 ^ 64
      → Moves e (tick d e)
  unfolding tick find_task
  tick-Moves e h fits = run_found-Moves e (d.pop e.queue) (pop-ne-none e.queue h) fits

  -- With a task in the local queue and no new request of the kernel, some task runs after as many
  -- ticks as defensive mode has yields left (one, if it is active with none left), one more if a
  -- request is pending, and one: the executor does not yield for ever. The yields
  -- that are left are a 64-bit word.
  pub ticks_run :
      (n : ℕ) (e : LocalExecutor d)
      → d.to_list e.queue ≢ []
      → e.defensive.yields_remaining < 2 ^ 64
      → patience e.defensive e.thread < n
      → (ticks n e).1 ≢ []
  unfolding ticks
  ticks_run zero e h fits less = absurd (omega arith)
  ticks_run (suc n) e h fits less = elim (tick-Moves e h fits) [
    | inl (r, ran) ↦ rw ran (λ k. cc)
    | inr (fewer, fits', more) ↦
        append-ne-nil_right (as_list (tick d e).1)
          (ticks_run n (tick d e).0 more fits' (omega arith))
  ]

-- ===== src/Runtime/Executor/Spawned.antt =====
-- morpheus-runtime/src/executor.rs: the schedule closure of `spawn`, which runs a task that has been
-- woken on the spot. The crate async-task polls the future of a task in `run`, and calls the closure
-- of the task after a poll in which the future was woken.
use morpheus.Prelude.{
  ℕ, suc, ◌+◌, ◌<◌, ◌≤◌, ◌≡◌, refl, ap, sym, subst, ◌∙◌, List, [], ◌∷◌, Bool-cases, inl, inr, arith,
}
use morpheus.Runtime.Worker.{Thread, checkpoint_sync}
use morpheus.Runtime.Executor.Yield.{
  Task, pending, ready, poll_task, advance, finished, through, advance-∷, poll_task-waiting, start,
  requests,
}

-- `run` of a task, with the depth of the calls of `run` inside it.
pub data Run : ℕ → Task → Task → Type 0 where
  ends : {t u : Task} → poll_task t ≡ (ready, u) → Run 0 t u
  sleeps : {t u : Task} → poll_task t ≡ (pending, u) → u.wakes ≡ t.wakes → Run 0 t u
  schedules :
      {n : ℕ} {t u v : Task}
      → poll_task t ≡ (pending, u)
      → t.wakes < u.wakes
      → Run n u v
      → Run (suc n) t v

move : {n : ℕ} {t u v : Task} → t ≡ u → Run n t v → Run n u v
move {n} {v = v} e r = subst (λ x. Run n x v) e r

move_count : {n m a b : ℕ} {t : Task} → n ≡ m → a ≡ b → Run n t (finished a) → Run m t (finished b)
move_count {n} {b = b} {t = t} e f r =
    subst (λ k. Run k t (finished b)) e (subst (λ k. Run n t (finished k)) f r)

Run-unique : {n m : ℕ} {t u v : Task} → Run n t u → Run m t v → (n ≡ m) × (u ≡ v)
Run-unique (ends e) (ends e') = ground (arith, sym e ∙ e')
Run-unique (ends e) (sleeps e' w') = ground (arith, sym e ∙ e')
Run-unique (ends e) (schedules e' w' r') = ground (arith, sym e ∙ e')
Run-unique (sleeps e w) (ends e') = ground (arith, sym e ∙ e')
Run-unique (sleeps e w) (sleeps e' w') = ground (arith, sym e ∙ e')
Run-unique (sleeps e w) (schedules e' w' r') = ground (arith, sym e ∙ e')
Run-unique (schedules e w r) (ends e') = ground (arith, sym e ∙ e')
Run-unique (schedules e w r) (sleeps e' w') = ground (arith, sym e ∙ e')
Run-unique (schedules e w r) (schedules e' w' r') =
    let same = ap (λ p. p.1) (sym e ∙ e') in
    let ih = Run-unique r (move (sym same) r') in (omega (arith, ih.0), ih.1)

-- The checkpoints of a task, run from one await to the end.
Run-advance :
    (ts : List Thread) (wakes : ℕ) {t : Task}
    → poll_task t ≡ advance ts wakes
    → t.wakes ≤ wakes
    → Run (requests ts) t (finished (wakes + requests ts))
unfolding advance
Run-advance [] wakes e h = ends (e ∙ ap through (omega arith))
Run-advance (t ∷ ts) wakes e h = elim (Bool-cases (checkpoint_sync t)) [
  | inl asked ↦
      let rest = Run-advance ts (wakes + 1) (poll_task-waiting ts (wakes + 1)) (omega arith) in
      move_count (ground (arith, asked)) (ground (arith, asked))
        (schedules (e ∙ advance-∷ t ts wakes ∙ ground (arith, asked)) (omega arith) rest)
  | inr quiet ↦
      move_count (ground (arith, quiet)) (ground (arith, quiet))
        (Run-advance ts wakes (e ∙ advance-∷ t ts wakes ∙ ground (arith, quiet)) h)
]

-- A yield in a spawned task never goes back to the executor: `run` of a task with checkpoints goes
-- through to its end, inside as many calls of `run` as there are checkpoints with a request pending,
-- and no `run` of it does anything else.
pub start-Run :
    (ts : List Thread)
    → Run (requests ts) (start ts) (finished (requests ts))
      × ((n : ℕ) (t : Task) → Run n (start ts) t → (n ≡ requests ts) × (t ≡ finished (requests ts)))
unfolding poll_task
start-Run ts =
    let run = Run-advance ts 0 {t = start ts} refl (omega arith) in
    let here = move_count refl (omega arith) run in (here, λ n t r. Run-unique r here)

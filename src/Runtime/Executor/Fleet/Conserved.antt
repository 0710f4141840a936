-- ===== src/Runtime/Executor/Fleet/Conserved.antt =====
-- No task is lost or duplicated between executors that steal from each other.
use mathlib.Core.List.{Perm, perm_middle}
use mathlib.Core.List.Perm
use morpheus.Prelude.{
  ℕ, zero, suc, ◌+◌, ◌≡◌, refl, sym, ap, ◌∙◌, List, [], ◌∷◌, ◌++◌, map, append_assoc, length,
  length-append, arith,
}
use morpheus.Runtime.Worker.{Thread}
use morpheus.Runtime.Executor.Deque.{Deque}
use morpheus.Runtime.Executor.Defs
use morpheus.Runtime.Executor.Tasks.{as_list, stolen_from, tick-perm}
use morpheus.Runtime.Executor.Fleet.{
  Member, Fleet, queues, executor_of, tick_at, tick_member, spawn_at, Event, ticks, spawns, changes,
  change_thread, happen, run,
}
use morpheus.Runtime.Executor.Fleet.Places.{
  swap_left, tick-stealers, executor_of-perm, fleet_of-perm, length-queues, fleet_tasks,
}

-- One step and the others: tasks added and tasks done.
interleave {ℓ} :
    {R : Type ℓ} (a a' s d s' d' s'' : List R)
    → Perm (a ++ s) (d ++ s')
    → Perm (a' ++ s') (d' ++ s'')
    → Perm ((a ++ a') ++ s) ((d ++ d') ++ s'')
interleave a a' s d s' d' s'' p q =
    rw (append_assoc a a' s, append_assoc d d' s'')
      (Perm.trans (swap_left a a' s) (
        Perm.trans (Perm.append_left a' p) (Perm.trans (swap_left a' d s') (Perm.append_left d q))))

module _ {R : Type 0} (d : Deque R) where
  open d use {Queue, to_list}

  tick_at-perm :
      (i : ℕ) (before after : List (Member d)) (f : Fleet d)
      → f.members ≡ before ++ after
      → Perm
          (fleet_tasks d f)
          (as_list (tick_at d i before after f).1 ++ fleet_tasks d (tick_at d i before after f).0)
  unfolding tick_at executor_of
  tick_at-perm i before [] f e = Perm.rfl
  tick_at-perm zero before (m ∷ after) f e =
      let x = executor_of d f before m after in
      let size : length (Defs.tick d x).0.stealers ≡ length before + length after =
        tick-stealers d x
        ∙ length-append (queues d before) (queues d after)
        ∙ omega (arith, length-queues d before, length-queues d after) in
      Perm.trans (executor_of-perm d f before m after e) (
        Perm.trans (tick-perm d x) (
          Perm.append_left (as_list (Defs.tick d x).1)
            (fleet_of-perm d before after (Defs.tick d x).0 size)))
  tick_at-perm (suc i) before (m ∷ after) f e =
      tick_at-perm i (before ++ m ∷ []) after f (e ∙ sym (append_assoc before (m ∷ []) after))

  push_front :
      (q : Queue) (r : R) (rest : List R)
      → Perm (r ∷ (to_list q ++ rest)) (to_list (d.push q r) ++ rest)
  push_front q r rest =
      rw (d.to_list-push, append_assoc (to_list q) (r ∷ []) rest)
        (Perm.symm (perm_middle (to_list q) rest))

  spawn_at-perm :
      (i : ℕ) (r : R) (ms : List (Member d))
      → Perm
          ((spawn_at d i r ms).1 ++ stolen_from d (queues d ms))
          (stolen_from d (queues d (spawn_at d i r ms).0))
  unfolding spawn_at
  spawn_at-perm i r [] = Perm.rfl
  spawn_at-perm zero r (m ∷ ms) = push_front m.queue r (stolen_from d (queues d ms))
  spawn_at-perm (suc i) r (m ∷ ms) =
      Perm.trans (swap_left (spawn_at d i r ms).1 (to_list m.queue) (stolen_from d (queues d ms)))
        (Perm.append_left (to_list m.queue) (spawn_at-perm i r ms))

  queues-change :
      (g : Thread → Thread) (ms : List (Member d))
      → queues d (map (change_thread d g) ms) ≡ queues d ms
  queues-change g [] = refl
  queues-change g (m ∷ ms) = ap (◌∷◌ m.queue) (queues-change g ms)

  happen-perm :
      (x : Event d) (f : Fleet d)
      → Perm
          ((happen d x f).2 ++ fleet_tasks d f)
          ((happen d x f).1 ++ fleet_tasks d (happen d x f).0)
  unfolding happen tick_member
  happen-perm (ticks i) f = tick_at-perm i [] f.members f refl
  happen-perm (spawns i r) f =
      rw (← append_assoc (spawn_at d i r f.members).1 _ (to_list f.injector))
        (Perm.append_right (to_list f.injector) (spawn_at-perm i r f.members))
  happen-perm (changes g) f = rw (queues-change g f.members) Perm.rfl

  -- No task is lost or run twice. Executors share an injector, and each may steal from all others.
  -- Whatever ticks they make, whatever is spawned on them and however their threads change, in
  -- whatever order: the tasks that were there and those that were spawned are, up to their order,
  -- those that have been run and those that are left.
  pub run-perm :
      (xs : List (Event d)) (f : Fleet d)
      → Perm ((run d xs f).2 ++ fleet_tasks d f) ((run d xs f).1 ++ fleet_tasks d (run d xs f).0)
  unfolding run
  run-perm [] f = Perm.rfl
  run-perm (x ∷ xs) f =
      let h = happen d x f in
      let r = run d xs h.0 in
      interleave h.2 r.2 (fleet_tasks d f) h.1 (fleet_tasks d h.0) r.1 (fleet_tasks d r.0)
        (happen-perm x f) (run-perm xs h.0)

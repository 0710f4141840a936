-- ===== src/Runtime/Executor/Fleet/Places.antt =====
-- The members of a fleet as executors, and back: what the queues of all hold is what an executor
-- and its stealers hold.
use mathlib.Core.List.{Perm, perm_append_comm, append-nil}
use mathlib.Core.List.Perm
use morpheus.Prelude.{
  suc, ◌+◌, ◌≤◌, ◌≡◌, refl, sym, ap, ◌∙◌, Option, none, some, List, [], ◌∷◌, ◌++◌, append_assoc,
  length, subst, arith,
}
use morpheus.Runtime.Executor.Deque.{Deque}
use morpheus.Runtime.Executor.Defs.{
  LocalExecutor, should_yield, acknowledge_yield, run_task, steal_any, find_task, obey, first_steal,
  from_stealers, from_injector, from_queue, run_found,
}
use morpheus.Runtime.Executor.Defs
use morpheus.Runtime.Executor.Tasks.{stolen_from, tasks}
use morpheus.Runtime.Executor.Fleet.{Member, Fleet, queues, executor_of, give_back, fleet_of}

pub swap_left {ℓ} : {R : Type ℓ} (b q a : List R) → Perm (b ++ (q ++ a)) (q ++ (b ++ a))
swap_left b q a =
    rw (← append_assoc b q a, ← append_assoc q b a) (Perm.append_right a (perm_append_comm b q))

gather {ℓ} : {R : Type ℓ} (b q a i : List R) → Perm ((b ++ (q ++ a)) ++ i) (q ++ (i ++ (b ++ a)))
gather b q a i =
    Perm.trans (Perm.append_right i (swap_left b q a))
      (rw (append_assoc q (b ++ a) i) (Perm.append_left q (perm_append_comm (b ++ a) i)))

nil_of_length {ℓ} : {A : Type ℓ} (xs : List A) → length xs ≡ 0 → xs ≡ []
nil_of_length [] e = refl
nil_of_length (x ∷ xs) e = absurd (omega arith)

module _ {R : Type 0} (d : Deque R) where
  open d use {Queue, to_list}

  steal_any-length : (qs : List Queue) → length (steal_any d qs).1 ≡ length qs
  unfolding steal_any first_steal
  steal_any-length [] = refl
  steal_any-length (q ∷ qs) = grind (arith, steal_any-length qs)

  find_task-stealers : (e : LocalExecutor d) → length (find_task d e).0.stealers ≡ length e.stealers
  unfolding find_task from_queue from_injector from_stealers
  find_task-stealers e = ground (arith, steal_any-length e.stealers)

  run_task-stealers : (r : R) (e : LocalExecutor d) → (run_task d r e).0.stealers ≡ e.stealers
  unfolding run_task obey should_yield acknowledge_yield
  run_task-stealers r e = ground arith

  run_found-stealers : (s : LocalExecutor d × Option R) → (run_found d s).0.stealers ≡ s.0.stealers
  unfolding run_found
  run_found-stealers (e, none) = refl
  run_found-stealers (e, some r) = run_task-stealers r e

  pub tick-stealers : (e : LocalExecutor d) → length (Defs.tick d e).0.stealers ≡ length e.stealers
  unfolding Defs.tick
  tick-stealers e = ap length (run_found-stealers (find_task d e)) ∙ find_task-stealers e

  pub length-queues : (ms : List (Member d)) → length (queues d ms) ≡ length ms
  length-queues [] = refl
  length-queues (m ∷ ms) = ap suc (length-queues ms)

  stolen_from-append :
      (ps qs : List Queue) → stolen_from d (ps ++ qs) ≡ stolen_from d ps ++ stolen_from d qs
  stolen_from-append [] qs = refl
  stolen_from-append (p ∷ ps) qs =
      ap (λ rs. to_list p ++ rs) (stolen_from-append ps qs)
      ∙ sym (append_assoc (to_list p) (stolen_from d ps) (stolen_from d qs))

  give_back-queues :
      (ms : List (Member d)) (qs : List Queue)
      → length ms ≤ length qs
      → (queues d (give_back d ms qs).0 ++ (give_back d ms qs).1 ≡ qs)
        × (length ms + length (give_back d ms qs).1 ≡ length qs)
  unfolding give_back
  give_back-queues [] qs h = (refl, omega arith)
  give_back-queues (m ∷ ms) [] h = absurd (omega arith)
  give_back-queues (m ∷ ms) (q ∷ qs) h =
      let (same, size) = give_back-queues ms qs (omega arith) in
      (ap (◌∷◌ q) same, omega (arith, size))

  -- The tasks of all queues and of the injector.
  abbrev pub fleet_tasks : Fleet d → List R
  fleet_tasks f = stolen_from d (queues d f.members) ++ to_list f.injector

  -- One member in its place, as an executor sees all tasks.
  placed-perm :
      (inj q : Queue) (before after : List Queue)
      → Perm
          (stolen_from d (before ++ q ∷ after) ++ to_list inj)
          (to_list q ++ (to_list inj ++ stolen_from d (before ++ after)))
  placed-perm inj q before after =
      rw (stolen_from-append before (q ∷ after), stolen_from-append before after)
        (gather (stolen_from d before) (to_list q) (stolen_from d after) (to_list inj))

  queues-placed :
      (before : List (Member d)) (m : Member d) (after : List (Member d))
      → queues d (before ++ m ∷ after) ≡ queues d before ++ m.queue ∷ queues d after
  queues-placed [] m after = refl
  queues-placed (b ∷ before) m after = ap (◌∷◌ b.queue) (queues-placed before m after)

  pub executor_of-perm :
      (f : Fleet d) (before : List (Member d)) (m : Member d) (after : List (Member d))
      → f.members ≡ before ++ m ∷ after
      → Perm (fleet_tasks f) (tasks d (executor_of d f before m after))
  unfolding executor_of
  executor_of-perm f before m after e =
      rw (e, queues-placed before m after)
        (placed-perm f.injector m.queue (queues d before) (queues d after))

  all_back :
      (before after : List (Member d)) (qs : List Queue)
      → length qs ≡ length before + length after
      → let (before', rest) = give_back d before qs in
        qs ≡ queues d before' ++ queues d (give_back d after rest).0
  all_back before after qs size =
      let (same, left) = give_back-queues before qs (omega arith) in
      let (rest, more) = give_back-queues after (give_back d before qs).1 (omega (arith, left)) in
      let none_left : (give_back d after (give_back d before qs).1).1 ≡ [] =
        nil_of_length _ (omega (arith, left, more)) in
      sym same
      ∙ ap (λ ps. queues d (give_back d before qs).0 ++ ps)
          (sym rest
            ∙ ap (λ ps. queues d (give_back d after (give_back d before qs).1).0 ++ ps) none_left
            ∙ append-nil _)

  pub fleet_of-perm :
      (before after : List (Member d)) (e : LocalExecutor d)
      → length e.stealers ≡ length before + length after
      → Perm (tasks d e) (fleet_tasks (fleet_of d before e after))
  unfolding fleet_of
  fleet_of-perm before after e size =
      let (before', rest) = give_back d before e.stealers in
      let (after', _) = give_back d after rest in
      subst
        (λ qs.
          Perm (to_list e.queue ++ (to_list e.injector ++ stolen_from d qs))
            (fleet_tasks (fleet_of d before e after)))
        (sym (all_back before after e.stealers size))
        (rw (queues-placed before' _ after')
          (Perm.symm (placed-perm e.injector e.queue (queues d before') (queues d after'))))

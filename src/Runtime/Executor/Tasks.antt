-- ===== src/Runtime/Executor/Tasks.antt =====
-- No task is lost or duplicated.
use mathlib.Core.List.{Perm, perm_middle}
use mathlib.Core.List.Perm
use morpheus.Prelude.{
  ◌≡◌, Bool, true, false, Option, none, some, List, [], ◌∷◌, ◌++◌, append_assoc, arith, add64,
}
use morpheus.Runtime.Executor.Deque.{Deque, Taken}
use morpheus.Runtime.Executor.Defs.{
  LocalExecutor, should_yield, acknowledge_yield, run_task, steal_any, find_task, tick, obey,
  first_steal, from_stealers, from_injector, from_queue, run_found,
}

abbrev pub as_list {ℓ} : {A : Type ℓ} → Option A → List A
as_list none = []
as_list (some a) = a ∷ []

perm_lift {ℓ} :
    {A : Type ℓ} (xs ys zs : List A) (o : Option A)
    → Perm ys (as_list o ++ zs)
    → Perm (xs ++ ys) (as_list o ++ (xs ++ zs))
perm_lift xs ys zs none p = Perm.append_left xs p
perm_lift xs ys zs (some a) p = Perm.trans (Perm.append_left xs p) (perm_middle xs zs)

module _ {R : Type 0} (d : Deque R) where
  open d use {Queue, to_list}

  abbrev pub stolen_from : List Queue → List R
  stolen_from [] = []
  stolen_from (q ∷ qs) = to_list q ++ stolen_from qs

  -- Every task that the executor can come by.
  abbrev pub tasks : LocalExecutor d → List R
  tasks e = to_list e.queue ++ (to_list e.injector ++ stolen_from e.stealers)

  first_steal-perm :
      (q : Queue) (s : Option R × Queue) (qs : List Queue) (rest : Option R × List Queue)
      → Taken to_list q s.0 s.1
      → Perm (stolen_from qs) (as_list rest.0 ++ stolen_from rest.1)
      → Perm
          (to_list q ++ stolen_from qs)
          (as_list (first_steal d s qs rest).0 ++ stolen_from (first_steal d s qs rest).1)
  unfolding first_steal
  first_steal-perm q (some r, q') qs rest t p = rw t Perm.rfl
  first_steal-perm q (none, q') qs (o, qs') t p =
      rw t (perm_lift (to_list q) (stolen_from qs) (stolen_from qs') o p)

  steal_any-perm :
      (qs : List Queue)
      → Perm (stolen_from qs) (as_list (steal_any d qs).0 ++ stolen_from (steal_any d qs).1)
  unfolding steal_any
  steal_any-perm [] = Perm.nil
  steal_any-perm (q ∷ qs) =
      first_steal-perm q (d.steal q) qs (steal_any d qs) (d.steal-Taken q) (steal_any-perm qs)

  -- A search for a task keeps the tasks.
  abbrev Finds : LocalExecutor d → LocalExecutor d × Option R → Type 0
  Finds e found = Perm (tasks e) (as_list found.1 ++ tasks found.0)

  from_stealers-Finds : (e : LocalExecutor d) → Finds e (from_stealers d (steal_any d e.stealers) e)
  unfolding from_stealers
  from_stealers-Finds e =
      let (o, qs) = steal_any d e.stealers in
      let rest =
        perm_lift (to_list e.injector) (stolen_from e.stealers) (stolen_from qs) o
          (steal_any-perm e.stealers) in
      perm_lift (to_list e.queue) _ _ o rest

  from_injector-Finds :
      (s : Option R × Queue) (e : LocalExecutor d)
      → Taken to_list e.injector s.0 s.1
      → Finds e (from_injector d s e)
  unfolding from_injector
  from_injector-Finds (some r, q) e t = rw t (perm_lift (to_list e.queue) _ _ (some r) Perm.rfl)
  from_injector-Finds (none, q) e t = rw (← t) (from_stealers-Finds (record e { injector = q }))

  from_queue-Finds :
      (s : Option R × Queue) (e : LocalExecutor d)
      → Taken to_list e.queue s.0 s.1
      → Finds e (from_queue d s e)
  unfolding from_queue
  from_queue-Finds (some r, q) e t = rw t Perm.rfl
  from_queue-Finds (none, q) e t =
      rw (← t) (
        from_injector-Finds (d.steal e.injector) (record e { queue = q })
          (d.steal-Taken e.injector))

  find_task-Finds : (e : LocalExecutor d) → Finds e (find_task d e)
  unfolding find_task
  find_task-Finds e = from_queue-Finds (d.pop e.queue) e (d.pop-Taken e.queue)

  -- What a decision to yield leaves alone.
  record SameQueues (e e' : LocalExecutor d) : Type 0 where
    queue : e'.queue ≡ e.queue
    injector : e'.injector ≡ e.injector
    stealers : e'.stealers ≡ e.stealers

  should_yield-SameQueues : (e : LocalExecutor d) → SameQueues e (should_yield d e).0
  unfolding should_yield
  should_yield-SameQueues e = ground arith

  acknowledge-SameQueues : (e : LocalExecutor d) → SameQueues e (acknowledge_yield d e)
  unfolding acknowledge_yield
  acknowledge-SameQueues e = ground arith

  SameQueues-tasks : {e e' : LocalExecutor d} → SameQueues e e' → tasks e' ≡ tasks e
  SameQueues-tasks same = cc (same.queue, same.injector, same.stealers)

  tasks-push :
      (r : R) (e : LocalExecutor d)
      → Perm (r ∷ tasks e) (tasks (record e { queue = d.push e.queue r }))
  tasks-push r e =
      rw (d.to_list-push, append_assoc (to_list e.queue) (r ∷ []))
        (Perm.symm (perm_middle (to_list e.queue) _))

  obey-perm :
      (r : R) (e : LocalExecutor d) (s : LocalExecutor d × Bool)
      → SameQueues e s.0
      → Perm (r ∷ tasks e) (as_list (obey d r s).1 ++ tasks (obey d r s).0)
  unfolding obey
  obey-perm r e (e', true) same =
      rw (SameQueues-tasks (acknowledge-SameQueues (record e' { queue = d.push e'.queue r })))
        (rw (← SameQueues-tasks same) (tasks-push r e'))
  obey-perm r e (e', false) same = rw (SameQueues-tasks same) Perm.rfl

  run_task-perm :
      (r : R) (e : LocalExecutor d)
      → Perm (r ∷ tasks e) (as_list (run_task d r e).1 ++ tasks (run_task d r e).0)
  unfolding run_task
  run_task-perm r e =
      let polled = record e { stats = record e.stats { polls = add64 e.stats.polls 1 } } in
      obey-perm r polled (should_yield d polled) (should_yield-SameQueues polled)

  run_found-perm :
      (e : LocalExecutor d) (s : LocalExecutor d × Option R)
      → Finds e s
      → Perm (tasks e) (as_list (run_found d s).1 ++ tasks (run_found d s).0)
  unfolding run_found
  run_found-perm e (e', none) p = p
  run_found-perm e (e', some r) p = Perm.trans p (run_task-perm r e')

  -- A tick keeps every task: those that the executor can come by before it are, up to their order,
  -- the task that it runs, if it runs one, and those that the executor can come by afterwards.
  pub tick-perm :
      (e : LocalExecutor d) → Perm (tasks e) (as_list (tick d e).1 ++ tasks (tick d e).0)
  unfolding tick
  tick-perm e = run_found-perm e (find_task d e) (find_task-Finds e)

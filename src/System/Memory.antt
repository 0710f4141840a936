-- ===== src/System/Memory.antt =====
-- The calls of the scheduler, of the runtimes and of the loader, by what they store to the memory that
-- the map of blocks is.
use morpheus.Prelude.{
  ℕ, ◌^◌, ◌<◌, ◌≡◌, refl, sym, ap, ◌∙◌, List, [], ◌∷◌, ◌++◌, All, All-append, length, length-append,
  ◌≤◌, ◌+◌, Option-cases, inl, inr, update, arith,
}
use morpheus.Common.Scb.{MorpheusScb}
use morpheus.Kernel.State.{Kernel, Env}
use morpheus.Kernel.Frame.{tick-none}
use morpheus.Kernel.Signals.{tick-signals}
use morpheus.Kernel.Tick.{tick}
use morpheus.Kernel.Ops.{init, dispatch, enable, stopping}
use morpheus.Loader.Tune.{adaptive_tune}
use morpheus.Layout.Memory.{Memory}
use morpheus.Layout.View.{view}
use morpheus.Layout.View.Accesses.{Side, declared}
use morpheus.Layout.View.Operations.{
  Operation, initializes, raises, charges, Loaded, effect, effect_all, operate_all,
  view-operate_all,
}
use morpheus.Layout.View.Operations
use morpheus.System.{
  Step, Steps, here, next, scheduler_starts, cpu_asks, task_enters, task_starts, task_placed,
  task_queued, task_runs, task_stops, ticks, maps_block, acknowledges, enters, exits, prioritizes,
  registers, unregisters, tunes,
}
use morpheus.System.Blocks.{
  init_task-scbs, select_cpu-scbs, enqueue-scbs, running-scbs, new-initializes, stopping_cases,
  stopping-none, delta_of,
}

-- The blocks after operations on them, of which there is a number at most.
pub record Made (n : ℕ) (f g : ℕ → MorpheusScb) : Type 0 where
  pub operations : List (ℕ × Operation)
  pub few : length operations ≤ n
  pub loaded : All (λ (o : ℕ × Operation). Loaded o.1) operations
  pub made : g ≡ effect_all operations f

none-Made : {n : ℕ} {f g : ℕ → MorpheusScb} → g ≡ f → Made n f g
unfolding effect_all
none-Made same = record { operations = []; few = omega arith; loaded = tt; made = same }

one-Made :
    (f : ℕ → MorpheusScb) {g : ℕ → MorpheusScb} (block : ℕ) (o : Operation)
    → Loaded o
    → g ≡ update f block (effect o (f block))
    → Made 1 f g
unfolding effect_all
one-Made f block o h stored = record {
  operations = (block, o) ∷ [];
  few = omega arith;
  loaded = (h, tt);
  made = stored;
}

effect_all-append :
    (os ps : List (ℕ × Operation)) (f : ℕ → MorpheusScb)
    → effect_all (os ++ ps) f ≡ effect_all ps (effect_all os f)
unfolding effect_all
effect_all-append [] ps f = refl
effect_all-append ((block, o) ∷ os) ps f =
    effect_all-append os ps (update f block (effect o (f block)))

both-Made : {n p : ℕ} {f g h : ℕ → MorpheusScb} → Made n f g → Made p g h → Made (n + p) f h
both-Made {f} a b = record {
  operations = a.operations ++ b.operations;
  few = omega (arith, length-append a.operations b.operations, a.few, b.few);
  loaded = All-append (λ o. Loaded o.1) a.operations b.operations a.loaded b.loaded;
  made =
      b.made
      ∙ ap (effect_all b.operations) a.made
      ∙ sym (effect_all-append a.operations b.operations f);
}

stopping-Made :
    (garbage : ℕ) (env : Env) (pid : ℕ) (k : Kernel)
    → Made 1 k.scb_map (stopping garbage env pid k).scb_map
unfolding effect
stopping-Made garbage env pid k = elim (Option-cases (k.task_ctx_map pid)) [
  | inl e ↦ none-Made (stopping-none garbage env pid k e)
  | inr (tctx, e) ↦ elim (stopping_cases garbage env pid k tctx e) [
    | inl same ↦ none-Made same
    | inr one ↦ one-Made k.scb_map tctx.worker_id (charges (delta_of garbage env tctx)) tt one
  ]
]

tick-Made : (env : Env) (pid : ℕ) (k : Kernel) → Made 1 k.scb_map (tick env pid k).scb_map
unfolding effect
tick-Made env pid k = elim (Option-cases (k.task_ctx_map pid)) [
  | inl e ↦ none-Made (ap (λ (l : Kernel). l.scb_map) (tick-none env pid k e))
  | inr (tctx, e) ↦ elim (tick-signals env pid k tctx e) [
    | inr (idle, same) ↦ none-Made same.scbs
    | inl (wanted, signalled) ↦ one-Made k.scb_map tctx.worker_id raises tt signalled.scbs
  ]
]

-- What a step has loaded from a block fits its word.
abbrev pub Fits : {k k' : Kernel} → Step k k' → Type 0
Fits (acknowledges i target current) = target < 2 ^ 64
Fits step = Unit

pub Step-Made : {k k' : Kernel} (st : Step k k') → Fits st → Made 1 k.scb_map k'.scb_map
unfolding init dispatch enable adaptive_tune effect
Step-Made (scheduler_starts created) h = none-Made refl
Step-Made cpu_asks h = none-Made refl
Step-Made (task_enters pid) h = none-Made refl
Step-Made {k} (task_starts created pid e) h = none-Made (init_task-scbs created pid k e)
Step-Made {k} (task_placed is_idle pid) h = none-Made (select_cpu-scbs is_idle pid k)
Step-Made {k} (task_queued pid) h = none-Made (enqueue-scbs pid k)
Step-Made {k} (task_runs env pid) h = none-Made (running-scbs env pid k)
Step-Made {k} (task_stops garbage env pid) h = stopping-Made garbage env pid k
Step-Made {k} (ticks env pid) h = tick-Made env pid k
Step-Made {k} (maps_block map_mut worker_id b e) h =
    one-Made k.scb_map worker_id (initializes b) tt
      (new-initializes map_mut k.scb_map worker_id b e)
Step-Made {k} (acknowledges j target current) h =
    one-Made k.scb_map j (Operations.acknowledges target current) h refl
Step-Made {k} (enters j) h = one-Made k.scb_map j Operations.enters tt refl
Step-Made {k} (exits j) h = one-Made k.scb_map j Operations.exits tt refl
Step-Made {k} (prioritizes j priority) h =
    one-Made k.scb_map j (Operations.prioritizes priority) tt refl
Step-Made (registers bpf tid worker_id e) h = none-Made refl
Step-Made (unregisters bpf tid e) h = none-Made refl
Step-Made (tunes parallelism loadavg slice grace) h = none-Made refl

abbrev pub AllFit : {k k' : Kernel} → Steps k k' → Type 0
AllFit here = Unit
AllFit (next r st) = AllFit r × Fits st

abbrev pub number : {k k' : Kernel} → Steps k k' → ℕ
number here = 0
number (next r st) = number r + 1

Steps-Made : {k k' : Kernel} (r : Steps k k') → AllFit r → Made (number r) k.scb_map k'.scb_map
Steps-Made here h = none-Made refl
Steps-Made (next r st) h = both-Made (Steps-Made r h.0) (Step-Made st h.1)

-- What a run leaves in memory, by the operations that it makes.
pub record Stored (s : Side) (n : ℕ) (f : ℕ → MorpheusScb) (m : Memory) : Type 0 where
  pub operations : List (ℕ × Operation)
  pub few : length operations ≤ n
  pub loaded : All (λ (o : ℕ × Operation). Loaded o.1) operations
  pub stored : view (declared s) (operate_all operations m) ≡ f

-- A run of the system is a run on memory. Whatever calls of the scheduler, the runtimes and the loader
-- follow one another, where an acknowledgement stores a 64-bit number, and from any memory in which a
-- side reads the blocks as the map has them, by its declaration of the struct: there are operations, at
-- most one for each call, that store words, the kernel's by its declaration and the runtime's by its
-- own, and leave a memory in which either side reads the blocks as the map has them in the end.
pub Steps-Stored :
    (s t : Side) {k k' : Kernel} (r : Steps k k') (m : Memory)
    → AllFit r
    → view (declared t) m ≡ k.scb_map
    → Stored s (number r) k'.scb_map m
Steps-Stored s t r m fit mapped =
    let made = Steps-Made r fit in
    record {
      operations = made.operations;
      few = made.few;
      loaded = made.loaded;
      stored =
          view-operate_all s t made.operations m made.loaded
          ∙ ap (effect_all made.operations) mapped
          ∙ sym made.made;
    }

-- ===== src/Bench/Liar.antt =====
-- morpheus-bench/src/bin/liar.rs: a worker that sleeps inside critical sections, and the verdict.
use morpheus.Prelude.{
  ℕ, ◌+◌, ◌*◌, ◌^◌, ◌<◌, ◌≡◌, refl, ap, subst, ◌∙◌, inl, inr, Bool-cases, Bool, false, not, ◌&&◌,
  some, List, [], ◌∷◌, ltb, if◌then◌else◌, u64, arith,
}
use morpheus.Runtime.Worker.{Thread}
use morpheus.Runtime.Critical.{critical_section, drop, in_critical_section}
use morpheus.Runtime.Critical.Nesting.{Holds, Steps-Holds, take, give, here, next}
use morpheus.Kernel.State.{Kernel, Env, TaskCtx}
use morpheus.Kernel.Tick.{tick}
use morpheus.System.Shield.{guard-shields}

pub record Args : Type 0 where
  pub critical_duration_ms : ℕ
  pub iterations : ℕ
  pub without_critical : Bool

-- The counters, with the thread that runs the iterations. Nothing adds to `escalations`.
pub record Bench : Type 0 where
  pub thread : Thread
  pub escalations : ℕ
  pub critical_time : ℕ

unfoldable pub start : Thread → Bench
start t = record { thread = t; escalations = 0; critical_time = 0 }

-- The thread while an iteration sleeps, and after it.
unfoldable pub asleep : Args → Thread → Thread
unfolding critical_section
asleep args t = if args.without_critical then t else (critical_section t).0

unfoldable pub awake : Args → Thread → Thread
unfolding drop
awake args t = if args.without_critical then t else drop t

-- An iteration, with the time that it has taken.
unfoldable pub iteration : Args → (elapsed_us : ℕ) → Bench → Bench
unfolding asleep awake
iteration args elapsed_us b = record b {
  thread = awake args (asleep args b.thread);
  critical_time = u64 (b.critical_time + elapsed_us);
}

unfoldable pub iterations : Args → List ℕ → Bench → Bench
iterations args [] b = b
iterations args (elapsed_us ∷ rest) b = iterations args rest (iteration args elapsed_us b)

-- The product that the time is compared with.
unfoldable pub expected : Args → ℕ
expected args = u64 (u64 (args.critical_duration_ms * args.iterations) * 1000)

-- The exit code.
unfoldable pub verdict : Args → Bench → ℕ
verdict args b = if not args.without_critical && ltb 0 b.escalations then 1 else 0

abbrev sum : List ℕ → ℕ
sum [] = 0
sum (x ∷ xs) = x + sum xs

asleep-enters :
    (args : Args) (t : Thread)
    → args.without_critical ≡ false
    → asleep args t ≡ (critical_section t).0
unfolding asleep
asleep-enters args t with_sections = ground (arith, with_sections)

iteration-Holds :
    (args : Args) (us : ℕ) (b : Bench) → Holds 0 b.thread → Holds 0 (iteration args us b).thread
unfolding iteration asleep awake
iteration-Holds args us b h = elim (Bool-cases args.without_critical) [
  | inl without ↦ subst (λ u. Holds 0 u) (ground (arith, without)) h
  | inr with_sections ↦
      subst (λ u. Holds 0 u) (ground (arith, with_sections))
        (Steps-Holds (next (next here take) (give refl)) ((tt, omega arith), omega arith) h)
]

iterations-Holds :
    (args : Args) (times : List ℕ) (b : Bench)
    → Holds 0 b.thread
    → Holds 0 (iterations args times b).thread
unfolding iterations
iterations-Holds args [] b h = h
iterations-Holds args (us ∷ times) b h =
    iterations-Holds args times (iteration args us b) (iteration-Holds args us b h)

iterations-escalations :
    (args : Args) (times : List ℕ) (b : Bench)
    → (iterations args times b).escalations ≡ b.escalations
unfolding iterations iteration
iterations-escalations args [] b = refl
iterations-escalations args (us ∷ times) b = iterations-escalations args times (iteration args us b)

iterations-time :
    (args : Args) (times : List ℕ) (b : Bench)
    → b.critical_time + sum times < 2 ^ 64
    → (iterations args times b).critical_time ≡ b.critical_time + sum times
unfolding iterations iteration
iterations-time args [] b f = omega arith
iterations-time args (us ∷ times) b f =
    let ih = iterations-time args times (iteration args us b) in omega (arith, ih)

-- A worker thread that is in no critical section, with iterations that use them and whose times add
-- up to a 64-bit number. Before any iteration, after any number of them, the thread is in no
-- critical section; while it sleeps in the next one, no tick of its task kicks the CPU, whatever the
-- scheduler is set to; and the time that is reported is the sum of the times.
pub liar_shielded :
    (args : Args) (times : List ℕ) (t : Thread) (env : Env) (pid : ℕ) (k : Kernel) (tctx : TaskCtx)
    → Holds 0 t
    → args.without_critical ≡ false
    → sum times < 2 ^ 64
    → k.task_ctx_map pid ≡ some tctx
    → k.scb_map tctx.worker_id ≡ (asleep args (iterations args times (start t)).thread).scb
    → (in_critical_section (iterations args times (start t)).thread ≡ false)
      × ((tick env pid k).actions ≡ k.actions)
      × ((iterations args times (start t)).critical_time ≡ sum times)
unfolding in_critical_section start
liar_shielded args times t env pid k tctx h with_sections fits known shared =
    let b = iterations args times (start t) in
    let held = iterations-Holds args times (start t) h in
    (
      ground (arith, held.counted),
      guard-shields held (next here take) (tt, omega arith) env pid k tctx known
          (shared ∙ ap (λ (u : Thread). u.scb) (asleep-enters args b.thread with_sections)),
      iterations-time args times (start t) (omega arith) ∙ omega arith,
    )

-- The verdict is a pass whatever happens: nothing in the program adds to the counter that it tests.
pub verdict_passes :
    (args : Args) (times : List ℕ) (t : Thread) → verdict args (iterations args times (start t)) ≡ 0
unfolding verdict start
verdict_passes args times t = ground (arith, iterations-escalations args times (start t))

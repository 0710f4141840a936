-- ===== src/Bench/Latency/Orders.antt =====
-- The workers of latency.rs run at once: what is reported does not depend on how their operations
-- interleave.
use mathlib.Core.Logic.{∥∥₁_elim}
use mathlib.Core.List.{Perm, Permᴰ}
use mathlib.Core.List.Permᴰ
use mathlib.Core.List
use native.Mathlib.Nat.{ℕ_set}
use morpheus.Prelude.{ℕ, zero, suc, ◌≡◌, refl, ap, ◌∙◌, List, [], ◌∷◌, arith}
use morpheus.Runtime.Worker.{Thread}
use morpheus.Bench.Latency.{
  LatencyHistogram, Args, Shared, add_at, bucket_of, record_latency, operation, operations,
}

add_at_comm : (i j : ℕ) (cs : List ℕ) → add_at i (add_at j cs) ≡ add_at j (add_at i cs)
unfolding add_at
add_at_comm i j [] = refl
add_at_comm zero zero (c ∷ cs) = refl
add_at_comm zero (suc j) (c ∷ cs) = refl
add_at_comm (suc i) zero (c ∷ cs) = refl
add_at_comm (suc i) (suc j) (c ∷ cs) = ap (◌∷◌ c) (add_at_comm i j cs)

record_comm :
    (l m : ℕ) (h : LatencyHistogram)
    → record_latency l (record_latency m h) ≡ record_latency m (record_latency l h)
unfolding record_latency
record_comm l m h =
    ap (λ (cs : List ℕ). let h' : LatencyHistogram = record { buckets = cs } in h')
      (add_at_comm (bucket_of l) (bucket_of m) h.buckets)

operation_comm :
    (args : Args) (t u : Thread) (l m : ℕ) (s : Shared)
    → operation args t l (operation args u m s) ≡ operation args u m (operation args t l s)
unfolding operation
operation_comm args t u l m s = ground (arith, record_comm l m s.histogram)

operations-permᴰ :
    (args : Args) {os os' : List (Thread × ℕ)}
    → Permᴰ os os'
    → (s : Shared) → operations args os s ≡ operations args os' s
unfolding operations
operations-permᴰ args Permᴰ.nil s = refl
operations-permᴰ args (Permᴰ.cons {a} {l₂ = os'} e d) s =
    operations-permᴰ args d (operation args a.0 a.1 s)
    ∙ ap (λ (o : Thread × ℕ). operations args os' (operation args o.0 o.1 s)) e
operations-permᴰ args (Permᴰ.swap {a} {b} {l = os} e e') s =
    ap (operations args os) (operation_comm args b.0 a.0 b.1 a.1 s) ∙ cc
operations-permᴰ args (Permᴰ.trans d d') s = operations-permᴰ args d s ∙ operations-permᴰ args d' s

Shared-set : IsSet Shared
Shared-set = hlevel (List.is_set ℕ_set, ℕ_set)

-- The workers run at once, and their counters are atomic. Whatever operations are made, by threads in
-- whatever states: what the threads share in the end, and so all that is reported, is the same for
-- every order in which the operations come.
pub operations-perm :
    (args : Args) {os os' : List (Thread × ℕ)} (s : Shared)
    → Perm os os'
    → operations args os s ≡ operations args os' s
operations-perm args s p = ∥∥₁_elim p (Shared-set _ _) (λ d. operations-permᴰ args d s)

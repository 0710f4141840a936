-- ===== src/Bench/Latency/Operations.antt =====
-- What the workers of latency.rs leave in what they share.
use morpheus.Prelude.{ℕ, ◌+◌, ◌^◌, ◌≤◌, ◌<◌, ◌≡◌, refl, ◌∙◌, sym, List, [], ◌∷◌, length, arith}
use morpheus.Runtime.Worker.{Thread}
use morpheus.Bench.Latency.{total, Args, Shared, start, operation, operations}
use morpheus.Bench.Latency.Buckets.{sum_words-sum, Counts, new-Counts, record-Counts}

-- What the threads share agrees: every operation is a sample, and a yield is an operation.
record Agrees (ls : List ℕ) (s : Shared) : Type 0 where
  counts : Counts ls s.histogram
  ops : s.total_ops ≡ length ls
  yields : s.checkpoint_yields ≤ s.total_ops

operation-Agrees :
    (args : Args) (t : Thread) (l : ℕ) (ls : List ℕ) (s : Shared)
    → length ls + 1 < 2 ^ 64
    → Agrees ls s
    → Agrees (l ∷ ls) (operation args t l s)
unfolding operation
operation-Agrees args t l ls s f v = record {
  counts = record-Counts l ls s.histogram f v.counts;
  ops = ground (arith, v.ops);
  yields = ground (arith, v.ops, v.yields);
}

operations-Agrees :
    (args : Args) (os : List (Thread × ℕ)) (ls : List ℕ) (s : Shared)
    → length ls + length os < 2 ^ 64
    → Agrees ls s
    → (ls' : List ℕ) × (length ls' ≡ length ls + length os) × Agrees ls' (operations args os s)
unfolding operations
operations-Agrees args [] ls s f v = (ls, omega arith, v)
operations-Agrees args ((t, l) ∷ os) ls s f v =
    let (ls', e, w) =
      operations-Agrees args os (l ∷ ls) (operation args t l s) (omega arith)
        (operation-Agrees args t l ls s (omega arith) v) in
    (ls', omega arith, w)

-- Whatever the workers do, in whatever order their operations come, fewer than 2^64 of them: the
-- number of operations that is reported is the number of samples in the histogram, and no more
-- yields are reported than operations.
pub operations-total :
    (args : Args) (os : List (Thread × ℕ))
    → length os < 2 ^ 64
    → let s = operations args os start in
      (s.total_ops ≡ length os)
      × (total s.histogram ≡ s.total_ops)
      × (s.checkpoint_yields ≤ s.total_ops)
unfolding total start
operations-total args os f =
    let (ls, e, v) =
      operations-Agrees args os [] start (omega arith)
        (record { counts = new-Counts; ops = refl; yields = omega arith }) in
    let n : total (operations args os start).histogram ≡ length ls =
      sum_words-sum 0 (operations args os start).histogram.buckets (omega (arith, v.counts.all))
      ∙ omega (arith, v.counts.all) in
    (omega (arith, v.ops), n ∙ sym v.ops, v.yields)

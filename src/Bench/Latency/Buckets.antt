-- ===== src/Bench/Latency/Buckets.antt =====
-- The counts of the histogram of latency.rs: what a recorded latency adds, and to which bucket.
use morpheus.Prelude.{
  ℕ, zero, suc, ◌+◌, ◌^◌, ◌<◌, ◌≡◌, refl, ◌∙◌, ap, List, [], ◌∷◌, leb, if◌then◌else◌, length, add64,
  arith,
}
use morpheus.Bench.Latency.{
  LatencyHistogram, zeros, new, bucket_of, add_at, record_latency, sum_words,
}

-- The samples of a histogram, all of them and up to a bucket.
abbrev pub sum : List ℕ → ℕ
sum [] = 0
sum (c ∷ cs) = c + sum cs

abbrev pub prefix : ℕ → List ℕ → ℕ
prefix i [] = 0
prefix zero (c ∷ cs) = c
prefix (suc i) (c ∷ cs) = c + prefix i cs

-- The latencies that go into a bucket up to a given one.
abbrev pub at_most : ℕ → List ℕ → ℕ
at_most i [] = 0
at_most i (l ∷ ls) = (if leb (bucket_of l) i then 1 else 0) + at_most i ls

length-add_at : (b : ℕ) (cs : List ℕ) → length (add_at b cs) ≡ length cs
unfolding add_at
length-add_at b [] = refl
length-add_at zero (c ∷ cs) = refl
length-add_at (suc b) (c ∷ cs) = ap suc (length-add_at b cs)

sum-add_at :
    (b : ℕ) (cs : List ℕ) → b < length cs → sum cs + 1 < 2 ^ 64 → sum (add_at b cs) ≡ sum cs + 1
unfolding add_at
sum-add_at b [] h f = absurd (omega arith)
sum-add_at zero (c ∷ cs) h f = omega arith
sum-add_at (suc b) (c ∷ cs) h f = omega (arith, sum-add_at b cs (omega arith) (omega arith))

prefix-add_at :
    (b i : ℕ) (cs : List ℕ)
    → b < length cs
    → sum cs + 1 < 2 ^ 64
    → prefix i (add_at b cs) ≡ (if leb b i then 1 else 0) + prefix i cs
unfolding add_at
prefix-add_at b i [] h f = absurd (omega arith)
prefix-add_at zero zero (c ∷ cs) h f = ground arith
prefix-add_at zero (suc i) (c ∷ cs) h f = ground arith
prefix-add_at (suc b) zero (c ∷ cs) h f = ground arith
prefix-add_at (suc b) (suc i) (c ∷ cs) h f =
    ground (arith, prefix-add_at b i cs (omega arith) (omega arith))

pub sum_words-sum :
    (acc : ℕ) (cs : List ℕ) → acc + sum cs < 2 ^ 64 → sum_words acc cs ≡ acc + sum cs
unfolding sum_words
sum_words-sum acc [] f = omega arith
sum_words-sum acc (c ∷ cs) f =
    let e : add64 acc c ≡ acc + c = ground arith in
    rw e (sum_words-sum (acc + c) cs (omega arith) ∙ omega arith)

bucket_of-lt : (l : ℕ) → bucket_of l < 32
unfolding bucket_of
bucket_of-lt l = omega arith

-- A histogram with so many samples below each bound.
pub record Counts (ls : List ℕ) (h : LatencyHistogram) : Type 0 where
  pub size : length h.buckets ≡ 32
  pub all : sum h.buckets ≡ length ls
  pub below : (i : ℕ) → prefix i h.buckets ≡ at_most i ls

prefix-zeros : (i n : ℕ) → prefix i (zeros n) ≡ 0
unfolding zeros
prefix-zeros i zero = refl
prefix-zeros zero (suc n) = refl
prefix-zeros (suc i) (suc n) = omega (arith, prefix-zeros i n)

pub new-Counts : Counts [] new
unfolding new
new-Counts = record { size = refl; all = refl; below = λ i. prefix-zeros i 32 }

pub record-Counts :
    (l : ℕ) (ls : List ℕ) (h : LatencyHistogram)
    → length ls + 1 < 2 ^ 64
    → Counts ls h
    → Counts (l ∷ ls) (record_latency l h)
unfolding record_latency
record-Counts l ls h f c = record {
  size = length-add_at (bucket_of l) h.buckets ∙ c.size;
  all = omega (arith, sum-add_at (bucket_of l) h.buckets, bucket_of-lt l, c.all, c.size);
  below = λ i.
      prefix-add_at (bucket_of l) i h.buckets (omega (arith, bucket_of-lt l, c.size))
        (omega (arith, c.all))
      ∙ ap (λ n. (if leb (bucket_of l) i then 1 else 0) + n) (c.below i);
}

-- The latencies of a list, recorded from the last one to the first.
unfoldable pub record_all : List ℕ → LatencyHistogram
record_all [] = new
record_all (l ∷ ls) = record_latency l (record_all ls)

pub record_all-Counts : (ls : List ℕ) → length ls < 2 ^ 64 → Counts ls (record_all ls)
unfolding record_all
record_all-Counts [] f = new-Counts
record_all-Counts (l ∷ ls) f =
    record-Counts l ls (record_all ls) (omega arith) (record_all-Counts ls (omega arith))

-- ===== src/Bench/Latency/Quantiles.antt =====
-- What the histogram of latency.rs says about the latencies that were recorded.
use morpheus.Prelude.{
  ℕ, zero, suc, ◌+◌, ◌-◌, ◌/◌, ◌^◌, ◌≤◌, ◌<◌, ◌≡◌, refl, ◌∙◌, ap, ◌⊎◌, inl, inr, Bool, ◌||◌, List,
  [], ◌∷◌, ltb, leb, if◌then◌else◌, length, min, add64, arith, All,
}
use native.Mathlib.Nat.{pow-suc}
use native.Mathlib.Decide.{dec_le}
use morpheus.Bench.Latency.{LatencyHistogram, bit_length, bucket_of, total, find_bucket, percentile}
use morpheus.Bench.Latency.Buckets.{
  sum, prefix, at_most, sum_words-sum, Counts, record_all, record_all-Counts,
}

-- Whether one more than a latency is below the value that a bucket stands for, as the code adds one
-- before it takes the logarithm; the last bucket takes all.
abbrev pub within : (i latency_us : ℕ) → Bool
within i latency_us = leb 31 i || ltb (latency_us + 1) (2 ^ i)

abbrev pub count_within : ℕ → List ℕ → ℕ
count_within i [] = 0
count_within i (l ∷ ls) = (if within i l then 1 else 0) + count_within i ls

pow-pos : (i : ℕ) → 0 < 2 ^ i
pow-pos zero = omega arith
pow-pos (suc i) = omega (arith, pow-suc 2 i, pow-pos i)

bit_length-pow : (k x i : ℕ) → x < 2 ^ k → leb (bit_length k x) i ≡ ltb x (2 ^ i)
unfolding bit_length
bit_length-pow zero x i h = ground (arith, pow-pos i)
bit_length-pow (suc k) x zero h = ground (arith, pow-suc 2 k, bit_length-pow k (x / 2) zero)
bit_length-pow (suc k) x (suc i) h =
    ground (arith, pow-suc 2 k, pow-suc 2 i, pow-pos i, bit_length-pow k (x / 2) i)

leb-min : (b i : ℕ) → leb (min b 31) i ≡ (leb 31 i || leb b i)
leb-min b i = ground arith

bucket_of-bits : (l : ℕ) → l + 1 < 2 ^ 64 → bucket_of l ≡ min (bit_length 64 (l + 1)) 31
unfolding bucket_of
bucket_of-bits l f = let e : add64 l 1 ≡ l + 1 = omega arith in rw e refl

bucket_of-within : (i l : ℕ) → l + 1 < 2 ^ 64 → leb (bucket_of l) i ≡ within i l
bucket_of-within i l f =
    rw (bucket_of-bits l f)
      (leb-min (bit_length 64 (l + 1)) i ∙ ap (λ b. leb 31 i || b) (bit_length-pow 64 (l + 1) i f))

at_most-within :
    (i : ℕ) (ls : List ℕ) → All (λ l. l + 1 < 2 ^ 64) ls → at_most i ls ≡ count_within i ls
at_most-within i [] h = refl
at_most-within i (l ∷ ls) h = ground (arith, bucket_of-within i l h.0, at_most-within i ls h.1)

prefix-le : (i : ℕ) (cs : List ℕ) → prefix i cs ≤ sum cs
prefix-le i [] = omega arith
prefix-le zero (c ∷ cs) = omega arith
prefix-le (suc i) (c ∷ cs) = omega (arith, prefix-le i cs)

-- What is known of the bucket at which the loop stops: its place after the one it began with.
record Stops (i count target : ℕ) (cs : List ℕ) (j : ℕ) : Type 0 where
  inside : j < length cs
  result : find_bucket i count target cs ≡ 2 ^ (i + j)
  reached : target ≤ count + prefix j cs
  least : (j ≡ 0) ⊎ (count + prefix (j - 1) cs < target)

find_bucket-here :
    (i count target c : ℕ) (cs : List ℕ)
    → count + c < 2 ^ 64
    → target ≤ count + c
    → Stops i count target (c ∷ cs) 0
unfolding find_bucket
find_bucket-here i count target c cs f h = record {
  inside = omega arith;
  result = let e : i + 0 ≡ i = omega arith in rw e (ground arith);
  reached = h;
  least = inl refl;
}

find_bucket-later :
    (i count target c j : ℕ) (cs : List ℕ)
    → count + c < 2 ^ 64
    → count + c < target
    → Stops (suc i) (count + c) target cs j
    → Stops i count target (c ∷ cs) (suc j)
unfolding find_bucket
find_bucket-later i count target c j cs f h v = record {
  inside = omega (arith, v.inside);
  result =
      let e : i + suc j ≡ suc i + j = omega arith in
      let e' : add64 count c ≡ count + c = ground arith in rw e (rw e' (ground (arith, v.result)));
  reached = omega (arith, v.reached);
  least = inr (later j v.least);
}
  where
    later :
        (m : ℕ)
        → (m ≡ 0) ⊎ (count + c + prefix (m - 1) cs < target)
        → count + prefix (suc m - 1) (c ∷ cs) < target
    later zero l = omega arith
    later (suc m) (inl e) = absurd (omega arith)
    later (suc m) (inr less) =
        let e : suc (suc m) - 1 ≡ suc m = omega arith in
        let e' : suc m - 1 ≡ m = omega arith in rw e (omega (arith, ap (λ n. prefix n cs) e', less))

find_bucket-Stops :
    (i count target : ℕ) (cs : List ℕ)
    → count + sum cs < 2 ^ 64
    → target ≤ count + sum cs
    → 0 < length cs
    → (j : ℕ) × Stops i count target cs j
find_bucket-Stops i count target [] f h ne = absurd (omega arith)
find_bucket-Stops i count target (c ∷ []) f h ne =
    (0, find_bucket-here i count target c [] (omega arith) (omega arith))
find_bucket-Stops i count target (c ∷ c' ∷ cs) f h ne = elim (dec_le target (count + c)) [
  | yes le ↦ (0, find_bucket-here i count target c (c' ∷ cs) (omega arith) le)
  | no more ↦
      let (j, v) =
        find_bucket-Stops (suc i) (count + c) target (c' ∷ cs) (omega arith) (omega arith)
          (omega arith) in
      (suc j, find_bucket-later i count target c j (c' ∷ cs) (omega arith) (omega arith) v)
]

-- A power of two such that at least a number of the latencies are below it by more than one, where the
-- last of the 32 buckets takes every latency; for fewer than that number this holds of the power before
-- it, if there is one.
pub record IsQuantile (ls : List ℕ) (target q : ℕ) : Type 0 where
  pub bucket : ℕ
  pub inside : bucket < 32
  pub power : q ≡ 2 ^ bucket
  pub reached : target ≤ count_within bucket ls
  pub least : (bucket ≡ 0) ⊎ (count_within (bucket - 1) ls < target)

Stops-IsQuantile :
    (ls : List ℕ) (h : LatencyHistogram) (target j : ℕ)
    → Counts ls h
    → All (λ l. l + 1 < 2 ^ 64) ls
    → Stops 0 0 target h.buckets j
    → IsQuantile ls target (find_bucket 0 0 target h.buckets)
Stops-IsQuantile ls h target j c words v =
    let e : 0 + j ≡ j = omega arith in
    record {
      bucket = j;
      inside = omega (arith, v.inside, c.size);
      power = v.result ∙ ap (λ n. 2 ^ n) e;
      reached = omega (arith, v.reached, c.below j, at_most-within j ls words);
      least = before v.least;
    }
  where
    before :
        (j ≡ 0) ⊎ (0 + prefix (j - 1) h.buckets < target)
        → (j ≡ 0) ⊎ (count_within (j - 1) ls < target)
    before (inl none) = inl none
    before (inr less) = inr (omega (arith, less, c.below (j - 1), at_most-within (j - 1) ls words))

-- For latencies of fewer than 2^64 - 1 microseconds, fewer than 2^64 of them, and a target that is at
-- most their number: call a latency within a power of two if the latency plus one is below that power,
-- and every latency within 2^31. The percentile is the least of the powers from 2^0 to 2^31 that at least
-- as many latencies as the target are within: it is one of these powers, as many latencies are within
-- it, and fewer are within the power before it, if there is one.
pub percentile-record_all :
    (ls : List ℕ) (target_of : ℕ → ℕ)
    → All (λ l. l + 1 < 2 ^ 64) ls
    → length ls < 2 ^ 64
    → target_of (length ls) ≤ length ls
    → IsQuantile ls (target_of (length ls)) (percentile target_of (record_all ls))
unfolding percentile total
percentile-record_all ls target_of words fits le =
    let h = record_all ls in
    let c = record_all-Counts ls fits in
    let size : total h ≡ length ls =
      sum_words-sum 0 h.buckets (omega (arith, c.all)) ∙ omega (arith, c.all) in
    let (j, v) =
      find_bucket-Stops 0 0 (target_of (length ls)) h.buckets (omega (arith, c.all))
        (omega (arith, c.all)) (omega (arith, c.size)) in
    rw size (Stops-IsQuantile ls h (target_of (length ls)) j c words v)

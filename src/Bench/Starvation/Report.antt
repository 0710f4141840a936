-- ===== src/Bench/Starvation/Report.antt =====
-- What the report says of the latencies.
use morpheus.Prelude.{
  ℕ, zero, suc, ◌-◌, ◌*◌, ◌/◌, ◌^◌, ◌≤◌, ◌<◌, ◌≡◌, refl, ◌∙◌, ap, sym, subst, some, List, [], ◌∷◌,
  ltb, if◌then◌else◌, leb, ◌+◌, length, map, get_elem?, u64, arith, All,
}
use native.Mathlib.Decide.{dec_lt}
use morpheus.Bench.Starvation.{
  insert_sorted, sort, Percentiles, percentiles_of, percentiles, as_micros, complete, judge, report,
}

abbrev Sorted : List ℕ → Type 0
Sorted [] = Unit
Sorted (x ∷ xs) = All (λ y. x ≤ y) xs × Sorted xs

All-le : (x y : ℕ) (zs : List ℕ) → x ≤ y → All (λ z. y ≤ z) zs → All (λ z. x ≤ z) zs
All-le x y [] h a = tt
All-le x y (z ∷ zs) h a = (omega (arith, a.0), All-le x y zs h a.1)

insert_sorted-le :
    (x y : ℕ) (zs : List ℕ) → x ≤ y → All (λ z. x ≤ z) zs → All (λ z. x ≤ z) (insert_sorted y zs)
unfolding insert_sorted
insert_sorted-le x y [] h a = (h, tt)
insert_sorted-le x y (z ∷ zs) h a = ground (arith, insert_sorted-le x y zs h a.1)

insert_sorted-Sorted : (x : ℕ) (ys : List ℕ) → Sorted ys → Sorted (insert_sorted x ys)
unfolding insert_sorted
insert_sorted-Sorted x [] s = (tt, tt)
insert_sorted-Sorted x (y ∷ ys) s =
    ground (arith, insert_sorted-Sorted x ys s.1, insert_sorted-le y x ys, All-le x y ys)

sort-Sorted : (xs : List ℕ) → Sorted (sort xs)
unfolding sort
sort-Sorted [] = tt
sort-Sorted (x ∷ xs) = insert_sorted-Sorted x (sort xs) (sort-Sorted xs)

length-insert_sorted : (x : ℕ) (ys : List ℕ) → length (insert_sorted x ys) ≡ suc (length ys)
unfolding insert_sorted
length-insert_sorted x [] = refl
length-insert_sorted x (y ∷ ys) = ground (arith, length-insert_sorted x ys)

length-sort : (xs : List ℕ) → length (sort xs) ≡ length xs
unfolding sort
length-sort [] = refl
length-sort (x ∷ xs) = length-insert_sorted x (sort xs) ∙ ap suc (length-sort xs)

insert_sorted-All :
    (m x : ℕ) (ys : List ℕ) → All (λ z. z ≤ m) (insert_sorted x ys) → (x ≤ m) × All (λ z. z ≤ m) ys
unfolding insert_sorted
insert_sorted-All m x [] a = (a.0, tt)
insert_sorted-All m x (y ∷ ys) a = ground (arith, insert_sorted-All m x ys)

sort-All : (m : ℕ) (xs : List ℕ) → All (λ z. z ≤ m) (sort xs) → All (λ z. z ≤ m) xs
unfolding sort
sort-All m [] a = tt
sort-All m (x ∷ xs) a = let (h, rest) = insert_sorted-All m x (sort xs) a in (h, sort-All m xs rest)

-- The elements of a list at its indices.
get-some : (xs : List ℕ) (i : ℕ) → i < length xs → (x : ℕ) × (get_elem? xs i ≡ some x)
get-some [] i h = absurd (omega arith)
get-some (x ∷ xs) zero h = (x, refl)
get-some (x ∷ xs) (suc i) h = get-some xs i (omega arith)

get-All : (x y : ℕ) (xs : List ℕ) (i : ℕ) → All (λ z. x ≤ z) xs → get_elem? xs i ≡ some y → x ≤ y
get-All x y [] i a e = absurd cc
get-All x y (z ∷ xs) zero a e = ground (arith, a.0)
get-All x y (z ∷ xs) (suc i) a e = get-All x y xs i a.1 e

get-le :
    (xs : List ℕ) (i j x y : ℕ)
    → Sorted xs
    → i ≤ j
    → get_elem? xs i ≡ some x
    → get_elem? xs j ≡ some y
    → x ≤ y
get-le [] i j x y s h e e' = absurd cc
get-le (z ∷ xs) zero zero x y s h e e' = ground arith
get-le (z ∷ xs) zero (suc j) x y s h e e' = ground (arith, get-All z y xs j s.0 e')
get-le (z ∷ xs) (suc i) zero x y s h e e' = absurd (omega arith)
get-le (z ∷ xs) (suc i) (suc j) x y s h e e' = get-le xs i j x y s.1 (omega arith) e e'

last-All :
    (xs : List ℕ) (m : ℕ) → Sorted xs → get_elem? xs (length xs - 1) ≡ some m → All (λ z. z ≤ m) xs
last-All [] m s e = tt
last-All (x ∷ []) m s e = ground arith
last-All (x ∷ x' ∷ xs) m s e =
    let n : length (x ∷ x' ∷ xs) - 1 ≡ suc (length (x' ∷ xs) - 1) = omega arith in
    let rest = last-All (x' ∷ xs) m s.1 (ap (get_elem? (x ∷ x' ∷ xs)) (sym n) ∙ e) in
    (omega (arith, s.0, rest), rest)

-- How many are below a number, and how many at most that number.
abbrev below : ℕ → List ℕ → ℕ
below v [] = 0
below v (x ∷ xs) = (if ltb x v then 1 else 0) + below v xs

abbrev at_most : ℕ → List ℕ → ℕ
at_most v [] = 0
at_most v (x ∷ xs) = (if leb x v then 1 else 0) + at_most v xs

-- The number at a rank, counted from 0: no more than the rank are below it, and more are at most it.
pub record IsRanked (xs : List ℕ) (rank v : ℕ) : Type 0 where
  pub few_below : below v xs ≤ rank
  pub more_up_to : rank < at_most v xs

at_most-below : (w v : ℕ) (xs : List ℕ) → w < v → at_most w xs ≤ below v xs
at_most-below w v [] h = omega arith
at_most-below w v (x ∷ xs) h = ground (arith, at_most-below w v xs h)

-- No larger number has the same rank, so only one number has it.
pub IsRanked-unique : (xs : List ℕ) (rank v w : ℕ) → IsRanked xs rank v → IsRanked xs rank w → v ≤ w
IsRanked-unique xs rank v w a b = elim (dec_lt w v) [
  | yes less ↦ absurd (omega (arith, at_most-below w v xs less, a.few_below, b.more_up_to))
  | no more ↦ omega arith
]

counts-insert_sorted :
    (v x : ℕ) (ys : List ℕ)
    → (below v (insert_sorted x ys) ≡ below v (x ∷ ys))
      × (at_most v (insert_sorted x ys) ≡ at_most v (x ∷ ys))
unfolding insert_sorted
counts-insert_sorted v x [] = (refl, refl)
counts-insert_sorted v x (y ∷ ys) = ground (arith, counts-insert_sorted v x ys)

counts-sort :
    (v : ℕ) (xs : List ℕ) → (below v (sort xs) ≡ below v xs) × (at_most v (sort xs) ≡ at_most v xs)
unfolding sort
counts-sort v [] = (refl, refl)
counts-sort v (x ∷ xs) = omega (arith, counts-insert_sorted v x (sort xs), counts-sort v xs)

below-none : (v : ℕ) (xs : List ℕ) → All (λ z. v ≤ z) xs → below v xs ≡ 0
below-none v [] a = refl
below-none v (x ∷ xs) a = ground (arith, below-none v xs a.1, a.0)

get-IsRanked : (xs : List ℕ) (i v : ℕ) → Sorted xs → get_elem? xs i ≡ some v → IsRanked xs i v
get-IsRanked [] i v s e = absurd cc
get-IsRanked (x ∷ xs) zero v s e =
    let same : x ≡ v = ground (arith, e) in
    rw (sym same)
      (record { few_below = ground (arith, below-none x xs s.0); more_up_to = ground arith })
get-IsRanked (x ∷ xs) (suc i) v s e =
    let rest = get-IsRanked xs i v s.1 e in
    let first = get-All x v xs i s.0 e in
    record {
      few_below = ground (arith, rest.few_below);
      more_up_to = ground (arith, rest.more_up_to, first);
    }

sort-IsRanked : (xs : List ℕ) (rank v : ℕ) → IsRanked (sort xs) rank v → IsRanked xs rank v
sort-IsRanked xs rank v r = record {
  few_below = omega (arith, counts-sort v xs, r.few_below);
  more_up_to = omega (arith, counts-sort v xs, r.more_up_to);
}

-- A report on latencies in microseconds: the numbers at four ranks, in order, the last one the largest of
-- all.
pub record Reported (micros : List ℕ) (p : Percentiles) : Type 0 where
  pub median : IsRanked micros (length micros / 2) p.p50
  pub at_95 : IsRanked micros (length micros * 95 / 100) p.p95
  pub at_99 : IsRanked micros (length micros * 99 / 100) p.p99
  pub last : IsRanked micros (length micros - 1) p.max
  pub half : p.p50 ≤ p.p95
  pub tail : p.p95 ≤ p.p99
  pub top : p.p99 ≤ p.max
  pub largest : All (λ l. l ≤ p.max) micros

percentiles-at :
    (xs : List ℕ) (a b c d : ℕ)
    → length xs * 99 < 2 ^ 64
    → get_elem? xs (length xs / 2) ≡ some a
    → get_elem? xs (length xs * 95 / 100) ≡ some b
    → get_elem? xs (length xs * 99 / 100) ≡ some c
    → get_elem? xs (length xs - 1) ≡ some d
    → percentiles xs ≡ some (record { p50 = a; p95 = b; p99 = c; max = d })
unfolding percentiles percentiles_of
percentiles-at xs a b c d fits ea eb ec ed =
    let same_95 : u64 (length xs * 95) ≡ length xs * 95 = omega arith in
    let same_99 : u64 (length xs * 99) ≡ length xs * 99 = omega arith in
    rw (same_95, same_99, ea, eb, ec, ed) refl

Sorted-Reported :
    (xs : List ℕ)
    → Sorted xs
    → 0 < length xs
    → length xs * 99 < 2 ^ 64
    → (p : Percentiles) × (percentiles xs ≡ some p) × Reported xs p
Sorted-Reported xs s some_there fits =
    let n = length xs in
    let (a, ea) = get-some xs (n / 2) (omega arith) in
    let (b, eb) = get-some xs (n * 95 / 100) (omega arith) in
    let (c, ec) = get-some xs (n * 99 / 100) (omega arith) in
    let (d, ed) = get-some xs (n - 1) (omega arith) in
    (
      record { p50 = a; p95 = b; p99 = c; max = d },
      percentiles-at xs a b c d fits ea eb ec ed,
      record {
        median = get-IsRanked xs (n / 2) a s ea;
        at_95 = get-IsRanked xs (n * 95 / 100) b s eb;
        at_99 = get-IsRanked xs (n * 99 / 100) c s ec;
        last = get-IsRanked xs (n - 1) d s ed;
        half = get-le xs (n / 2) (n * 95 / 100) a b s (omega arith) ea eb;
        tail = get-le xs (n * 95 / 100) (n * 99 / 100) b c s (omega arith) eb ec;
        top = get-le xs (n * 99 / 100) (n - 1) c d s (omega arith) ec ed;
        largest = last-All xs d s ed;
      },
    )

sort-Reported : (xs : List ℕ) (p : Percentiles) → Reported (sort xs) p → Reported xs p
sort-Reported xs p r =
    let ranked = λ (rank : ℕ → ℕ) (v : ℕ) (h : IsRanked (sort xs) (rank (length (sort xs))) v).
      sort-IsRanked xs (rank (length xs)) v
        (subst (λ n. IsRanked (sort xs) (rank n) v) (length-sort xs) h) in
    record {
      median = ranked (λ n. n / 2) p.p50 r.median;
      at_95 = ranked (λ n. n * 95 / 100) p.p95 r.at_95;
      at_99 = ranked (λ n. n * 99 / 100) p.p99 r.at_99;
      last = ranked (λ n. n - 1) p.max r.last;
      half = r.half;
      tail = r.tail;
      top = r.top;
      largest = sort-All p.max xs r.largest;
    }

length-map : (f : ℕ → ℕ) (xs : List ℕ) → length (map f xs) ≡ length xs
length-map f [] = refl
length-map f (x ∷ xs) = ap suc (length-map f xs)

-- Where there are latencies, at most 2^64 / 99 of them, the report never indexes out of bounds: it
-- completes, and of the latencies in microseconds, cut to 64 bits, the numbers that it gives are those at
-- the ranks of a half, 95 and 99 hundredths of their number, rounded down, and at the last rank, where
-- the number at a rank is the one that at most so many latencies are below and more are not above. They
-- are in order, none is above the last one, and the exit code is 1 exactly if the third one exceeds ten
-- milliseconds.
pub report-Reported :
    (l : ℕ) (ls : List ℕ)
    → suc (length ls) * 99 < 2 ^ 64
    → (p : Percentiles) × (report (l ∷ ls) ≡ complete (some p) (if ltb 10_000 p.p99 then 1 else 0))
      × Reported (map as_micros (l ∷ ls)) p
unfolding report judge
report-Reported l ls fits =
    let micros = map as_micros (l ∷ ls) in
    let size : length (sort micros) ≡ suc (length ls) =
      length-sort micros ∙ ap suc (length-map as_micros ls) in
    let (p, found, reported) =
      Sorted-Reported (sort micros) (sort-Sorted micros) (omega (arith, size))
        (omega (arith, size)) in
    (p, ap judge found, sort-Reported micros p reported)

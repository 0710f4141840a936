-- ===== src/Bench/Starvation/Orders.antt =====
-- The good tasks of starvation.rs push their latencies under a lock, in any order.
use mathlib.Core.Logic.{∥∥₁_elim}
use mathlib.Core.List.{Perm, Permᴰ}
use mathlib.Core.List.Permᴰ
use mathlib.Core.List
use native.Mathlib.Nat.{ℕ_set}
use morpheus.Prelude.{ℕ, ◌≡◌, refl, ap, ◌∙◌, sym, none, List, [], ◌∷◌, map, arith}
use morpheus.Bench.Starvation.{
  insert_sorted, sort, percentiles, Outcome, complete, judge, report, as_micros,
}

insert_comm :
    (x y : ℕ) (xs : List ℕ)
    → insert_sorted x (insert_sorted y xs) ≡ insert_sorted y (insert_sorted x xs)
unfolding insert_sorted
insert_comm x y [] = ground arith
insert_comm x y (z ∷ xs) = ground (arith, insert_comm x y xs)

sort-permᴰ : {xs ys : List ℕ} → Permᴰ xs ys → sort xs ≡ sort ys
unfolding sort
sort-permᴰ Permᴰ.nil = refl
sort-permᴰ (Permᴰ.cons e d) = cc (sort-permᴰ d)
sort-permᴰ (Permᴰ.swap {a} {b} {l = xs} e e') = insert_comm a b (sort xs) ∙ cc
sort-permᴰ (Permᴰ.trans d d') = sort-permᴰ d ∙ sort-permᴰ d'

-- The report is one of the sorted latencies.
abbrev of_sorted : List ℕ → Outcome
of_sorted [] = complete none 0
of_sorted (x ∷ xs) = judge (percentiles (x ∷ xs))

of_insert :
    (x : ℕ) (xs : List ℕ)
    → of_sorted (insert_sorted x xs) ≡ judge (percentiles (insert_sorted x xs))
unfolding insert_sorted
of_insert x [] = refl
of_insert x (y ∷ ys) = ground arith

report-of_sorted : (ls : List ℕ) → report ls ≡ of_sorted (sort (map as_micros ls))
unfolding report sort
report-of_sorted [] = refl
report-of_sorted (l ∷ ls) = sym (of_insert (as_micros l) (sort (map as_micros ls)))

-- The report and the exit code are the same for every order in which the latencies were pushed.
pub report-perm : {ls ls' : List ℕ} → Perm ls ls' → report ls ≡ report ls'
report-perm {ls} {ls'} p =
    report-of_sorted ls
    ∙ ap of_sorted (∥∥₁_elim p (List.is_set ℕ_set _ _) (λ d. sort-permᴰ (Permᴰ.map as_micros d)))
    ∙ sym (report-of_sorted ls')

-- ===== src/Runtime/Metrics/Window.antt =====
-- The window of latency samples.
use mathlib.Core.List.{tail}
use morpheus.Prelude.{
  ℕ, zero, suc, ◌-◌, ◌≤◌, ◌<◌, ◌≡◌, refl, sym, ap, ◌∙◌, List, [], ◌∷◌, ◌++◌, length, length-append,
  length-drop, append_assoc, append-nil, drop, arith,
}
use native.Mathlib.Decide.{dec_le}
use morpheus.Runtime.Metrics.{push_sample}

unfoldable pub push_samples : List ℕ → List ℕ → List ℕ
push_samples [] samples = samples
push_samples (x ∷ xs) samples = push_samples xs (push_sample x samples)

-- The last 1000 of a list.
abbrev pub last_1000 : List ℕ → List ℕ
last_1000 xs = drop (length xs - 1000) xs

tail-drop : (n : ℕ) (xs : List ℕ) → tail (drop n xs) ≡ drop (suc n) xs
tail-drop zero [] = refl
tail-drop zero (x ∷ xs) = refl
tail-drop (suc n) [] = refl
tail-drop (suc n) (x ∷ xs) = tail-drop n xs

drop-append_le : (n : ℕ) (xs ys : List ℕ) → n ≤ length xs → drop n (xs ++ ys) ≡ drop n xs ++ ys
drop-append_le zero xs ys h = refl
drop-append_le (suc n) [] ys h = absurd (omega arith)
drop-append_le (suc n) (x ∷ xs) ys h = drop-append_le n xs ys (omega arith)

push_sample-full : (x : ℕ) (s : List ℕ) → 1000 ≤ length s → push_sample x s ≡ tail s ++ x ∷ []
unfolding push_sample
push_sample-full x s h = ground arith

push_sample-room : (x : ℕ) (s : List ℕ) → length s < 1000 → push_sample x s ≡ s ++ x ∷ []
unfolding push_sample
push_sample-room x s h = ground arith

push_sample-last_1000 :
    (x : ℕ) (xs : List ℕ) → push_sample x (last_1000 xs) ≡ last_1000 (xs ++ x ∷ [])
push_sample-last_1000 x xs = elim (dec_le 1000 (length xs)) [
  | yes full ↦
      let n : ℕ = length xs - 1000 in
      let more : length (xs ++ x ∷ []) - 1000 ≡ suc n = omega (arith, length-append xs (x ∷ [])) in
      push_sample-full x (last_1000 xs) (omega (arith, length-drop n xs))
      ∙ (ap (λ ys. ys ++ x ∷ []) (tail-drop n xs)
          ∙ (sym (drop-append_le (suc n) xs (x ∷ []) (omega arith))
              ∙ ap (λ k. drop k (xs ++ x ∷ [])) (sym more)))
  | no room ↦
      let here : length xs - 1000 ≡ 0 = omega arith in
      let there : length (xs ++ x ∷ []) - 1000 ≡ 0 = omega (arith, length-append xs (x ∷ [])) in
      ap (λ k. push_sample x (drop k xs)) here
      ∙ (push_sample-room x xs (omega arith) ∙ ap (λ k. drop k (xs ++ x ∷ [])) (sym there))
]

-- Of all latencies that were recorded for a worker, its samples are the last 1000 in order.
pub push_samples-last_1000 :
    (new : List ℕ) (old : List ℕ) → push_samples new (last_1000 old) ≡ last_1000 (old ++ new)
unfolding push_samples
push_samples-last_1000 [] old = rw append-nil
push_samples-last_1000 (x ∷ xs) old =
    ap (push_samples xs) (push_sample-last_1000 x old)
    ∙ (push_samples-last_1000 xs (old ++ x ∷ []) ∙ ap last_1000 (append_assoc old (x ∷ []) xs))

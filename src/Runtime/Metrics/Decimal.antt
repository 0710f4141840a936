-- ===== src/Runtime/Metrics/Decimal.antt =====
-- The numbers in the text of the metrics, read back.
use morpheus.Prelude.{
  ℕ, zero, suc, ◌+◌, ◌-◌, ◌*◌, ◌/◌, ◌%◌, ◌^◌, ◌<◌, ◌≤◌, ◌≡◌, ◌≢◌, refl, ◌∙◌, ap, some, [], ◌∷◌,
  arith,
}
use native.Mathlib.Decide.{dec_lt}
use morpheus.Prelude.Text.{Text, digits_value, number}
use morpheus.Runtime.Metrics.Render.{digits, display}

-- `n` has at most `k` digits.
abbrev Fits : ℕ → ℕ → Type 0
Fits zero n = n < 1
Fits (suc k) n = Fits k (n / 10)

abbrev power : ℕ → ℕ
power zero = 1
power (suc k) = power k * 10

below-Fits : (k n : ℕ) → n < power k → Fits k n
below-Fits zero n h = h
below-Fits (suc k) n h = below-Fits k (n / 10) (omega arith)

digits_value-digit :
    (a d : ℕ) (t : Text) → d < 10 → digits_value a ((d + 48) ∷ t) ≡ digits_value (a * 10 + d) t
digits_value-digit a d t h =
    let e : a * 10 + (d + 48 - 48) ≡ a * 10 + d = omega arith in ground (arith, e)

digits-small : (k n : ℕ) (t : Text) → n < 10 → digits (suc k) n t ≡ (n + 48) ∷ t
unfolding digits
digits-small k n t h = ground arith

digits-large :
    (k n : ℕ) (t : Text) → 10 ≤ n → digits (suc k) n t ≡ digits k (n / 10) ((n % 10 + 48) ∷ t)
unfolding digits
digits-large k n t h = ground arith

digits_value-digits :
    (k n : ℕ) (t : Text) → Fits k n → digits_value 0 (digits k n t) ≡ digits_value n t
unfolding digits
digits_value-digits zero n t f = let e : n ≡ 0 = omega arith in rw e refl
digits_value-digits (suc k) n t f = elim (dec_lt n 10) [
  | yes small ↦
      ap (digits_value 0) (digits-small k n t small)
      ∙ (digits_value-digit 0 n t small ∙ ap (λ a. digits_value a t) (omega arith))
  | no large ↦
      ap (digits_value 0) (digits-large k n t (omega arith))
      ∙ (digits_value-digits k (n / 10) ((n % 10 + 48) ∷ t) f
          ∙ (digits_value-digit (n / 10) (n % 10) t (omega arith)
              ∙ ap (λ a. digits_value a t) (omega arith)))
]

digits-ne-nil : (k n b : ℕ) (t : Text) → digits k n (b ∷ t) ≢ []
unfolding digits
digits-ne-nil zero n b t = λ e. cc
digits-ne-nil (suc k) n b t = elim (dec_lt n 10) [
  | yes small ↦ rw (digits-small k n (b ∷ t) small) (λ e. cc)
  | no large ↦
      rw (digits-large k n (b ∷ t) (omega arith)) (digits-ne-nil k (n / 10) (n % 10 + 48) (b ∷ t))
]

display-ne-nil : (n : ℕ) → display n ≢ []
unfolding display
display-ne-nil n = elim (dec_lt n 10) [
  | yes small ↦ rw (digits-small 19 n [] small) (λ e. cc)
  | no large ↦ rw (digits-large 19 n [] (omega arith)) (digits-ne-nil 19 (n / 10) (n % 10 + 48) [])
]

number-digits_value : (t : Text) → t ≢ [] → number t ≡ digits_value 0 t
number-digits_value [] h = absurd (h refl)
number-digits_value (b ∷ t) h = refl

-- The decimal digits that the metrics print for a 64-bit word read back as that word.
pub number-display : (n : ℕ) → n < 2 ^ 64 → number (display n) ≡ some n
unfolding display
number-display n fits =
    number-digits_value (display n) (display-ne-nil n)
    ∙ digits_value-digits 20 n [] (below-Fits 20 n (omega arith))

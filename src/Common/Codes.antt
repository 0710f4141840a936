-- ===== src/Common/Codes.antt =====
-- morpheus-common/src/lib.rs: the enums that have a conversion back from a word, each as a type of
-- words.
use std.Path.{transport, transport⁻¹}
use std.Equiv.{Iso, iso_to_equiv}
use std.Univalence.{ua, ua-β, ua-β⁻¹}
use mathlib.Core.HLevel.{Σ_prop_path, ×_prop}
use mathlib.Core.Option.{some-injective}
use native.Mathlib.Bridge.{le_prop}
use morpheus.Prelude.{ℕ, ◌≤◌, ◌≡◌, ◌↔◌, refl, sym, ap, ◌∙◌, ◌≢◌, subst, Option, none, some, arith}
use morpheus.Common.WorkerState.{WorkerState}
use morpheus.Common.WorkerState
use morpheus.Common.EscalationPolicy.{EscalationPolicy}
use morpheus.Common.EscalationPolicy
use morpheus.Common.YieldReason.{YieldReason}
use morpheus.Common.YieldReason
use morpheus.Common.HintReason.{HintReason}
use morpheus.Common.HintReason

-- The words from the first to the last.
abbrev pub Within : ℕ → ℕ → ℕ → Type 0
Within first last n = (first ≤ n) × (n ≤ last)

abbrev pub Word : ℕ → ℕ → Type 0
Word first last = (n : ℕ) × Within first last n

-- A type is the words from the first to the last, by a path along which it is converted, and the
-- conversion back goes the other way and fails on all other words.
pub record Coded (A : Type 0) (as_u32 : A → ℕ) (try_from : ℕ → Option A) (first last : ℕ)
    : Type 1 where
  pub same : A ≡ Word first last
  pub to_word : (x : A) → (transport same x).0 ≡ as_u32 x
  pub from_word : (w : Word first last) → try_from w.0 ≡ some (transport⁻¹ same w)
  pub others : (n : ℕ) → ¬ Within first last n → try_from n ≡ none

module _ {A : Type 0} (as_u32 : A → ℕ) (try_from : ℕ → Option A) (first last : ℕ)
    (try_from_iff : (n : ℕ) (x : A) → (try_from n ≡ some x) ↔ (as_u32 x ≡ n))
    (bounds : (x : A) → Within first last (as_u32 x))
    (reads : (n : ℕ) → first ≤ n → n ≤ last → try_from n ≢ none) where
  as_u32-injective : (x y : A) → as_u32 x ≡ as_u32 y → x ≡ y
  as_u32-injective x y e =
      some-injective _ _
        (sym ((try_from_iff (as_u32 y) x).1 e) ∙ (try_from_iff (as_u32 y) y).1 refl)

  word_path : (v w : Word first last) → v.0 ≡ w.0 → v ≡ w
  word_path v w e = Σ_prop_path {B = Within first last} (λ n. ×_prop le_prop le_prop) e

  as_code : (n : ℕ) (o : Option A) → try_from n ≡ o → o ≢ none → (x : A) × (as_u32 x ≡ n)
  as_code n none e h = absurd (h refl)
  as_code n (some x) e h = (x, (try_from_iff n x).0 e)

  abbrev decode : (w : Word first last) → (x : A) × (as_u32 x ≡ w.0)
  decode w = as_code w.0 (try_from w.0) refl (reads w.0 w.1.0 w.1.1)

  abbrev words : Iso A (Word first last)
  words = record {
    fun = λ x. (as_u32 x, bounds x);
    inv = λ w. (decode w).0;
    rinv = λ w. word_path _ w (decode w).1;
    linv = λ x. as_u32-injective _ x (decode (as_u32 x, bounds x)).1;
  }

  no_code : (n : ℕ) → ¬ Within first last n → (x : A) → as_u32 x ≢ n
  no_code n out x e = out (subst (Within first last) e (bounds x))

  only_none : (n : ℕ) (o : Option A) → try_from n ≡ o → ((x : A) → as_u32 x ≢ n) → o ≡ none
  only_none n none e h = refl
  only_none n (some x) e h = absurd (h x ((try_from_iff n x).0 e))

  coded : Coded A as_u32 try_from first last
  coded = record {
    same = ua (iso_to_equiv words);
    to_word = λ x. ap (λ (w : Word first last). w.0) (ua-β (iso_to_equiv words) x);
    from_word = λ w.
        (try_from_iff w.0 (decode w).0).1 (decode w).1
        ∙ ap some (sym (ua-β⁻¹ (iso_to_equiv words) w));
    others = λ n out. only_none n (try_from n) refl (no_code n out);
  }

worker_state-bounds : (x : WorkerState) → Within 0 4 (WorkerState.as_u32 x)
unfolding WorkerState.as_u32
worker_state-bounds x = ground arith

worker_state-reads : (n : ℕ) → 0 ≤ n → n ≤ 4 → WorkerState.try_from n ≢ none
unfolding WorkerState.try_from
worker_state-reads n low high = ground arith

escalation_policy-bounds : (x : EscalationPolicy) → Within 0 3 (EscalationPolicy.as_u32 x)
unfolding EscalationPolicy.as_u32
escalation_policy-bounds x = ground arith

escalation_policy-reads : (n : ℕ) → 0 ≤ n → n ≤ 3 → EscalationPolicy.try_from n ≢ none
unfolding EscalationPolicy.try_from
escalation_policy-reads n low high = ground arith

yield_reason-bounds : (x : YieldReason) → Within 0 5 (YieldReason.as_u32 x)
unfolding YieldReason.as_u32
yield_reason-bounds x = ground arith

yield_reason-reads : (n : ℕ) → 0 ≤ n → n ≤ 5 → YieldReason.try_from n ≢ none
unfolding YieldReason.try_from
yield_reason-reads n low high = ground arith

hint_reason-bounds : (x : HintReason) → Within 1 4 (HintReason.as_u32 x)
unfolding HintReason.as_u32
hint_reason-bounds x = ground arith

hint_reason-reads : (n : ℕ) → 1 ≤ n → n ≤ 4 → HintReason.try_from n ≢ none
unfolding HintReason.try_from
hint_reason-reads n low high = ground arith

-- The worker states are the words from 0 to 4, the escalation policies those from 0 to 3, the yield
-- reasons those from 0 to 5 and the hint reasons those from 1 to 4: each of the four types is equal
-- to its type of words, by a path along which a value is converted to its discriminant, and
-- `try_from` reads each of these words as the value at the other end of that path and fails on all
-- other words.
pub enums-Coded :
    Coded WorkerState WorkerState.as_u32 WorkerState.try_from 0 4
    × Coded EscalationPolicy EscalationPolicy.as_u32 EscalationPolicy.try_from 0 3
    × Coded YieldReason YieldReason.as_u32 YieldReason.try_from 0 5
    × Coded HintReason HintReason.as_u32 HintReason.try_from 1 4
enums-Coded = (
  coded WorkerState.as_u32 WorkerState.try_from 0 4 WorkerState.try_from_iff worker_state-bounds
      worker_state-reads,
  coded EscalationPolicy.as_u32 EscalationPolicy.try_from 0 3 EscalationPolicy.try_from_iff
      escalation_policy-bounds escalation_policy-reads,
  coded YieldReason.as_u32 YieldReason.try_from 0 5 YieldReason.try_from_iff yield_reason-bounds
      yield_reason-reads,
  coded HintReason.as_u32 HintReason.try_from 1 4 HintReason.try_from_iff hint_reason-bounds
      hint_reason-reads,
)

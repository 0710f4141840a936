-- ===== src/Runtime/Metrics.antt =====
-- morpheus-runtime/src/metrics.rs: the metrics collector. A hash map is an association list in the
-- order in which its iterator meets the entries; the locks are held for one operation each.
pub mod Counts
pub mod Window
pub mod Render
pub mod Decimal
pub mod Histogram
use Prim.Native.String.{String}
use mathlib.Core.List.{tail}
use morpheus.Prelude.{
  ℕ, ◌+◌, ◌&&◌, ◌≡◌, ◌↔◌, true, Option, none, some, List, [], ◌∷◌, ◌++◌, leb, if◌then◌else◌, add64,
  Eq, nat_eq, string_eq, lookup, insert, length, arith,
}

-- Counters by key.
abbrev pub Counters : Type 0 → Type 0
Counters K = List (K × ℕ)

pub pair_beq_iff {ℓ κ} :
    {A : Type ℓ} {B : Type κ} ⦃e : Eq A⦄ ⦃f : Eq B⦄ (p q : A × B)
    → ((e.beq p.0 q.0 && f.beq p.1 q.1) ≡ true) ↔ (p ≡ q)
pair_beq_iff ⦃e⦄ ⦃f⦄ p q = ground (arith, e.beq_iff p.0 q.0, f.beq_iff p.1 q.1)

instance abbrev pub pair_eq {ℓ κ} : {A : Type ℓ} {B : Type κ} ⦃e : Eq A⦄ ⦃f : Eq B⦄ → Eq (A × B)
pair_eq ⦃e⦄ ⦃f⦄ = record { beq = λ p q. e.beq p.0 q.0 && f.beq p.1 q.1; beq_iff = pair_beq_iff }

pub record MorpheusMetrics : Type 0 where
  pub hint_counts : Counters (ℕ × String)
  pub hint_drops : ℕ
  pub escalation_counts : Counters String
  pub defensive_mode_counts : Counters ℕ
  pub ack_latency_samples : List (ℕ × List ℕ)

unfoldable pub new : MorpheusMetrics
new = record {
  hint_counts = [];
  hint_drops = 0;
  escalation_counts = [];
  defensive_mode_counts = [];
  ack_latency_samples = [];
}

abbrev pub get_or {ℓ} : {A : Type ℓ} → Option A → A → A
get_or none a = a
get_or (some b) a = b

-- `entry(key).or_insert(0).fetch_add(1)`
unfoldable pub bump {ℓ} : {K : Type ℓ} ⦃e : Eq K⦄ → K → List (K × ℕ) → List (K × ℕ)
bump key counts = insert key (add64 (get_or (lookup key counts) 0) 1) counts

unfoldable pub record_hint : ℕ → String → MorpheusMetrics → MorpheusMetrics
unfolding bump
record_hint worker_id reason m = record m { hint_counts = bump (worker_id, reason) m.hint_counts }

unfoldable pub record_hint_drop : MorpheusMetrics → MorpheusMetrics
record_hint_drop m = record m { hint_drops = add64 m.hint_drops 1 }

unfoldable pub record_escalation : String → MorpheusMetrics → MorpheusMetrics
unfolding bump
record_escalation policy m = record m { escalation_counts = bump policy m.escalation_counts }

unfoldable pub record_defensive_mode : ℕ → MorpheusMetrics → MorpheusMetrics
unfolding bump
record_defensive_mode worker_id m = record m {
  defensive_mode_counts = bump worker_id m.defensive_mode_counts;
}

-- Keep the last 1000 samples.
unfoldable pub push_sample : ℕ → List ℕ → List ℕ
push_sample latency_ns samples =
    (if leb 1000 (length samples) then tail samples else samples) ++ latency_ns ∷ []

unfoldable pub record_ack_latency : ℕ → ℕ → MorpheusMetrics → MorpheusMetrics
unfolding push_sample
record_ack_latency worker_id latency_ns m = record m {
  ack_latency_samples =
      insert worker_id (push_sample latency_ns (get_or (lookup worker_id m.ack_latency_samples) []))
        m.ack_latency_samples;
}

-- ===== src/Controller/Metrics.antt =====
-- internal/controller/metrics.go: the gauges and the counters of the controller.
pub mod Counts
pub mod Once
use agentic_autoscaler.Prelude.{
  ℕ, ◌+◌, ℤ, pos, String, str_eq, str_eq_iff, Option, some, none, List, [], ◌∷◌, Bool, ◌&&◌, true,
  ◌≡◌, ◌↔◌, MapKey, text_key, arith,
}
use agentic_autoscaler.Go.Float.{Float64}
use agentic_autoscaler.Go.Map.{Map, lookup, insert}
use agentic_autoscaler.Api.{NamespacedName, name_key, same_name, same_name_iff}
use agentic_autoscaler.Classifier.Classify.{
  pattern_flat, pattern_periodic, pattern_spiky, pattern_gradual_ramp, pattern_default,
}
use agentic_autoscaler.Controller.World.{Effect}

-- The labels of mScaleEventsTotal.
pub record EventLabels : Type 0 where
  pub key : NamespacedName
  pub reason : String

abbrev pub same_labels : EventLabels → EventLabels → Bool
same_labels a b = same_name a.key b.key && str_eq a.reason b.reason

pub same_labels_iff : (a b : EventLabels) → (same_labels a b ≡ true) ↔ (a ≡ b)
same_labels_iff a b = ground (arith, same_name_iff a.key b.key, str_eq_iff a.reason b.reason)

instance abbrev pub labels_key : MapKey EventLabels
labels_key = record { equal = same_labels; equal_iff = same_labels_iff }

-- The collectors, by the values of their labels. One that was never written has no entry.
pub record Metrics {ℓ} (F : Type ℓ) : Type ℓ where
  pub predicted_rps : Map NamespacedName F
  pub current_rps : Map NamespacedName F
  pub rps_per_pod : Map NamespacedName F
  pub events_total : Map EventLabels ℕ
  pub classified_pattern : Map NamespacedName ℕ
  pub classified_confidence : Map NamespacedName ℕ
  pub forecast_failures_total : Map NamespacedName ℕ
  pub metrics_unavailable_total : Map NamespacedName ℕ

-- The numbers are whole; the gauges hold them as float64.
abbrev pub pattern_enum : Map String ℕ
pattern_enum =
    ("", 0)
    ∷ (pattern_default, 0)
    ∷ (pattern_flat, 1)
    ∷ (pattern_periodic, 2)
    ∷ (pattern_spiky, 3)
    ∷ (pattern_gradual_ramp, 4)
    ∷ []

abbrev pub confidence_enum : Map String ℕ
confidence_enum = ("low", 0) ∷ ("medium", 1) ∷ ("high", 2) ∷ []

-- WithLabelValues(...).Inc()
abbrev pub count_of {ℓ} : {K : Type ℓ} ⦃e : MapKey K⦄ → K → Map K ℕ → ℕ
count_of k m = elim (lookup k m) [ none ↦ 0 | some n ↦ n ]

unfoldable pub increment {ℓ} : {K : Type ℓ} ⦃e : MapKey K⦄ → K → Map K ℕ → Map K ℕ
unfolding lookup insert
increment k m = insert k (count_of k m + 1) m

abbrev pub set_known : NamespacedName → Option ℕ → Map NamespacedName ℕ → Map NamespacedName ℕ
set_known key none m = m
set_known key (some v) m = insert key v m

module _ {ℓ} {F : Type ℓ} where
  unfoldable pub observe_reconcile : NamespacedName → String → F → F → F → Metrics F → Metrics F
  unfolding increment
  observe_reconcile key reason current predicted per_pod m = record m {
    current_rps = insert key current m.current_rps;
    predicted_rps = insert key predicted m.predicted_rps;
    rps_per_pod = insert key per_pod m.rps_per_pod;
    events_total = increment (record { key = key; reason = reason }) m.events_total;
  }

  unfoldable pub observe_classification : NamespacedName → String → String → Metrics F → Metrics F
  unfolding lookup insert
  observe_classification key pattern_name confidence m = record m {
    classified_pattern = set_known key (lookup pattern_name pattern_enum) m.classified_pattern;
    classified_confidence =
        set_known key (lookup confidence confidence_enum) m.classified_confidence;
  }

  unfoldable pub observe_forecast_failure : NamespacedName → Metrics F → Metrics F
  unfolding increment
  observe_forecast_failure key m = record m {
    forecast_failures_total = increment key m.forecast_failures_total;
  }

  unfoldable pub observe_metrics_unavailable : NamespacedName → Metrics F → Metrics F
  unfolding increment
  observe_metrics_unavailable key m = record m {
    metrics_unavailable_total = increment key m.metrics_unavailable_total;
  }

module _ {ℓ κ} {F : Type ℓ} {T : Type κ} where
  -- What the calls of a reconcile do to the collectors.
  unfoldable pub collect : List (Effect F T) → Metrics F → Metrics F
  unfolding observe_reconcile observe_classification observe_forecast_failure
      observe_metrics_unavailable
  collect [] m = m
  collect (Effect.observe_reconcile key reason current predicted per_pod ∷ es) m =
      collect es (observe_reconcile key reason current predicted per_pod m)
  collect (Effect.observe_classification key pattern_name confidence ∷ es) m =
      collect es (observe_classification key pattern_name confidence m)
  collect (Effect.observe_forecast_failure key ∷ es) m = collect es (observe_forecast_failure key m)
  collect (Effect.observe_metrics_unavailable key ∷ es) m =
      collect es (observe_metrics_unavailable key m)
  collect (_ ∷ es) m = collect es m

-- ===== src/Controller/Metrics/Counts.antt =====
-- What the counters count.
use agentic_autoscaler.Prelude.{
  ℕ, ◌+◌, String, str_eq, List, [], ◌∷◌, ◌≡◌, MapKey, ◌==◌, arith, if◌then◌else◌,
}
use agentic_autoscaler.Go.Map.{Map, lookup-insert}
use agentic_autoscaler.Api.{NamespacedName, name_key}
use agentic_autoscaler.Controller.World.{Effect}
use agentic_autoscaler.Controller.Metrics.{
  labels_key, Metrics, count_of, increment, observe_reconcile, observe_classification,
  observe_forecast_failure, observe_metrics_unavailable, collect,
}

count_of-increment {ℓ} :
    {K : Type ℓ} ⦃e : MapKey K⦄ (k j : K) (m : Map K ℕ)
    → count_of j (increment k m) ≡ count_of j m + (if j == k then 1 else 0)
unfolding increment
count_of-increment ⦃e⦄ k j m =
    ground (arith, lookup-insert k j (count_of k m + 1) m, e.equal_iff j k)

module _ {ℓ κ} {F : Type ℓ} {T : Type κ} where
  -- How often the calls report, for the resource `j`, a decision for the reason, a failed forecast,
  -- and missing metrics.
  abbrev pub decisions : NamespacedName → String → List (Effect F T) → ℕ
  decisions j reason [] = 0
  decisions j reason (Effect.observe_reconcile key r current predicted per_pod ∷ es) =
      (if j == key then (if str_eq reason r then 1 else 0) else 0) + decisions j reason es
  decisions j reason (_ ∷ es) = decisions j reason es

  abbrev pub failures : NamespacedName → List (Effect F T) → ℕ
  failures j [] = 0
  failures j (Effect.observe_forecast_failure key ∷ es) =
      (if j == key then 1 else 0) + failures j es
  failures j (_ ∷ es) = failures j es

  abbrev pub outages : NamespacedName → List (Effect F T) → ℕ
  outages j [] = 0
  outages j (Effect.observe_metrics_unavailable key ∷ es) =
      (if j == key then 1 else 0) + outages j es
  outages j (_ ∷ es) = outages j es

  abbrev pub Counts : NamespacedName → String → List (Effect F T) → Metrics F → Metrics F → Type 0
  Counts j reason es before after =
      (count_of (record { key = j; reason = reason }) after.events_total
        ≡ count_of (record { key = j; reason = reason }) before.events_total
          + decisions j reason es)
      × (count_of j after.forecast_failures_total
          ≡ count_of j before.forecast_failures_total + failures j es)
      × (count_of j after.metrics_unavailable_total
          ≡ count_of j before.metrics_unavailable_total + outages j es)

  -- After the calls of a reconcile the counters of a resource have grown by the number of reports
  -- with its labels among the calls.
  pub collect-Counts :
      (j : NamespacedName) (reason : String) (es : List (Effect F T)) (m : Metrics F)
      → Counts j reason es m (collect es m)
  unfolding collect observe_reconcile observe_classification observe_forecast_failure
      observe_metrics_unavailable
  collect-Counts j reason [] m = ground arith
  collect-Counts j reason (Effect.observe_reconcile key r current predicted per_pod ∷ es) m =
      ground (
        arith,
        collect-Counts j reason es (observe_reconcile key r current predicted per_pod m),
        count_of-increment (record { key = key; reason = r }) (record { key = j; reason = reason })
            m.events_total,
      )
  collect-Counts j reason (Effect.observe_forecast_failure key ∷ es) m = ground (
    arith,
    collect-Counts j reason es (observe_forecast_failure key m),
    count_of-increment key j m.forecast_failures_total,
  )
  collect-Counts j reason (Effect.observe_metrics_unavailable key ∷ es) m = ground (
    arith,
    collect-Counts j reason es (observe_metrics_unavailable key m),
    count_of-increment key j m.metrics_unavailable_total,
  )
  collect-Counts j reason (Effect.observe_classification key p c ∷ es) m =
      collect-Counts j reason es (observe_classification key p c m)
  collect-Counts j reason (_ ∷ es) m = collect-Counts j reason es m

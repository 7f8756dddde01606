-- ===== src/Controller/Metrics/Once.antt =====
-- A reconcile is counted at most once, and for its resource.
use agentic_autoscaler.Prelude.{
  ℕ, ◌+◌, ◌≤◌, String, List, [], ◌∷◌, true, false, ◌≡◌, refl, ◌==◌, arith,
}
use agentic_autoscaler.Go.Float.{Float64}
use agentic_autoscaler.Go.Time.{GoTime}
use agentic_autoscaler.Api.{NamespacedName, name_key, same_name_iff, AgenticAutoscaler}
use agentic_autoscaler.Decision.Store.{StateStore}
use agentic_autoscaler.Controller.World.{Env, Effect, Fetched, Flow, World}
use agentic_autoscaler.Controller.Steps.{Reconciler}
use agentic_autoscaler.Controller.Reconcile.{run}
use agentic_autoscaler.Controller.Calls.{Stage, Call, Follows, is_early, is_planned}
use agentic_autoscaler.Controller.Order.{EndsWell, run-Follows}
use agentic_autoscaler.Controller.Metrics.{labels_key, Metrics, count_of, collect}
use agentic_autoscaler.Controller.Metrics.Counts.{
  Counts, collect-Counts, decisions, failures, outages,
}

-- Decisions, failed forecasts and outages.
abbrev pub reports {ℓ κ} : {F : Type ℓ} {T : Type κ} → List (Effect F T) → ℕ
reports [] = 0
reports (Effect.observe_reconcile key reason current predicted per_pod ∷ es) = 1 + reports es
reports (Effect.observe_forecast_failure key ∷ es) = 1 + reports es
reports (Effect.observe_metrics_unavailable key ∷ es) = 1 + reports es
reports (_ ∷ es) = reports es

-- How many of them may follow a stage.
abbrev reports_left : Stage → ℕ
reports_left Stage.closed = 0
reports_left Stage.halted = 0
reports_left (Stage.counted reason o) = 0
reports_left (Stage.labelled reason o) = 0
reports_left (Stage.explained reason n) = 0
reports_left _ = 1

early_left : (a : Stage) → is_early a ≡ true → reports_left a ≡ 1
early_left a h = ground arith

planned_left : (a : Stage) → is_planned a ≡ true → reports_left a ≡ 1
planned_left a h = ground arith

module _ {F : Type 0} where
  -- The counters of `j` are as they were.
  abbrev pub IsUncounted : NamespacedName → String → Metrics F → Metrics F → Type 0
  IsUncounted j reason before after =
      (count_of (record { key = j; reason = reason }) after.events_total
        ≡ count_of (record { key = j; reason = reason }) before.events_total)
      × (count_of j after.forecast_failures_total ≡ count_of j before.forecast_failures_total)
      × (count_of j after.metrics_unavailable_total ≡ count_of j before.metrics_unavailable_total)

module _ {F T : Type 0} (k : NamespacedName) where
  Call-reports :
      {a b : Stage} (e : Effect F T)
      → Call k a e b
      → reports (e ∷ []) + reports_left b ≤ reports_left a
  Call-reports e (Call.halts a s early phase) = omega (arith, early_left a early)
  Call-reports e (Call.measures a q early) = omega (arith, early_left a early)
  Call-reports e (Call.patches a n planned) = omega (arith, planned_left a planned)
  Call-reports e (Call.tells_hold a reason message planned) = omega (arith, planned_left a planned)
  Call-reports e _ = omega arith

  reports-cons :
      (e : Effect F T) (es : List (Effect F T)) → reports (e ∷ es) ≡ reports (e ∷ []) + reports es
  reports-cons e es = ground arith

  Follows-reports :
      (a b : Stage) (es : List (Effect F T)) → Follows k a es b → reports es ≤ reports_left a
  Follows-reports a b [] same = omega arith
  Follows-reports a b (e ∷ es) (c, call, rest) =
      omega (arith, reports-cons e es, Call-reports e call, Follows-reports c b es rest)

  -- The reports for `j` among the calls, one of them with the reason.
  abbrev IsSilent : NamespacedName → String → List (Effect F T) → Type 0
  IsSilent j reason es = (decisions j reason es ≡ 0) × (failures j es ≡ 0) × (outages j es ≡ 0)

  Call-IsSilent :
      {a b : Stage} (j : NamespacedName) (reason : String) (e : Effect F T) (es : List (Effect F T))
      → (j == k) ≡ false
      → Call k a e b
      → IsSilent j reason es
      → IsSilent j reason (e ∷ es)
  Call-IsSilent j reason e es other (Call.counts_outage key same) rest =
      ground (arith, same_name_iff j key, same_name_iff j k)
  Call-IsSilent j reason e es other (Call.counts_failure key same) rest =
      ground (arith, same_name_iff j key, same_name_iff j k)
  Call-IsSilent j reason e es other (Call.counts key why o x y z same) rest =
      ground (arith, same_name_iff j key, same_name_iff j k)
  Call-IsSilent j reason e es other _ rest = rest

  Follows-IsSilent :
      (a b : Stage) (j : NamespacedName) (reason : String) (es : List (Effect F T))
      → (j == k) ≡ false
      → Follows k a es b
      → IsSilent j reason es
  Follows-IsSilent a b j reason [] other same = (refl, refl, refl)
  Follows-IsSilent a b j reason (e ∷ es) other (c, call, rest) =
      Call-IsSilent j reason e es other call (Follows-IsSilent c b j reason es other rest)

  silent-IsUncounted :
      (j : NamespacedName) (reason : String) (es : List (Effect F T)) (before after : Metrics F)
      → Counts j reason es before after
      → IsSilent j reason es
      → IsUncounted j reason before after
  silent-IsUncounted j reason es before after counts silent = omega (arith, counts, silent)

  -- What the calls of a reconcile of `k` do to the counters.
  abbrev pub CountsOnce : String → List (Effect F T) → Metrics F → Metrics F → Type 0
  CountsOnce reason es before after =
      (reports es ≤ 1)
      × Counts k reason es before after
      × ((j : NamespacedName) → (j == k) ≡ false → IsUncounted j reason before after)

  ends-CountsOnce :
      (reason : String) (m : Metrics F) (p : Flow (Unit {0}) × World F T)
      → EndsWell k p
      → CountsOnce reason p.1.effects m (collect p.1.effects m)
  ends-CountsOnce reason m (Flow.next v, w) never = absurd never
  ends-CountsOnce reason m (Flow.stop e, w) (b, path, ends) = (
    Follows-reports Stage.opened b w.effects path,
    collect-Counts k reason w.effects m,
    λ j other.
        silent-IsUncounted j reason w.effects m (collect w.effects m)
          (collect-Counts j reason w.effects m)
          (Follows-IsSilent Stage.opened b j reason w.effects other path),
  )

module _ {F : Type 0} ⦃f : Float64 F⦄ {T : Type 0} ⦃t : GoTime T⦄ where
  -- If the API server answers with the resource that was asked for: whatever else is answered, a
  -- reconcile reports at most one decision, failed forecast or outage; the counters of its resource
  -- grow by the reports of their kind with its labels, and for a decision of its reason, and those of
  -- every other resource stay as they are.
  pub run-CountsOnce :
      (r : Reconciler F) (env : Env F T) (key : NamespacedName) (reason : String)
      (s : StateStore NamespacedName F T) (m : Metrics F)
      → ((aas : AgenticAutoscaler F T) → env.get_resource ≡ Fetched.found aas → aas.key ≡ key)
      → let es = (run r env key (record { store = s; effects = [] })).1.effects in
        CountsOnce key reason es m (collect es m)
  run-CountsOnce r env key reason s m named =
      ends-CountsOnce key reason m _ (run-Follows r env key s named)

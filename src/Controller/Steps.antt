-- ===== src/Controller/Steps.antt =====
-- internal/controller/agenticautoscaler_controller.go: the steps of a reconcile that call out.
use agentic_autoscaler.Prelude.{
  pos, ◌-ℤ◌, String, str_eq, concat, some, none, List, [], ◌∷◌, Bool, not, ◌||◌, if◌then◌else◌,
  length, ltb_ℤ,
}
use agentic_autoscaler.Go.Float.{Float64}
use agentic_autoscaler.Go.Time.{GoTime, minute}
use agentic_autoscaler.Api.{
  NamespacedName, name_key, Status, AgenticAutoscaler, phase_disabled, phase_conflict,
}
use agentic_autoscaler.Adapters.{Fallible, ok, err, RecommendRequest, RecommendResponse}
use agentic_autoscaler.Config.{Config}
use agentic_autoscaler.Promql.{instant_rps, range_rps}
use agentic_autoscaler.Reasoning
use agentic_autoscaler.Decision.Params.{EffectiveParams}
use agentic_autoscaler.Decision.Store.{delete_state}
use agentic_autoscaler.Controller.World.{
  Env, Effect, Ending, Fetched, Formats, M, pure, stop_with, perform, ◌>>=◌, ◌>>◌, get_store,
  put_store, when,
}
use agentic_autoscaler.Controller.Inputs.{
  annotation, find_conflicting_hpa, build_forecast_context, values_of,
}

-- The fields of AgenticAutoscalerReconciler that hold data: the configuration, whether a classifier
-- manager is wired, and the formats.
pub record Reconciler {ℓ} (F : Type ℓ) : Type ℓ where
  pub config : Config F
  pub has_classifier : Bool
  pub formats : Formats F

module _ {ℓ κ} {F : Type ℓ} ⦃f : Float64 F⦄ {T : Type κ} ⦃t : GoTime T⦄ (r : Reconciler F)
    (env : Env F T) where
  unfoldable pub requeue_interval : Ending
  requeue_interval = Ending.requeue r.config.reconcile_interval

  unfoldable pub warn : String → String → M F T (Unit {0})
  warn token message = perform (
      Effect.emit_event "Warning" (Reasoning.pascal_reason token)
        (concat (token ∷ ": " ∷ message ∷ [])))

  -- r.Status().Update: an error ends the reconcile with that error.
  unfoldable pub update_status : Status F T → M F T (Unit {0})
  update_status s = do
    perform (Effect.write_status s)
    elim (env.update_status s) [ none ↦ pure tt | some e ↦ stop_with (Ending.failed e) ]

  -- The resource is gone: forget its state and stop its worker.
  unfoldable pub forget : NamespacedName → M F T (Unit {0})
  forget key = do
    s ← get_store
    put_store (delete_state s key)
    when r.has_classifier (perform (Effect.stop_worker key))
    stop_with Ending.done

  unfoldable pub fetch : NamespacedName → M F T (AgenticAutoscaler F T)
  fetch key = elim env.get_resource [
    | Fetched.found aas ↦ pure aas
    | Fetched.not_found ↦ do forget key; stop_with Ending.done
    | Fetched.failed e ↦ stop_with (Ending.failed e)
  ]

  unfoldable pub cold_path : NamespacedName → AgenticAutoscaler F T → M F T (Unit {0})
  cold_path key aas = when r.has_classifier (do
    perform (Effect.ensure_worker aas.key)
    when (str_eq (annotation Reasoning.annotation_reclassify aas.annotations) "true")
        (perform (Effect.signal_reclassify key)))

  unfoldable pub handle_kill_switch : AgenticAutoscaler F T → M F T (Unit {0})
  handle_kill_switch aas = do
    when (not (str_eq aas.status.phase phase_disabled)) (do
      update_status (record aas.status { phase = phase_disabled })
      warn Reasoning.kill_switched "kill-switch annotation present; controller paused")
    stop_with requeue_interval

  unfoldable pub handle_conflict : AgenticAutoscaler F T → String → M F T (Unit {0})
  handle_conflict aas hpa_name = do
    let reason =
        concat ("HPA " ∷ r.formats.quoted hpa_name ∷ " already manages this Deployment" ∷ [])
    when
        (not (str_eq aas.status.phase phase_conflict)
          || not (str_eq aas.status.conflict_reason reason))
        (do
          update_status (record aas.status { phase = phase_conflict; conflict_reason = reason })
          warn Reasoning.conflict_detected reason)
    stop_with requeue_interval

  unfoldable pub check_conflict : AgenticAutoscaler F T → M F T (Unit {0})
  check_conflict aas = elim env.list_hpas [
    | err e ↦ stop_with (Ending.failed e)
    | ok hpas ↦ elim (find_conflicting_hpa aas.spec hpas) [
      | none ↦ pure tt
      | some hpa_name ↦ handle_conflict aas hpa_name
    ]
  ]

  -- Pre-checks 1a to 1c.
  unfoldable pub pre_checks : AgenticAutoscaler F T → M F T (Unit {0})
  pre_checks aas = do
    when (str_eq (annotation Reasoning.annotation_kill_switch aas.annotations) "true")
        (handle_kill_switch aas)
    when aas.being_deleted (stop_with Ending.done)
    check_conflict aas

  unfoldable pub metrics_unavailable {ι} : {A : Type ι} → NamespacedName → String → M F T A
  metrics_unavailable key message = do
    warn Reasoning.metrics_unavailable message
    perform (Effect.observe_metrics_unavailable key)
    stop_with requeue_interval

  unfoldable pub or_metrics_unavailable {ι} : {A : Type ι} → NamespacedName → Fallible A → M F T A
  or_metrics_unavailable key (ok a) = pure a
  or_metrics_unavailable key (err e) = metrics_unavailable key e

  -- Step 2: the current rate and the history.
  unfoldable pub read_metrics : AgenticAutoscaler F T → M F T (F × List F)
  read_metrics aas = do
    let name = aas.spec.target_ref.name
    perform (Effect.query_instant (instant_rps name))
    current_rps ← or_metrics_unavailable aas.key (env.instant_query (instant_rps name))
    let start = t.add env.now_history (pos 0 -ℤ r.config.hot_path_history)
    perform (Effect.query_range (range_rps name) start env.now_history minute)
    samples ←
        or_metrics_unavailable aas.key
          (env.range_query (range_rps name) start env.now_history minute)
    when (ltb_ℤ (pos (length samples)) r.config.hot_path_min_points) (
        metrics_unavailable aas.key (
          concat (
            "only "
            ∷ r.formats.int (pos (length samples))
            ∷ " range samples (need "
            ∷ r.formats.int r.config.hot_path_min_points
            ∷ ")"
            ∷ [])))
    pure (current_rps, values_of samples)

  unfoldable pub recommend_request :
      NamespacedName → AgenticAutoscaler F T → EffectiveParams → List F → RecommendRequest F
  recommend_request key aas effective history = record {
    rps_history = history;
    workload_id = r.formats.key_text key;
    preferred_model = if str_eq effective.forecaster "auto" then "" else effective.forecaster;
    context = build_forecast_context env.now_context aas;
  }

  -- Steps 3 and 4.
  unfoldable pub ask_forecast : NamespacedName → RecommendRequest F → M F T (RecommendResponse F)
  ask_forecast key request = do
    perform (Effect.ask_forecast request)
    elim (env.recommend request) [
      | ok response ↦ pure response
      | err e ↦ do
        warn Reasoning.forecast_unavailable e
        perform (Effect.observe_forecast_failure key)
        stop_with requeue_interval
    ]

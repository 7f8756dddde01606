-- ===== src/Controller/Reconcile.antt =====
-- internal/controller/agenticautoscaler_controller.go: Reconcile, from the estimate to the status.
use agentic_autoscaler.Prelude.{
  ℤ, pos, String, concat, Option, some, none, [], ◌∷◌, ltb_ℤ, eqb_ℤ, if◌then◌else◌,
}
use agentic_autoscaler.Go.Float.{Float64}
use agentic_autoscaler.Go.Time.{GoTime}
use agentic_autoscaler.Api.{NamespacedName, name_key, Status, AgenticAutoscaler, phase_ready}
use agentic_autoscaler.Adapters.{ok, err}
use agentic_autoscaler.Reasoning
use agentic_autoscaler.Decision.Params.{resolve_effective_params}
use agentic_autoscaler.Decision.Store.{PerCrState, get_or_create, save}
use agentic_autoscaler.Controller.World.{
  Deployment, Env, Effect, Ending, ExplainRequest, M, pure, stop_with, perform, ◌>>=◌, ◌>>◌,
  get_store, put_store, when,
}
use agentic_autoscaler.Controller.Inputs.{
  annotation, build_param_sources, classified_pattern, classified_confidence,
  classified_baseline_rps, classified_peak_p95_rps, classified_hourly_profile_valid, deref_or,
  ring_buffer_capacity,
}
use agentic_autoscaler.Controller.Decide.{Plan, ensure_initialized, observe, decide}
use agentic_autoscaler.Controller.Steps.{
  Reconciler, requeue_interval, update_status, fetch, cold_path, pre_checks, read_metrics,
  recommend_request, ask_forecast,
}

abbrev pub revision_annotation : String
revision_annotation = "deployment.kubernetes.io/revision"

module _ {ℓ κ} {F : Type ℓ} ⦃f : Float64 F⦄ {T : Type κ} ⦃t : GoTime T⦄ (r : Reconciler F)
    (env : Env F T) where
  -- Step 5: the target Deployment; a failed Get ends the reconcile with a requeue.
  unfoldable pub read_deployment : NamespacedName → M F T Deployment
  read_deployment key = elim env.get_deployment [
    | err e ↦ stop_with (requeue_interval r env)
    | ok deploy ↦ do
      when r.has_classifier (
          perform (Effect.observe_revision key (annotation revision_annotation deploy.annotations)))
      pure deploy
  ]

  abbrev pub or_panic : NamespacedName → Option (PerCrState F T) → M F T (PerCrState F T)
  or_panic key none = stop_with Ending.panicked
  or_panic key (some state) = do s ← get_store; put_store (save key state s); pure state

  -- Step 5: the state of the resource, initialised on first use, with the new observation.
  unfoldable pub refresh_state :
      NamespacedName → AgenticAutoscaler F T → F → ℤ → M F T (PerCrState F T)
  refresh_state key aas current_rps current_replicas = do
    s ← get_store
    let made = get_or_create s key ring_buffer_capacity
    let state = ensure_initialized aas made.0
    put_store (save key state made.1)
    or_panic key (observe r.config current_rps current_replicas env.now_decision state)

  -- Step 9: the patch, and the time of the scale event where it succeeded.
  unfoldable pub patch_scale : NamespacedName → PerCrState F T → Plan F T → M F T (Unit {0})
  patch_scale key state plan = when plan.cap_out.should_patch (do
    perform (Effect.patch_scale plan.cap_out.target)
    elim (env.update_scale plan.cap_out.target) [
      | some e ↦ stop_with (requeue_interval r env)
      | none ↦ do
        s ← get_store
        put_store (
            save key
              (if ltb_ℤ plan.current_replicas plan.cap_out.target
                then record state { last_scale_up_time = plan.now }
                else record state { last_scale_down_time = plan.now })
              s)
    ])

  -- The text of the event; the unbounded ask is told where it differs from the recommendation.
  unfoldable pub event_message : Plan F T → String
  event_message plan =
      let int = r.formats.int in
      let common = concat (
        plan.cap_out.reason
        ∷ " current_rps="
        ∷ r.formats.fixed1 plan.current_rps
        ∷ " predicted_rps="
        ∷ r.formats.fixed1 plan.response.predicted_rps
        ∷ " current="
        ∷ int plan.current_replicas
        ∷ " target="
        ∷ int plan.cap_out.target
        ∷ []) in
      let bound =
        if eqb_ℤ plan.unbounded plan.recommended
        then ""
        else concat (
            " recommended="
            ∷ int plan.recommended
            ∷ " unboundedRecommended="
            ∷ int plan.unbounded
            ∷ []) in
      concat (common ∷ bound ∷ " model=" ∷ plan.response.model_used ∷ [])

  unfoldable pub explain_request : AgenticAutoscaler F T → Plan F T → ExplainRequest F
  explain_request aas plan = record {
    key = aas.key;
    reason = plan.cap_out.reason;
    current_replicas = plan.current_replicas;
    recommended_replicas = plan.recommended;
    target_replicas = plan.cap_out.target;
    current_rps = plan.current_rps;
    predicted_rps = plan.response.predicted_rps;
    horizon_minutes = plan.response.horizon_minutes;
    model_used = plan.response.model_used;
    pattern_name = classified_pattern aas;
    confidence = classified_confidence aas;
    effective_cooldown_up = plan.effective.cooldown_up;
    effective_cooldown_down = plan.effective.cooldown_down;
    effective_max_step = plan.effective.max_step;
    unbounded_recommended = plan.unbounded;
    max_replicas = plan.max_replicas;
    min_replicas = plan.min_replicas;
    baseline_rps = classified_baseline_rps aas;
    peak_p95_rps = classified_peak_p95_rps aas;
    hourly_profile_valid = classified_hourly_profile_valid aas;
  }

  -- Step 10.
  unfoldable pub announce : AgenticAutoscaler F T → Plan F T → M F T (Unit {0})
  announce aas plan = do
    perform (
        Effect.emit_event "Normal" (Reasoning.pascal_reason plan.cap_out.reason)
          (event_message plan))
    perform (
        Effect.observe_reconcile aas.key plan.cap_out.reason plan.current_rps
          plan.response.predicted_rps plan.rps_per_pod)
    perform
        (Effect.observe_classification aas.key (classified_pattern aas) (classified_confidence aas))
    when plan.cap_out.should_patch (perform (Effect.notify (explain_request aas plan)))

  -- Step 11: the status that is written.
  unfoldable pub final_status : AgenticAutoscaler F T → Plan F T → Status F T
  final_status aas plan = record {
    phase = phase_ready;
    conflict_reason = "";
    current_replicas = plan.cap_out.target;
    recommended_replicas = plan.recommended;
    unbounded_recommended = plan.unbounded;
    predicted_rps = f.to_int32 plan.response.predicted_rps;
    rps_per_pod_current = f.to_int32 plan.rps_per_pod;
    last_scale_time =
        if plan.cap_out.should_patch then some plan.now else aas.status.last_scale_time;
    classified_params = aas.status.classified_params;
  }

  -- Steps 9 to 11.
  unfoldable pub carry_out :
      NamespacedName → AgenticAutoscaler F T → PerCrState F T → Plan F T → M F T (Unit {0})
  carry_out key aas state plan = do
    patch_scale key state plan
    announce aas plan
    update_status r env (final_status aas plan)
    stop_with (requeue_interval r env)

  -- Steps 2 to 8, once the pre-checks have passed.
  unfoldable pub scale : NamespacedName → AgenticAutoscaler F T → M F T (Unit {0})
  scale key aas = do
    metrics ← read_metrics r env aas
    let effective = resolve_effective_params (build_param_sources r.config aas)
    response ← ask_forecast r env aas.key (recommend_request r env key aas effective metrics.1)
    deploy ← read_deployment key
    let current_replicas = deref_or deploy.replicas (pos 1)
    state ← refresh_state key aas metrics.0 current_replicas
    carry_out key aas state
        (decide aas metrics.0 response effective current_replicas state env.now_decision)

  unfoldable pub run : NamespacedName → M F T (Unit {0})
  run key = do aas ← fetch r env key; cold_path r env key aas; pre_checks r env aas; scale key aas

-- ===== src/Controller/Decide.antt =====
-- internal/controller/agenticautoscaler_controller.go: steps 5 to 8 of a reconcile as a pure function
-- of what was read, and the update of the estimate of requests per second and pod.
use agentic_autoscaler.Prelude.{ℤ, pos, String, Option, some, none, if◌then◌else◌}
use agentic_autoscaler.Go.Float.{Float64}
use agentic_autoscaler.Go.Time.{GoTime}
use agentic_autoscaler.Api.{AgenticAutoscaler}
use agentic_autoscaler.Adapters.{RecommendResponse}
use agentic_autoscaler.Config.{Config}
use agentic_autoscaler.Decision.Params.{EffectiveParams}
use agentic_autoscaler.Decision.Ring.{RingBuffer, push, median}
use agentic_autoscaler.Decision.Store.{PerCrState}
use agentic_autoscaler.Decision.Estimate.{
  initialize_from_status, should_update_rps_per_pod_with_floor,
}
use agentic_autoscaler.Decision.Cap.{
  CapInput, CapOutput, compute_unbounded_recommended, clamp_recommended, clamp_rps_per_pod,
  apply_cap_and_cooldown,
}
use agentic_autoscaler.Controller.Inputs.{deref_or, later_of, build_status_seed}

-- The values that the later steps share.
pub record Plan {ℓ κ} (F : Type ℓ) (T : Type κ) : Type (ℓ ⊔ κ) where
  pub current_rps : F
  pub response : RecommendResponse F
  pub effective : EffectiveParams
  pub current_replicas : ℤ
  pub now : T
  pub rps_per_pod : F
  pub min_replicas : ℤ
  pub max_replicas : ℤ
  pub unbounded : ℤ
  pub recommended : ℤ
  pub cap_out : CapOutput

module _ {ℓ κ} {F : Type ℓ} ⦃f : Float64 F⦄ {T : Type κ} ⦃t : GoTime T⦄ where
  -- The state on its first use after a start of the process.
  unfoldable pub ensure_initialized : AgenticAutoscaler F T → PerCrState F T → PerCrState F T
  ensure_initialized aas state =
      if state.initialized then state else initialize_from_status state (build_status_seed aas)

  abbrev pub refreshed : PerCrState F T → Option (RingBuffer F) → Option (PerCrState F T)
  refreshed state none = none
  refreshed state (some rb) = some (record state { observations = rb; rps_per_pod = median rb })

  -- A new observation where the gate lets it pass; `none` is the panic of Push.
  unfoldable pub observe : Config F → F → ℤ → T → PerCrState F T → Option (PerCrState F T)
  observe c current_rps current_replicas now state =
      let last_scale = later_of state.last_scale_up_time state.last_scale_down_time in
      let seen = push state.observations (f.div current_rps (f.of_int current_replicas)) in
      if should_update_rps_per_pod_with_floor current_rps current_replicas last_scale now
        c.reconcile_interval (f.of_int c.rps_per_pod_noise_floor_rps)
      then refreshed state seen
      else some state

  unfoldable pub cap_input : EffectiveParams → PerCrState F T → ℤ → ℤ → String → T → CapInput T
  cap_input effective state recommended current_replicas binding_reason now = record {
    recommended = recommended;
    current = current_replicas;
    max_step = effective.max_step;
    cooldown_up = effective.cooldown_up;
    cooldown_down = effective.cooldown_down;
    last_scale_up = state.last_scale_up_time;
    last_scale_down = state.last_scale_down_time;
    now = now;
    binding_reason = binding_reason;
  }

  unfoldable pub decide :
      AgenticAutoscaler F T
      → F
      → RecommendResponse F
      → EffectiveParams
      → ℤ
      → PerCrState F T
      → T
      → Plan F T
  unfolding deref_or cap_input
  decide aas current_rps response effective current_replicas state now =
      let rps_per_pod =
        clamp_rps_per_pod state.rps_per_pod (deref_or aas.spec.rps_per_pod_min (pos 50))
          (deref_or aas.spec.rps_per_pod_max (pos 500)) in
      let lo = deref_or aas.spec.min_replicas (pos 2) in
      let hi = deref_or aas.spec.max_replicas (pos 10) in
      let unbounded = compute_unbounded_recommended response.predicted_rps rps_per_pod in
      let clamped = clamp_recommended unbounded lo hi in
      record {
        current_rps = current_rps;
        response = response;
        effective = effective;
        current_replicas = current_replicas;
        now = now;
        rps_per_pod = rps_per_pod;
        min_replicas = lo;
        max_replicas = hi;
        unbounded = unbounded;
        recommended = clamped.0;
        cap_out =
            apply_cap_and_cooldown
              (cap_input effective state clamped.0 current_replicas clamped.1 now);
      }

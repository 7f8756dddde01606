-- ===== src/Controller/Inputs.antt =====
-- internal/controller/agenticautoscaler_controller.go: what the reconciler derives from the resource
-- before it decides.
use agentic_autoscaler.Prelude.{
  ℤ, pos, String, str_eq, Option, some, none, List, [], ◌∷◌, Bool, false, ◌&&◌, if◌then◌else◌,
  add32, text_key, map, ℕ,
}
use agentic_autoscaler.Go.Float.{Float64}
use agentic_autoscaler.Go.Time.{GoTime}
use agentic_autoscaler.Go.Map.{Map, lookup}
use agentic_autoscaler.Api.{Spec, AgenticAutoscaler, ClassifiedParams, ContextFields}
use agentic_autoscaler.Adapters.{Sample, ContextPayload}
use agentic_autoscaler.Config.{Config, duration_as_int32}
use agentic_autoscaler.Decision.Params.{ParamSources}
use agentic_autoscaler.Decision.Params as Params
use agentic_autoscaler.Decision.Estimate.{StatusSeed}
use agentic_autoscaler.Controller.World.{Hpa}

abbrev pub ring_buffer_capacity : ℕ
ring_buffer_capacity = 10

unfoldable pub deref_or : Option ℤ → ℤ → ℤ
deref_or none def = def
deref_or (some v) def = v

-- A missing annotation reads as the empty text.
unfoldable pub annotation : String → Map String String → String
annotation k m = elim (lookup k m) [ none ↦ "" | some v ↦ v ]

abbrev pub annotation_skip_context : String
annotation_skip_context = "autoscaling.agentic.io/skip-context"

unfoldable pub duration_seconds_as_int32 : ℤ → ℤ
unfolding duration_as_int32
duration_seconds_as_int32 d = duration_as_int32 d 1000000000

-- The first HPA of the namespace that targets the same object.
unfoldable pub find_conflicting_hpa : Spec → List Hpa → Option String
find_conflicting_hpa spec [] = none
find_conflicting_hpa spec (hpa ∷ hpas) =
    if str_eq hpa.target_ref.kind spec.target_ref.kind
      && str_eq hpa.target_ref.name spec.target_ref.name
    then some hpa.name
    else find_conflicting_hpa spec hpas

module _ {ℓ} {T : Type ℓ} ⦃t : GoTime T⦄ where
  abbrev time_or_zero : Option T → T
  time_or_zero none = t.zero_time
  time_or_zero (some x) = x

  unfoldable pub later_of : T → T → T
  later_of a b = if t.after a b then a else b

module _ {ℓ κ} {F : Type ℓ} {T : Type κ} where
  unfoldable pub values_of : List (Sample F T) → List F
  values_of samples = map (λ s. s.value) samples

  abbrev classified_source : Option (ClassifiedParams F T) → Option Params.ClassifiedParams
  classified_source none = none
  classified_source (some cp) = some (record {
    scale_up_cooldown = cp.scale_up_cooldown_seconds;
    scale_down_cooldown = cp.scale_down_cooldown_seconds;
    max_step_size = cp.max_step_size;
    preferred_forecaster = cp.preferred_forecaster;
  })

  unfoldable pub build_param_sources : Config F → AgenticAutoscaler F T → ParamSources
  unfolding duration_seconds_as_int32
  build_param_sources c aas = record {
    spec = record {
      scale_up_cooldown = aas.spec.scale_up_cooldown_seconds;
      scale_down_cooldown = aas.spec.scale_down_cooldown_seconds;
      max_step_size = aas.spec.max_step_size;
      preferred_forecaster = aas.spec.preferred_forecaster;
    };
    classified = classified_source aas.status.classified_params;
    defaults = record {
      scale_up_cooldown = duration_seconds_as_int32 c.default_scale_up_cooldown;
      scale_down_cooldown = duration_seconds_as_int32 c.default_scale_down_cooldown;
      max_step_size = c.default_max_step_size;
    };
  }

  -- The context that the classifier left in the status, if any.
  abbrev pub context_of : Option (ClassifiedParams F T) → Option (ContextFields F)
  context_of none = none
  context_of (some cp) = cp.context

  abbrev pub pattern_of : Option (ClassifiedParams F T) → String
  pattern_of none = ""
  pattern_of (some cp) = cp.pattern_name

  abbrev pub confidence_of : Option (ClassifiedParams F T) → String
  confidence_of none = ""
  confidence_of (some cp) = cp.confidence

  unfoldable pub classified_pattern : AgenticAutoscaler F T → String
  classified_pattern aas = pattern_of aas.status.classified_params

  unfoldable pub classified_confidence : AgenticAutoscaler F T → String
  classified_confidence aas = confidence_of aas.status.classified_params

  unfoldable pub classified_baseline_rps : AgenticAutoscaler F T → ℤ
  classified_baseline_rps aas = elim (context_of aas.status.classified_params) [
    | none ↦ pos 0
    | some x ↦ x.baseline_rps
  ]

  unfoldable pub classified_peak_p95_rps : AgenticAutoscaler F T → ℤ
  classified_peak_p95_rps aas = elim (context_of aas.status.classified_params) [
    | none ↦ pos 0
    | some x ↦ x.peak_p95_rps
  ]

  unfoldable pub classified_hourly_profile_valid : AgenticAutoscaler F T → Bool
  classified_hourly_profile_valid aas = elim (context_of aas.status.classified_params) [
    | none ↦ false
    | some x ↦ x.hourly_profile_valid
  ]

module _ {ℓ κ} {F : Type ℓ} {T : Type κ} ⦃t : GoTime T⦄ where
  abbrev payload : T → Option (ContextFields F) → Option (ContextPayload F)
  payload now none = none
  payload now (some x) = some (record {
    baseline_rps = x.baseline_rps;
    peak_p95_rps = x.peak_p95_rps;
    trend24h_slope = x.trend24h_slope;
    hourly_profile = x.hourly_profile;
    hourly_profile_valid = x.hourly_profile_valid;
    current_hour_utc = t.utc_hour now;
    current_minute_utc = t.utc_minute now;
  })

  unfoldable pub build_forecast_context : T → AgenticAutoscaler F T → Option (ContextPayload F)
  unfolding annotation
  build_forecast_context now aas =
      if str_eq (annotation annotation_skip_context aas.annotations) "true"
      then none
      else payload now (context_of aas.status.classified_params)

module _ {ℓ κ} {F : Type ℓ} ⦃f : Float64 F⦄ {T : Type κ} ⦃t : GoTime T⦄ where
  -- `min+max` is an int32 sum.
  unfoldable pub build_status_seed : AgenticAutoscaler F T → StatusSeed F T
  unfolding deref_or
  build_status_seed aas =
      let lo = deref_or aas.spec.rps_per_pod_min (pos 50) in
      let hi = deref_or aas.spec.rps_per_pod_max (pos 500) in
      let current = f.of_int aas.status.rps_per_pod_current in
      record {
        rps_per_pod_current = current;
        in_bounds = f.le (f.of_int lo) current && f.le current (f.of_int hi);
        midpoint = f.div (f.of_int (add32 lo hi)) (f.of_int (pos 2));
        last_scale_time = time_or_zero aas.status.last_scale_time;
      }

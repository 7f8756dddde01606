-- ===== src/Classifier/Pipeline.antt =====
-- internal/classifier/pipeline.go: the two pipelines.
use agentic_autoscaler.Prelude.{
  ℤ, pos, pos_part, String, Bool, Option, some, none, List, length, ltb_ℤ, if◌then◌else◌,
}
use agentic_autoscaler.Go.Float.{Float64}
use agentic_autoscaler.Classifier.Classify.{Features, classify, classify_with_mean}
use agentic_autoscaler.Classifier.Confidence.{confidence}
use agentic_autoscaler.Classifier.Params.{ClassifiedOutput, compute_params}
use agentic_autoscaler.Classifier.Features.{
  mean, stddev, percentile, guarded_cv, trend_slope, trend_slope_rps_per_min, hourly_autocorr_lag,
  hourly_autocorr, detrend, extract_features, compute_baseline_rps, compute_peak_p95_rps,
}
use agentic_autoscaler.Classifier.Profile.{compute_hourly_profile}

pub record PipelineResult {ℓ} (F : Type ℓ) : Type ℓ where
  pub pattern_name : String
  pub confidence_label : String
  pub params : ClassifiedOutput
  pub history_points : ℤ
  pub features : Features F

pub record PipelineConfig {ℓ} (F : Type ℓ) : Type ℓ where
  pub resolution_min : ℤ
  pub hourly_profile_min_hours : ℤ
  pub cv_guard_mean_rps : F
  pub start_hour_utc : ℤ

pub record ContextOutput {ℓ} (F : Type ℓ) : Type ℓ where
  pub baseline_rps : ℤ
  pub peak_p95_rps : ℤ
  pub trend24h_slope : F
  pub hourly_profile : List ℤ
  pub hourly_profile_valid : Bool

pub record PipelineResultV2 {ℓ} (F : Type ℓ) : Type ℓ where
  pub base : PipelineResult F
  pub context : ContextOutput F

-- `none` is ErrInsufficientPoints. `guard` is the package variable CVGuardMeanRPS.
module _ {ℓ} {F : Type ℓ} ⦃f : Float64 F⦄ (guard : F) where
  abbrev pub result_of : List F → ℤ → ℤ → ℤ → ℤ → Features F → String → PipelineResult F
  result_of series high min_points min_replicas max_replicas x pattern_name = record {
    pattern_name = pattern_name;
    confidence_label = confidence (pos (length series)) high min_points;
    params = compute_params x pattern_name min_replicas max_replicas;
    history_points = pos (length series);
    features = x;
  }

  unfoldable pub run_pipeline : List F → ℤ → ℤ → ℤ → ℤ → Option (PipelineResult F)
  run_pipeline series high min_points min_replicas max_replicas =
      let x = extract_features guard series in
      if ltb_ℤ (pos (length series)) min_points
      then none
      else some (result_of series high min_points min_replicas max_replicas x (classify x))

  -- The features at the configured resolution.
  unfoldable pub features_v2 : List F → PipelineConfig F → Features F
  features_v2 series cfg =
      let resolution = if ltb_ℤ cfg.resolution_min (pos 1) then pos 1 else cfg.resolution_min in
      let floor =
        if f.le cfg.cv_guard_mean_rps (f.of_int (pos 0)) then guard else cfg.cv_guard_mean_rps in
      let m = mean series in
      record {
        cv = guarded_cv floor m (stddev series m);
        peak_to_trough = f.div (percentile series (f.lit 99 2)) (f.fmax m floor);
        hourly_autocorr =
            hourly_autocorr (detrend series (trend_slope series))
              (pos_part (hourly_autocorr_lag resolution)) 10;
        trend_slope = trend_slope_rps_per_min series resolution;
      }

  unfoldable pub context_v2 : List F → PipelineConfig F → ContextOutput F
  context_v2 series cfg =
      let resolution = if ltb_ℤ cfg.resolution_min (pos 1) then pos 1 else cfg.resolution_min in
      let profile =
        compute_hourly_profile series resolution cfg.start_hour_utc cfg.hourly_profile_min_hours in
      record {
        baseline_rps = compute_baseline_rps series;
        peak_p95_rps = compute_peak_p95_rps series;
        trend24h_slope = trend_slope_rps_per_min series resolution;
        hourly_profile = profile.0;
        hourly_profile_valid = profile.1;
      }

  unfoldable pub run_pipeline_v2 :
      List F → ℤ → ℤ → ℤ → ℤ → PipelineConfig F → Option (PipelineResultV2 F)
  unfolding features_v2 context_v2
  run_pipeline_v2 series high min_points min_replicas max_replicas cfg =
      let x = features_v2 series cfg in
      if ltb_ℤ (pos (length series)) min_points
      then none
      else some (record {
        base =
            result_of series high min_points min_replicas max_replicas x
              (classify_with_mean x (mean series));
        context = context_v2 series cfg;
      })

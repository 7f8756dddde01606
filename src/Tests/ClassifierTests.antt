-- ===== src/Tests/ClassifierTests.antt =====
-- The cold path on concrete values.
use agentic_autoscaler.Prelude.{pos, ◌-ℤ◌, ◌≤ℤ◌, ◌≡◌, true, List, [], ◌∷◌, arith}
use agentic_autoscaler.Webhook.{is_forecaster}
use agentic_autoscaler.Classifier.Classify.{Features, pattern_spiky}
use agentic_autoscaler.Classifier.Params.{compute_params}
use agentic_autoscaler.Classifier.Pipeline.{run_pipeline}
use agentic_autoscaler.Classifier.Promises.{
  IsLabelled, compute_params-IsAdmissible, run_pipeline-IsLabelled,
}
use agentic_autoscaler.Tests.Numbers.{Fixed, fixed_float}

abbrev bursts : Features Fixed
bursts = record {
  cv = pos 800;
  peak_to_trough = pos 6000;
  hourly_autocorr = pos 100;
  trend_slope = pos 0;
}

compute_params-IsAdmissible_example :
    let p = compute_params bursts pattern_spiky (pos 2) (pos 10) in
    ((pos 30 ≤ℤ p.scale_up_cooldown) × (p.scale_up_cooldown ≤ℤ pos 180))
    × ((pos 60 ≤ℤ p.scale_down_cooldown) × (p.scale_down_cooldown ≤ℤ pos 600))
    × ((pos 1 ≤ℤ p.max_step) × (p.max_step ≤ℤ pos 10 -ℤ pos 2))
    × (is_forecaster p.preferred_forecaster ≡ true)
compute_params-IsAdmissible_example =
    compute_params-IsAdmissible bursts pattern_spiky (pos 2) (pos 10) (omega arith, omega arith)
      (omega arith, omega arith) (omega arith) (omega arith)

abbrev short_series : List Fixed
short_series = pos 100000 ∷ pos 120000 ∷ pos 90000 ∷ []

run_pipeline-IsLabelled_example :
    IsLabelled short_series
      (pos 3)
      (pos 2)
      (run_pipeline (pos 1000) short_series (pos 3) (pos 2) (pos 2) (pos 10))
run_pipeline-IsLabelled_example =
    run_pipeline-IsLabelled (pos 1000) short_series (pos 3) (pos 2) (pos 2) (pos 10)

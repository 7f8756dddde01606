-- ===== src/Classifier/Promises.antt =====
-- What the cold path promises of the classification and the parameters that it writes.
use agentic_autoscaler.Prelude.{
  ℤ, pos, ◌≤ℤ◌, ◌<ℤ◌, ◌-ℤ◌, -ℤ_parts, parts_apart, IsInt32, ◌≡◌, ◌⊎◌, inl, inr, refl, true,
  Bool-cases, arith, String, str_eq, Option, some, none, List, length, sub32_nonneg,
}
use agentic_autoscaler.Go.Float.{Float64}
use agentic_autoscaler.Webhook.{is_forecaster}
use agentic_autoscaler.Classifier.Classify.{Features, pattern_periodic, pattern_spiky}
use agentic_autoscaler.Classifier.Confidence.{confidence, high, medium}
use agentic_autoscaler.Classifier.Params.{
  clamp32, compute_params, raw_up, raw_down, raw_step, replica_range, forecaster_for_pattern,
}
use agentic_autoscaler.Classifier.Pipeline.{run_pipeline, PipelineResult}

clamp32_bounds : (v lo hi : ℤ) → lo ≤ℤ hi → (lo ≤ℤ clamp32 v lo hi) × (clamp32 v lo hi ≤ℤ hi)
unfolding clamp32
clamp32_bounds v lo hi h = ground arith

step_bounds :
    (v lo hi : ℤ)
    → IsInt32 lo
    → IsInt32 hi
    → pos 0 ≤ℤ lo
    → lo <ℤ hi
    → (pos 1 ≤ℤ clamp32 v (pos 1) (replica_range lo hi))
      × (clamp32 v (pos 1) (replica_range lo hi) ≤ℤ hi -ℤ lo)
unfolding clamp32 replica_range
step_bounds v lo hi lo32 hi32 lo_nonneg above =
    let exact = sub32_nonneg hi lo hi32 lo32 (omega arith) lo_nonneg in
    ground (arith, exact, -ℤ_parts hi lo, parts_apart (hi -ℤ lo))

known : (s : String) → is_forecaster (forecaster_for_pattern s) ≡ true
unfolding is_forecaster forecaster_for_pattern
known s = elim (Bool-cases (str_eq s pattern_periodic)) [
  | inl periodic ↦ rw periodic refl
  | inr other ↦ elim (Bool-cases (str_eq s pattern_spiky)) [
    | inl spiky ↦ rw (other, spiky) refl
    | inr neither ↦ rw (other, neither) refl
  ]
]

module _ {ℓ} {F : Type ℓ} ⦃f : Float64 F⦄ where
  -- For replica bounds that the webhook admits, the classifier's parameters are ones that the webhook
  -- would admit in a spec: the cooldowns are between 30 and 180 and between 60 and 600 seconds, the
  -- step is at least 1 and at most the range, and the forecaster is known; whatever the features are.
  pub compute_params-IsAdmissible :
      (x : Features F) (pattern_name : String) (lo hi : ℤ)
      → IsInt32 lo
      → IsInt32 hi
      → pos 0 ≤ℤ lo
      → lo <ℤ hi
      → let p = compute_params x pattern_name lo hi in
        ((pos 30 ≤ℤ p.scale_up_cooldown) × (p.scale_up_cooldown ≤ℤ pos 180))
        × ((pos 60 ≤ℤ p.scale_down_cooldown) × (p.scale_down_cooldown ≤ℤ pos 600))
        × ((pos 1 ≤ℤ p.max_step) × (p.max_step ≤ℤ hi -ℤ lo))
        × (is_forecaster p.preferred_forecaster ≡ true)
  unfolding compute_params
  compute_params-IsAdmissible x pattern_name lo hi lo32 hi32 lo_nonneg above = (
    clamp32_bounds (f.to_int32 (f.round (raw_up x))) (pos 30) (pos 180) (omega arith),
    clamp32_bounds (f.to_int32 (f.round (raw_down x))) (pos 60) (pos 600) (omega arith),
    step_bounds (raw_step x) lo hi lo32 hi32 lo_nonneg above,
    known pattern_name,
  )

  -- The labels and the length of a result.
  abbrev pub IsLabelled : List F → ℤ → ℤ → Option (PipelineResult F) → Type 0
  IsLabelled series high_points min_points none = pos (length series) <ℤ min_points
  IsLabelled series high_points min_points (some result) =
      (min_points ≤ℤ pos (length series))
      × (result.history_points ≡ pos (length series))
      × ((result.confidence_label ≡ high) × (high_points ≤ℤ pos (length series))
          ⊎ (result.confidence_label ≡ medium) × (pos (length series) <ℤ high_points))

  -- The pipeline answers none exactly for a series shorter than the minimum; a result counts the
  -- series, and its label is high from the high threshold on and medium below it, never empty.
  pub run_pipeline-IsLabelled :
      (guard : F) (series : List F) (high_points min_points lo hi : ℤ)
      → IsLabelled series high_points min_points
          (run_pipeline guard series high_points min_points lo hi)
  unfolding run_pipeline confidence
  run_pipeline-IsLabelled guard series high_points min_points lo hi = ground arith

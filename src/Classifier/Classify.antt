-- ===== src/Classifier/Classify.antt =====
-- internal/classifier/classify.go: the priority-ordered rules.
use agentic_autoscaler.Prelude.{pos, String, ◌&&◌, if◌then◌else◌}
use agentic_autoscaler.Go.Float.{Float64}

abbrev pub pattern_flat : String
pattern_flat = "flat"

abbrev pub pattern_periodic : String
pattern_periodic = "periodic"

abbrev pub pattern_spiky : String
pattern_spiky = "spiky"

abbrev pub pattern_gradual_ramp : String
pattern_gradual_ramp = "gradual_ramp"

abbrev pub pattern_default : String
pattern_default = "default"

-- features.go: type Features.
pub record Features {ℓ} (F : Type ℓ) : Type ℓ where
  pub cv : F
  pub peak_to_trough : F
  pub hourly_autocorr : F
  pub trend_slope : F

module _ {ℓ} {F : Type ℓ} ⦃f : Float64 F⦄ where
  -- |slope| * 1440 / max(mean, 1)
  unfoldable pub daily_drift : F → F → F
  daily_drift slope series_mean =
      f.div (f.mul (f.abs slope) (f.of_int (pos 1440))) (f.fmax series_mean (f.of_int (pos 1)))

  unfoldable pub classify_with_mean : Features F → F → String
  classify_with_mean x series_mean =
      if f.lt x.cv (f.lit 10 2)
      then pattern_flat
      else if f.lt (f.lit 70 2) x.hourly_autocorr
      then pattern_periodic
      else if f.lt (f.lit 50 2) x.cv && f.lt (f.of_int (pos 5)) x.peak_to_trough
      then pattern_spiky
      else if f.lt (f.lit 20 2) (daily_drift x.trend_slope series_mean)
      then pattern_gradual_ramp
      else pattern_default

  unfoldable pub classify : Features F → String
  unfolding classify_with_mean
  classify x = classify_with_mean x (f.of_int (pos 1))

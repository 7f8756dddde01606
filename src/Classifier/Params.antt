-- ===== src/Classifier/Params.antt =====
-- internal/classifier/params.go: the parameter formulae.
use agentic_autoscaler.Prelude.{ℤ, pos, String, str_eq, ltb_ℤ, sub32, if◌then◌else◌}
use agentic_autoscaler.Go.Float.{Float64}
use agentic_autoscaler.Classifier.Classify.{Features, pattern_periodic, pattern_spiky}

abbrev pub forecaster_linear_extrap : String
forecaster_linear_extrap = "linear_extrap"

abbrev pub forecaster_prophet : String
forecaster_prophet = "prophet"

abbrev pub forecaster_gbdt_quantile : String
forecaster_gbdt_quantile = "gbdt_quantile"

pub record ClassifiedOutput : Type 0 where
  pub scale_up_cooldown : ℤ
  pub scale_down_cooldown : ℤ
  pub max_step : ℤ
  pub preferred_forecaster : String

unfoldable pub clamp32 : ℤ → ℤ → ℤ → ℤ
clamp32 v min_val max_val =
    if ltb_ℤ v min_val then min_val else if ltb_ℤ max_val v then max_val else v

-- The last two cases of the switch return the same name.
unfoldable pub forecaster_for_pattern : String → String
forecaster_for_pattern s =
    if str_eq s pattern_periodic
    then forecaster_prophet
    else if str_eq s pattern_spiky
    then forecaster_gbdt_quantile
    else forecaster_linear_extrap

-- maxReplicas - minReplicas, at least 1.
unfoldable pub replica_range : ℤ → ℤ → ℤ
replica_range min_replicas max_replicas =
    let range = sub32 max_replicas min_replicas in if ltb_ℤ range (pos 1) then pos 1 else range

module _ {ℓ} {F : Type ℓ} ⦃f : Float64 F⦄ where
  -- 120 / (1 + 2 * cv)
  unfoldable pub raw_up : Features F → F
  raw_up x = f.div (f.of_int (pos 120)) (f.add (f.of_int (pos 1)) (f.mul (f.of_int (pos 2)) x.cv))

  -- 180 * (1 + 1.5 * cv) / (1 + 0.5 * max(0, hourly_autocorr))
  unfoldable pub raw_down : Features F → F
  raw_down x =
      f.div (f.mul (f.of_int (pos 180)) (f.add (f.of_int (pos 1)) (f.mul (f.lit 15 1) x.cv)))
        (f.add (f.of_int (pos 1)) (f.mul (f.lit 5 1) (f.fmax (f.of_int (pos 0)) x.hourly_autocorr)))

  unfoldable pub raw_step : Features F → ℤ
  raw_step x =
      if f.le x.peak_to_trough (f.of_int (pos 1))
      then pos 1
      else f.to_int32 (f.ceil (f.log2 x.peak_to_trough))

  unfoldable pub compute_params : Features F → String → ℤ → ℤ → ClassifiedOutput
  unfolding clamp32 replica_range
  compute_params x pattern_name min_replicas max_replicas = record {
    scale_up_cooldown = clamp32 (f.to_int32 (f.round (raw_up x))) (pos 30) (pos 180);
    scale_down_cooldown = clamp32 (f.to_int32 (f.round (raw_down x))) (pos 60) (pos 600);
    max_step = clamp32 (raw_step x) (pos 1) (replica_range min_replicas max_replicas);
    preferred_forecaster = forecaster_for_pattern pattern_name;
  }

-- ===== src/Config.antt =====
-- internal/config/config.go: the configuration, as far as it is numbers and texts, and its checks.
-- A Duration is its number of nanoseconds. The texts of fmt.Sprintf are not modelled.
pub mod Load
pub mod Checked
pub mod Variables
pub mod Faults
pub mod RoundTrip
use agentic_autoscaler.Prelude.{
  ℤ, pos, quot, String, List, [], ◌∷◌, ◌++◌, Bool, ◌||◌, ltb_ℤ, add32, pos_part, if◌then◌else◌,
  clamp_int32, ℕ,
}
use agentic_autoscaler.Go.Float.{Float64}

pub record Config {ℓ} (F : Type ℓ) : Type ℓ where
  pub forecast_service_url : String
  pub prometheus_url : String
  pub reconcile_interval : ℤ
  pub hot_path_history : ℤ
  pub hot_path_min_points : ℤ
  pub forecast_timeout : ℤ
  pub prophet_min_points : ℤ
  pub classifier_interval : ℤ
  pub classifier_history : ℤ
  pub classifier_min_points : ℤ
  pub classifier_high_confidence_points : ℤ
  pub classifier_dedup : ℤ
  pub context_resolution_minutes : ℤ
  pub cv_guard_mean_rps : F
  pub rps_per_pod_noise_floor_rps : ℤ
  pub hourly_profile_min_hours : ℤ
  pub default_scale_up_cooldown : ℤ
  pub default_scale_down_cooldown : ℤ
  pub default_max_step_size : ℤ
  pub ollama_url : String
  pub ollama_model : String
  pub ollama_timeout : ℤ
  pub ollama_max_tokens : ℤ

-- int64(d / unit), clamped to the int32 range.
unfoldable pub duration_as_int32 : ℤ → ℕ → ℤ
unfolding clamp_int32 quot
duration_as_int32 d unit = clamp_int32 (quot d unit)

pub data ConfigError : Type 0 where
  missing_variable unparseable : String → ConfigError
  resolution_below_one : ℤ → ConfigError
  min_points_below_floor : ℤ → ℤ → ℤ → ConfigError
  profile_hours_out_of_range : ℤ → ConfigError
  guard_negative : ConfigError
  noise_floor_negative : ℤ → ConfigError
  high_below_min : ℤ → ℤ → ConfigError
  max_step_below_one : ℤ → ConfigError
  hot_path_points_below_one : ℤ → ConfigError
  up_cooldown_negative down_cooldown_negative : ℤ → ConfigError

unfoldable pub error_if : Bool → ConfigError → List ConfigError
error_if b e = if b then e ∷ [] else []

-- `L + 10` with the lag `L = int32(60) / resolution`, for a resolution of at least 1.
unfoldable pub points_floor : ℤ → ℤ
unfolding quot
points_floor resolution = add32 (quot (pos 60) (pos_part resolution)) (pos 10)

unfoldable pub check_points : ℤ → ℤ → List ConfigError
unfolding points_floor error_if
check_points resolution min_points =
    if ltb_ℤ resolution (pos 1)
    then ConfigError.resolution_below_one resolution ∷ []
    else error_if (ltb_ℤ min_points (points_floor resolution))
        (ConfigError.min_points_below_floor min_points (points_floor resolution) resolution)

module _ {ℓ} {F : Type ℓ} ⦃f : Float64 F⦄ where
  unfoldable pub validate : Config F → List ConfigError
  unfolding check_points
  validate c =
      check_points c.context_resolution_minutes c.classifier_min_points
      ++ (error_if
            (ltb_ℤ c.hourly_profile_min_hours (pos 1) || ltb_ℤ (pos 24) c.hourly_profile_min_hours)
            (ConfigError.profile_hours_out_of_range c.hourly_profile_min_hours)
          ++ (error_if (f.lt c.cv_guard_mean_rps (f.of_int (pos 0))) ConfigError.guard_negative
              ++ (error_if (ltb_ℤ c.rps_per_pod_noise_floor_rps (pos 0))
                    (ConfigError.noise_floor_negative c.rps_per_pod_noise_floor_rps)
                  ++ (error_if (ltb_ℤ c.classifier_high_confidence_points c.classifier_min_points) (
                        ConfigError.high_below_min c.classifier_high_confidence_points
                          c.classifier_min_points)
                      ++ (error_if (ltb_ℤ c.default_max_step_size (pos 1))
                            (ConfigError.max_step_below_one c.default_max_step_size)
                          ++ (error_if (ltb_ℤ c.hot_path_min_points (pos 1))
                                (ConfigError.hot_path_points_below_one c.hot_path_min_points)
                              ++ (error_if (ltb_ℤ c.default_scale_up_cooldown (pos 0))
                                    (ConfigError.up_cooldown_negative c.default_scale_up_cooldown)
                                  ++ error_if (ltb_ℤ c.default_scale_down_cooldown (pos 0)) (
                                      ConfigError.down_cooldown_negative
                                        c.default_scale_down_cooldown))))))))

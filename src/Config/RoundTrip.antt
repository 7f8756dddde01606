-- ===== src/Config/RoundTrip.antt =====
-- Loading the environment that Summary prints.
use agentic_autoscaler.Prelude.{
  ℕ, ◌≤◌, ℤ, pos, negsuc, pos_part, neg_part, quot, wrap64, ◌*ℤ◌, IsInt32, wrap64_in_range, String,
  str_eq, some, [], ◌≡◌, inl, refl, sym, ◌∙◌, ap, false, arith, text_key,
}
use agentic_autoscaler.Go.Float.{Float64}
use agentic_autoscaler.Go.Map.{lookup}
use agentic_autoscaler.Config.{Config, validate}
use agentic_autoscaler.Config.Load.{
  Texts, Environ, Found, ◌>>=◌, pure, hour_ns, minute_ns, second_ns, required,
  env_string_or_default, env_int_or_default, env_float64_or_default, env_units,
  env_seconds_or_default, env_minutes_or_default, env_hours_or_default, read_environ, load_from_env,
  summary_lines, environ_of,
}

-- What the documentation of strconv and fmt says of a number that is printed and read again.
pub record IsTexts {ℓ} {F : Type ℓ} ⦃f : Float64 F⦄ (x : Texts F) : Type ℓ where
  pub parse-int : (n : ℤ) → IsInt32 n → x.parse_int (x.int n) ≡ some n
  pub int-nonempty : (n : ℤ) → str_eq (x.int n) "" ≡ false
  pub parse-general : (v : F) → f.is_nan v ≡ false → x.parse_float (x.general v) ≡ some v
  pub general-nonempty : (v : F) → str_eq (x.general v) "" ≡ false

-- A Duration of a whole number of units that fits an int64, the number fitting an int32.
abbrev pub IsUnits : ℕ → ℤ → Type 0
IsUnits unit d =
    (v : ℤ) × (d ≡ v *ℤ pos unit)
    × IsInt32 v
    × (pos_part d ≤ 9223372036854775807)
    × (neg_part d ≤ 9223372036854775808)

-- A configuration that passes the checks, and whose values the variables can express.
pub record IsExpressible {ℓ} {F : Type ℓ} ⦃f : Float64 F⦄ (c : Config F) : Type ℓ where
  pub valid : validate c ≡ []
  pub forecast_service_url : str_eq c.forecast_service_url "" ≡ false
  pub prometheus_url : str_eq c.prometheus_url "" ≡ false
  pub ollama_url : str_eq c.ollama_url "" ≡ false
  pub ollama_model : str_eq c.ollama_model "" ≡ false
  pub reconcile_interval : IsUnits second_ns c.reconcile_interval
  pub hot_path_history : IsUnits minute_ns c.hot_path_history
  pub hot_path_min_points : IsInt32 c.hot_path_min_points
  pub forecast_timeout : IsUnits second_ns c.forecast_timeout
  pub prophet_min_points : IsInt32 c.prophet_min_points
  pub classifier_interval : IsUnits minute_ns c.classifier_interval
  pub classifier_history : IsUnits hour_ns c.classifier_history
  pub classifier_min_points : IsInt32 c.classifier_min_points
  pub classifier_high_confidence_points : IsInt32 c.classifier_high_confidence_points
  pub classifier_dedup : IsUnits second_ns c.classifier_dedup
  pub context_resolution_minutes : IsInt32 c.context_resolution_minutes
  pub cv_guard_mean_rps : f.is_nan c.cv_guard_mean_rps ≡ false
  pub rps_per_pod_noise_floor_rps : IsInt32 c.rps_per_pod_noise_floor_rps
  pub hourly_profile_min_hours : IsInt32 c.hourly_profile_min_hours
  pub default_scale_up_cooldown : IsUnits second_ns c.default_scale_up_cooldown
  pub default_scale_down_cooldown : IsUnits second_ns c.default_scale_down_cooldown
  pub default_max_step_size : IsInt32 c.default_max_step_size
  pub ollama_timeout : IsUnits second_ns c.ollama_timeout
  pub ollama_max_tokens : IsInt32 c.ollama_max_tokens

-- Dividing a whole number of units gives the number back.
quot-hour : (v : ℤ) → quot (v *ℤ pos hour_ns) hour_ns ≡ v
unfolding quot ◌*ℤ◌
quot-hour (pos n) = ground arith
quot-hour (negsuc n) = ground arith

quot-minute : (v : ℤ) → quot (v *ℤ pos minute_ns) minute_ns ≡ v
unfolding quot ◌*ℤ◌
quot-minute (pos n) = ground arith
quot-minute (negsuc n) = ground arith

quot-second : (v : ℤ) → quot (v *ℤ pos second_ns) second_ns ≡ v
unfolding quot ◌*ℤ◌
quot-second (pos n) = ground arith
quot-second (negsuc n) = ground arith

-- A read that found no problem.
found {ℓ κ} :
    {A : Type ℓ} {B : Type κ} {m : Found A} {a : A} {r : Found B} (g : A → Found B)
    → m ≡ (a, [])
    → g a ≡ r
    → m >>= g ≡ r
unfolding ◌>>=◌
found g e h = ap (λ m. m >>= g) e ∙ h

module _ {ℓ} {F : Type ℓ} ⦃f : Float64 F⦄ (x : Texts F) (laws : IsTexts x) where
  read_int :
      (name : String) (def v : ℤ) (env : Environ)
      → env name ≡ x.int v
      → IsInt32 v
      → env_int_or_default x name def env ≡ (v, [])
  unfolding env_int_or_default
  read_int name def v env e small = rw (e, laws.int-nonempty v, laws.parse-int v small) refl

  read_float :
      (name : String) (def v : F) (env : Environ)
      → env name ≡ x.general v
      → f.is_nan v ≡ false
      → env_float64_or_default x name def env ≡ (v, [])
  unfolding env_float64_or_default
  read_float name def v env e number =
      rw (e, laws.general-nonempty v, laws.parse-general v number) refl

  read_units :
      (unit : ℕ) (name : String) (def d : ℤ) (env : Environ)
      → ((v : ℤ) → quot (v *ℤ pos unit) unit ≡ v)
      → env name ≡ x.int (quot d unit)
      → IsUnits unit d
      → env_units x unit name def env ≡ (d, [])
  unfolding env_units pure
  read_units unit name def d env back e (v, whole, small, above, below) =
      found _
        (read_int name _ v env (e ∙ ap (λ n. x.int (quot n unit)) whole ∙ ap x.int (back v)) small)
        (ap (λ n. (n, [])) (ap wrap64 (sym whole) ∙ wrap64_in_range d above below))

  read_minutes :
      (name : String) (def d : ℤ) (env : Environ)
      → env name ≡ x.int (quot d minute_ns)
      → IsUnits minute_ns d
      → env_minutes_or_default x name def env ≡ (d, [])
  unfolding env_minutes_or_default
  read_minutes name def d env e p = read_units minute_ns name def d env quot-minute e p

  read_hours :
      (name : String) (def d : ℤ) (env : Environ)
      → env name ≡ x.int (quot d hour_ns)
      → IsUnits hour_ns d
      → env_hours_or_default x name def env ≡ (d, [])
  unfolding env_hours_or_default
  read_hours name def d env e p = read_units hour_ns name def d env quot-hour e p

  read_seconds :
      (name : String) (def d : ℤ) (env : Environ)
      → env name ≡ x.int (quot d second_ns)
      → IsUnits second_ns d
      → env_seconds_or_default x name def env ≡ (d, [])
  unfolding env_seconds_or_default
  read_seconds name def d env e p = read_units second_ns name def d env quot-second e p

  read_required :
      (name text : String) (env : Environ)
      → env name ≡ text
      → str_eq text "" ≡ false
      → required name env ≡ (text, [])
  unfolding required
  read_required name text env e p = rw (e, p) refl

  read_string :
      (name def text : String) (env : Environ)
      → env name ≡ text
      → str_eq text "" ≡ false
      → env_string_or_default name def env ≡ text
  unfolding env_string_or_default
  read_string name def text env e p = rw (e, p) refl

  read_summary :
      (c : Config F) → IsExpressible c → read_environ x (environ_of (summary_lines x c)) ≡ (c, [])
  unfolding read_environ summary_lines lookup pure
  read_summary c p =
      let env : Environ = environ_of (summary_lines x c) in
      found _ (read_required "FORECAST_SERVICE_URL" _ env refl p.forecast_service_url) (
        found _ (read_required "PROMETHEUS_URL" _ env refl p.prometheus_url) (
          found _
            (read_seconds "RECONCILE_INTERVAL_SECONDS" (pos 60000000000) _ env refl
              p.reconcile_interval)
            (found _
              (read_minutes "HOT_PATH_HISTORY_MINUTES" (pos 3600000000000) _ env refl
                p.hot_path_history)
              (found _ (read_int "HOT_PATH_MIN_POINTS" _ _ env refl p.hot_path_min_points) (
                found _
                  (read_seconds "FORECAST_TIMEOUT_SECONDS" (pos 5000000000) _ env refl
                    p.forecast_timeout)
                  (found _ (read_int "PROPHET_MIN_POINTS" _ _ env refl p.prophet_min_points) (
                    found _
                      (read_minutes "CLASSIFIER_INTERVAL_MINUTES" (pos 1800000000000) _ env refl
                        p.classifier_interval)
                      (found _
                        (read_hours "CLASSIFIER_HISTORY_HOURS" (pos 86400000000000) _ env refl
                          p.classifier_history)
                        (found _
                          (read_int "CLASSIFIER_MIN_POINTS" _ _ env refl p.classifier_min_points)
                          (found _
                            (read_int "CLASSIFIER_HIGH_CONFIDENCE_POINTS" _ _ env refl
                              p.classifier_high_confidence_points)
                            (found _
                              (read_seconds "CLASSIFIER_DEDUP_SECONDS" (pos 60000000000) _ env refl
                                p.classifier_dedup)
                              (found _
                                (read_int "CONTEXT_DOWNSAMPLE_RESOLUTION_MIN" _ _ env refl
                                  p.context_resolution_minutes)
                                (found _
                                  (read_float "CV_GUARD_MEAN_RPS" _ _ env refl p.cv_guard_mean_rps)
                                  (found _
                                    (read_int "RPS_PER_POD_NOISE_FLOOR_RPS" _ _ env refl
                                      p.rps_per_pod_noise_floor_rps)
                                    (found _
                                      (read_int "HOURLY_PROFILE_MIN_HOURS" _ _ env refl
                                        p.hourly_profile_min_hours)
                                      (found _
                                        (read_seconds "DEFAULT_SCALE_UP_COOLDOWN_SECONDS"
                                          (pos 60000000000) _ env refl p.default_scale_up_cooldown)
                                        (found _
                                          (read_seconds "DEFAULT_SCALE_DOWN_COOLDOWN_SECONDS"
                                            (pos 300000000000) _ env refl
                                            p.default_scale_down_cooldown)
                                          (found _
                                            (read_int "DEFAULT_MAX_STEP_SIZE" _ _ env refl
                                              p.default_max_step_size)
                                            (found _
                                              (read_seconds "OLLAMA_TIMEOUT_SECONDS"
                                                (pos 30000000000) _ env refl p.ollama_timeout)
                                              (found _
                                                (read_int "OLLAMA_MAX_TOKENS" _ _ env refl
                                                  p.ollama_max_tokens)
                                                (rw
                                                  (
                                                    read_string "OLLAMA_URL"
                                                        "http://localhost:11434" _ env refl
                                                        p.ollama_url,
                                                    read_string "OLLAMA_MODEL" "llama3.2" _ env refl
                                                        p.ollama_model,
                                                  )
                                                  refl)))))))))))))))))))))

  -- With parsers and printers that agree as documented: loading the environment that Summary prints for
  -- a configuration gives that configuration back, if it passes the checks, its texts are not empty, its
  -- numbers are int32 values, CVGuardMeanRPS is a number, and each Duration is a whole number of its unit
  -- that fits an int64.
  pub load_from_env-summary_lines :
      (c : Config F) → IsExpressible c → load_from_env x (environ_of (summary_lines x c)) ≡ inl c
  unfolding load_from_env
  load_from_env-summary_lines c p = rw (read_summary c p, p.valid) refl

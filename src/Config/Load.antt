-- ===== src/Config/Load.antt =====
-- internal/config/config.go: LoadFromEnv and Summary. os.Getenv is a function from the name of a
-- variable to its text, empty where it is not set. strconv and fmt are parameters.
use agentic_autoscaler.Prelude.{
  ℕ, ℤ, pos, quot, wrap64, ◌*ℤ◌, String, str_eq, concat, Option, some, none, List, [], ◌∷◌, ◌++◌,
  text_key, ◌⊎◌, inl, inr, if◌then◌else◌,
}
use agentic_autoscaler.Go.Float.{Float64}
use agentic_autoscaler.Go.Map.{Map, lookup}
use agentic_autoscaler.Config.{Config, ConfigError, duration_as_int32, validate}

-- strconv.ParseInt(s, 10, 32) and strconv.ParseFloat(s, 64), none on an error; fmt's %d and %g.
pub record Texts {ℓ} (F : Type ℓ) : Type ℓ where
  pub parse_int : String → Option ℤ
  pub parse_float : String → Option F
  pub int : ℤ → String
  pub general : F → String

abbrev pub Environ : Type 0
Environ = String → String

-- A value and the problems found on the way to it, in their order.
abbrev pub Found {ℓ} : Type ℓ → Type ℓ
Found A = A × List ConfigError

infixl 5 ◌>>=◌
unfoldable pub ◌>>=◌ {ℓ κ} : {A : Type ℓ} {B : Type κ} → Found A → (A → Found B) → Found B
◌>>=◌ (a, errs) g = let (b, more) = g a in (b, errs ++ more)

unfoldable pub pure {ℓ} : {A : Type ℓ} → A → Found A
pure a = (a, [])

abbrev pub hour_ns : ℕ
hour_ns = 3600000000000

abbrev pub minute_ns : ℕ
minute_ns = 60000000000

abbrev pub second_ns : ℕ
second_ns = 1000000000

-- os.Getenv of a variable that must be set.
unfoldable pub required : String → Environ → Found String
required name env =
    (env name, if str_eq (env name) "" then ConfigError.missing_variable name ∷ [] else [])

unfoldable pub env_string_or_default : String → String → Environ → String
env_string_or_default name def env = if str_eq (env name) "" then def else env name

module _ {ℓ} {F : Type ℓ} (x : Texts F) where
  abbrev pub or_unparseable {κ} : {A : Type κ} → String → A → Option A → Found A
  or_unparseable name def none = (def, ConfigError.unparseable name ∷ [])
  or_unparseable name def (some v) = (v, [])

  unfoldable pub env_int_or_default : String → ℤ → Environ → Found ℤ
  env_int_or_default name def env =
      if str_eq (env name) "" then (def, []) else or_unparseable name def (x.parse_int (env name))

  unfoldable pub env_float64_or_default : String → F → Environ → Found F
  env_float64_or_default name def env =
      if str_eq (env name) "" then (def, []) else or_unparseable name def (x.parse_float (env name))

  -- A number of units as a Duration; the product is an int64.
  unfoldable pub env_units : ℕ → String → ℤ → Environ → Found ℤ
  unfolding env_int_or_default duration_as_int32
  env_units unit name def env = do
    v ← env_int_or_default name (duration_as_int32 def unit) env
    pure (wrap64 (v *ℤ pos unit))

  unfoldable pub env_seconds_or_default : String → ℤ → Environ → Found ℤ
  unfolding env_units
  env_seconds_or_default name def env = env_units second_ns name def env

  unfoldable pub env_minutes_or_default : String → ℤ → Environ → Found ℤ
  unfolding env_units
  env_minutes_or_default name def env = env_units minute_ns name def env

  unfoldable pub env_hours_or_default : String → ℤ → Environ → Found ℤ
  unfolding env_units
  env_hours_or_default name def env = env_units hour_ns name def env

  -- The reads of LoadFromEnv.
  unfoldable pub read_environ : ⦃f : Float64 F⦄ → Environ → Found (Config F)
  unfolding required env_int_or_default env_float64_or_default env_seconds_or_default
      env_minutes_or_default env_hours_or_default env_string_or_default
  read_environ ⦃f⦄ env = do
    forecast ← required "FORECAST_SERVICE_URL" env
    prometheus ← required "PROMETHEUS_URL" env
    interval ← env_seconds_or_default "RECONCILE_INTERVAL_SECONDS" (pos 60000000000) env
    history ← env_minutes_or_default "HOT_PATH_HISTORY_MINUTES" (pos 3600000000000) env
    hot_points ← env_int_or_default "HOT_PATH_MIN_POINTS" (pos 10) env
    timeout ← env_seconds_or_default "FORECAST_TIMEOUT_SECONDS" (pos 5000000000) env
    prophet_points ← env_int_or_default "PROPHET_MIN_POINTS" (pos 30) env
    classify_every ← env_minutes_or_default "CLASSIFIER_INTERVAL_MINUTES" (pos 1800000000000) env
    classify_over ← env_hours_or_default "CLASSIFIER_HISTORY_HOURS" (pos 86400000000000) env
    min_points ← env_int_or_default "CLASSIFIER_MIN_POINTS" (pos 72) env
    high_points ← env_int_or_default "CLASSIFIER_HIGH_CONFIDENCE_POINTS" (pos 240) env
    dedup ← env_seconds_or_default "CLASSIFIER_DEDUP_SECONDS" (pos 60000000000) env
    resolution ← env_int_or_default "CONTEXT_DOWNSAMPLE_RESOLUTION_MIN" (pos 5) env
    cv_guard ← env_float64_or_default "CV_GUARD_MEAN_RPS" (f.of_int (pos 1)) env
    noise ← env_int_or_default "RPS_PER_POD_NOISE_FLOOR_RPS" (pos 10) env
    profile_hours ← env_int_or_default "HOURLY_PROFILE_MIN_HOURS" (pos 12) env
    up ← env_seconds_or_default "DEFAULT_SCALE_UP_COOLDOWN_SECONDS" (pos 60000000000) env
    down ← env_seconds_or_default "DEFAULT_SCALE_DOWN_COOLDOWN_SECONDS" (pos 300000000000) env
    max_step ← env_int_or_default "DEFAULT_MAX_STEP_SIZE" (pos 4) env
    ollama_timeout ← env_seconds_or_default "OLLAMA_TIMEOUT_SECONDS" (pos 30000000000) env
    tokens ← env_int_or_default "OLLAMA_MAX_TOKENS" (pos 150) env
    pure (record {
      forecast_service_url = forecast;
      prometheus_url = prometheus;
      reconcile_interval = interval;
      hot_path_history = history;
      hot_path_min_points = hot_points;
      forecast_timeout = timeout;
      prophet_min_points = prophet_points;
      classifier_interval = classify_every;
      classifier_history = classify_over;
      classifier_min_points = min_points;
      classifier_high_confidence_points = high_points;
      classifier_dedup = dedup;
      context_resolution_minutes = resolution;
      cv_guard_mean_rps = cv_guard;
      rps_per_pod_noise_floor_rps = noise;
      hourly_profile_min_hours = profile_hours;
      default_scale_up_cooldown = up;
      default_scale_down_cooldown = down;
      default_max_step_size = max_step;
      ollama_url = env_string_or_default "OLLAMA_URL" "http://localhost:11434" env;
      ollama_model = env_string_or_default "OLLAMA_MODEL" "llama3.2" env;
      ollama_timeout = ollama_timeout;
      ollama_max_tokens = tokens;
    })

  -- The configuration, or every problem found.
  abbrev pub accept {κ} : {A : Type κ} → A → List ConfigError → A ⊎ List ConfigError
  accept c [] = inl c
  accept c (e ∷ errs) = inr (e ∷ errs)

  unfoldable pub load_from_env : ⦃f : Float64 F⦄ → Environ → Config F ⊎ List ConfigError
  unfolding read_environ validate
  load_from_env env = let (c, errs) = read_environ env in accept c (errs ++ validate c)

  -- The lines of Summary: the name of a variable, and its value.
  unfoldable pub summary_lines : Config F → Map String String
  unfolding quot
  summary_lines c =
      ("FORECAST_SERVICE_URL", c.forecast_service_url)
      ∷ ("PROMETHEUS_URL", c.prometheus_url)
      ∷ ("RECONCILE_INTERVAL_SECONDS", x.int (quot c.reconcile_interval second_ns))
      ∷ ("HOT_PATH_HISTORY_MINUTES", x.int (quot c.hot_path_history minute_ns))
      ∷ ("HOT_PATH_MIN_POINTS", x.int c.hot_path_min_points)
      ∷ ("FORECAST_TIMEOUT_SECONDS", x.int (quot c.forecast_timeout second_ns))
      ∷ ("PROPHET_MIN_POINTS", x.int c.prophet_min_points)
      ∷ ("CLASSIFIER_INTERVAL_MINUTES", x.int (quot c.classifier_interval minute_ns))
      ∷ ("CLASSIFIER_HISTORY_HOURS", x.int (quot c.classifier_history hour_ns))
      ∷ ("CLASSIFIER_MIN_POINTS", x.int c.classifier_min_points)
      ∷ ("CLASSIFIER_HIGH_CONFIDENCE_POINTS", x.int c.classifier_high_confidence_points)
      ∷ ("CLASSIFIER_DEDUP_SECONDS", x.int (quot c.classifier_dedup second_ns))
      ∷ ("CONTEXT_DOWNSAMPLE_RESOLUTION_MIN", x.int c.context_resolution_minutes)
      ∷ ("CV_GUARD_MEAN_RPS", x.general c.cv_guard_mean_rps)
      ∷ ("RPS_PER_POD_NOISE_FLOOR_RPS", x.int c.rps_per_pod_noise_floor_rps)
      ∷ ("HOURLY_PROFILE_MIN_HOURS", x.int c.hourly_profile_min_hours)
      ∷ ("DEFAULT_SCALE_UP_COOLDOWN_SECONDS", x.int (quot c.default_scale_up_cooldown second_ns))
      ∷ (
        "DEFAULT_SCALE_DOWN_COOLDOWN_SECONDS",
        x.int (quot c.default_scale_down_cooldown second_ns),
      )
      ∷ ("DEFAULT_MAX_STEP_SIZE", x.int c.default_max_step_size)
      ∷ ("OLLAMA_URL", c.ollama_url)
      ∷ ("OLLAMA_MODEL", c.ollama_model)
      ∷ ("OLLAMA_TIMEOUT_SECONDS", x.int (quot c.ollama_timeout second_ns))
      ∷ ("OLLAMA_MAX_TOKENS", x.int c.ollama_max_tokens)
      ∷ []

-- `name=value` on each line, without a line break at the end.
unfoldable pub join_lines : Map String String → String
join_lines [] = ""
join_lines ((name, value) ∷ []) = concat (name ∷ "=" ∷ value ∷ [])
join_lines ((name, value) ∷ line ∷ rest) =
    concat (name ∷ "=" ∷ value ∷ "\n" ∷ join_lines (line ∷ rest) ∷ [])

unfoldable pub summary {ℓ} : {F : Type ℓ} → Texts F → Config F → String
unfolding summary_lines join_lines
summary x c = join_lines (summary_lines x c)

-- The environment in which the variables are as the lines say.
abbrev pub environ_of : Map String String → Environ
environ_of lines name = elim (lookup name lines) [ none ↦ "" | some v ↦ v ]

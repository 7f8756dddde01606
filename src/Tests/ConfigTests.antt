-- ===== src/Tests/ConfigTests.antt =====
-- The configuration, the adapters, the metrics and the target app on concrete values. Numbers are
-- printed in unary: a sign, and a mark for each unit.
use agentic_autoscaler.Prelude.{
  ℕ, zero, suc, ℤ, pos, negsuc, String, str_eq, Option, some, none, ◌≡◌, inl, refl, ap, false,
  arith, if◌then◌else◌,
}
use agentic_autoscaler.Prelude.{◌*ℤ◌, ◌+ℤ◌, wrap32, ◌≤◌, Bool-cases, inr, str_eq_iff, quot, add32}
use agentic_autoscaler.Config.{Config, validate, error_if}
use agentic_autoscaler.Config.Load.{Texts, load_from_env, summary_lines, environ_of}
use agentic_autoscaler.Config.RoundTrip.{IsTexts, IsExpressible, load_from_env-summary_lines}
use agentic_autoscaler.Config.Faults.{IsReported, load_from_env-IsReported}
use agentic_autoscaler.Tests.Numbers.{Fixed, fixed_float}
use agentic_autoscaler.Tests.Resources.{shop_config}

abbrev marks : ℕ → String
marks zero = ""
marks (suc n) = String.◌∷◌ "1" (marks n)

abbrev print : ℤ → String
print (pos n) = String.◌∷◌ "+" (marks n)
print (negsuc n) = String.◌∷◌ "-" (marks n)

abbrev count : String → ℕ
count String.[] = 0
count (String.◌∷◌ c s) = suc (count s)

abbrev parse : String → Option ℤ
parse String.[] = none
parse (String.◌∷◌ c s) =
    if str_eq (String.◌∷◌ c "") "+"
    then some (pos (count s))
    else if str_eq (String.◌∷◌ c "") "-"
    then some (negsuc (count s))
    else none

abbrev pub unary : Texts Fixed
unary = record { parse_int = parse; parse_float = parse; int = print; general = print }

count-marks : (n : ℕ) → count (marks n) ≡ n
count-marks zero = refl
count-marks (suc n) = ap suc (count-marks n)

parse-print : (v : ℤ) → parse (print v) ≡ some v
parse-print (pos n) = ap (λ k. some (pos k)) (count-marks n)
parse-print (negsuc n) = ap (λ k. some (negsuc k)) (count-marks n)

counted-nonempty : (s : String) → 1 ≤ count s → str_eq s "" ≡ false
counted-nonempty s h = elim (Bool-cases (str_eq s "")) [
  | inl same ↦ absurd (omega (arith, ap count ((str_eq_iff s "").0 same)))
  | inr apart ↦ apart
]

print-nonempty : (v : ℤ) → str_eq (print v) "" ≡ false
print-nonempty (pos n) = counted-nonempty (print (pos n)) (omega arith)
print-nonempty (negsuc n) = counted-nonempty (print (negsuc n)) (omega arith)

pub unary-IsTexts : IsTexts unary
unary-IsTexts = record {
  parse-int = λ n h. parse-print n;
  int-nonempty = print-nonempty;
  parse-general = λ v h. parse-print v;
  general-nonempty = print-nonempty;
}

abbrev pub full_config : Config Fixed
full_config = record shop_config {
  ollama_url = "http://ollama";
  ollama_model = "llama3.2";
  ollama_timeout = pos 30000000000;
  ollama_max_tokens = pos 150;
}

pub full_config-IsExpressible : IsExpressible full_config
unfolding validate ◌*ℤ◌ error_if quot add32 wrap32 ◌+ℤ◌
full_config-IsExpressible = record {
  valid = refl;
  forecast_service_url = refl;
  prometheus_url = refl;
  ollama_url = refl;
  ollama_model = refl;
  reconcile_interval = (pos 60, refl, omega arith, omega arith, omega arith);
  hot_path_history = (pos 60, refl, omega arith, omega arith, omega arith);
  hot_path_min_points = omega arith;
  forecast_timeout = (pos 5, refl, omega arith, omega arith, omega arith);
  prophet_min_points = omega arith;
  classifier_interval = (pos 60, refl, omega arith, omega arith, omega arith);
  classifier_history = (pos 24, refl, omega arith, omega arith, omega arith);
  classifier_min_points = omega arith;
  classifier_high_confidence_points = omega arith;
  classifier_dedup = (pos 60, refl, omega arith, omega arith, omega arith);
  context_resolution_minutes = omega arith;
  cv_guard_mean_rps = refl;
  rps_per_pod_noise_floor_rps = omega arith;
  hourly_profile_min_hours = omega arith;
  default_scale_up_cooldown = (pos 60, refl, omega arith, omega arith, omega arith);
  default_scale_down_cooldown = (pos 300, refl, omega arith, omega arith, omega arith);
  default_max_step_size = omega arith;
  ollama_timeout = (pos 30, refl, omega arith, omega arith, omega arith);
  ollama_max_tokens = omega arith;
}

load_from_env-summary_lines_example :
    load_from_env unary (environ_of (summary_lines unary full_config)) ≡ inl full_config
load_from_env-summary_lines_example =
    load_from_env-summary_lines unary unary-IsTexts full_config full_config-IsExpressible

-- One of the URLs is missing, and a number does not parse.
abbrev broken : String → String
broken name =
    if str_eq name "FORECAST_SERVICE_URL"
    then "http://forecast"
    else if str_eq name "HOT_PATH_MIN_POINTS"
    then "many"
    else ""

load_from_env-IsReported_example : IsReported unary broken (load_from_env unary broken)
load_from_env-IsReported_example = load_from_env-IsReported unary broken

-- ===== src/Tests/Resources.antt =====
-- A resource, its Deployment and its surroundings, as the tests use them.
use agentic_autoscaler.Prelude.{ℤ, pos, some, none, [], ◌∷◌, true, false}
use agentic_autoscaler.Api.{NamespacedName, Spec, AgenticAutoscaler, phase_ready}
use agentic_autoscaler.Adapters.{ok, err, RecommendResponse}
use agentic_autoscaler.Config.{Config}
use agentic_autoscaler.Decision.Cap.{CapInput}
use agentic_autoscaler.Controller.World.{Deployment, Env, Fetched}
use agentic_autoscaler.Controller.Steps.{Reconciler}
use agentic_autoscaler.Tests.Numbers.{Fixed}

abbrev pub shop : NamespacedName
shop = record { namespace = "shop"; name = "front" }

abbrev pub billing : NamespacedName
billing = record { namespace = "shop"; name = "billing" }

abbrev pub shop_spec : Spec
shop_spec = record {
  target_ref = record { api_version = "apps/v1"; kind = "Deployment"; name = "front" };
  min_replicas = some (pos 2);
  max_replicas = some (pos 10);
  rps_per_pod_min = some (pos 50);
  rps_per_pod_max = some (pos 500);
  max_step_size = some (pos 3);
  scale_up_cooldown_seconds = none;
  scale_down_cooldown_seconds = none;
  preferred_forecaster = none;
}

abbrev pub shop_resource : AgenticAutoscaler Fixed ℤ
shop_resource = record {
  key = shop;
  annotations = [];
  being_deleted = false;
  spec = shop_spec;
  status = record {
    phase = phase_ready;
    conflict_reason = "";
    current_replicas = pos 2;
    recommended_replicas = pos 2;
    unbounded_recommended = pos 2;
    predicted_rps = pos 0;
    rps_per_pod_current = pos 100;
    last_scale_time = none;
    classified_params = none;
  };
}

abbrev pub paused_resource : AgenticAutoscaler Fixed ℤ
paused_resource = record shop_resource {
  annotations = ("autoscaling.agentic.io/kill-switch", "true") ∷ [];
}

abbrev pub two_pods : Deployment
two_pods = record { annotations = []; replicas = some (pos 2) }

abbrev pub shop_config : Config Fixed
shop_config = record {
  forecast_service_url = "http://forecast";
  prometheus_url = "http://prometheus";
  reconcile_interval = pos 60000000000;
  hot_path_history = pos 3600000000000;
  hot_path_min_points = pos 1;
  forecast_timeout = pos 5000000000;
  prophet_min_points = pos 20;
  classifier_interval = pos 3600000000000;
  classifier_history = pos 86400000000000;
  classifier_min_points = pos 70;
  classifier_high_confidence_points = pos 1000;
  classifier_dedup = pos 60000000000;
  context_resolution_minutes = pos 1;
  cv_guard_mean_rps = pos 1000;
  rps_per_pod_noise_floor_rps = pos 10;
  hourly_profile_min_hours = pos 20;
  default_scale_up_cooldown = pos 60000000000;
  default_scale_down_cooldown = pos 300000000000;
  default_max_step_size = pos 4;
  ollama_url = "";
  ollama_model = "";
  ollama_timeout = pos 0;
  ollama_max_tokens = pos 0;
}

abbrev pub shop_reconciler : Reconciler Fixed
shop_reconciler = record {
  config = shop_config;
  has_classifier = true;
  formats = record {
    int = λ n. "n";
    fixed1 = λ x. "x";
    quoted = λ s. s;
    key_text = λ key. key.name;
  };
}

abbrev pub busy_response : RecommendResponse Fixed
busy_response = record {
  predicted_rps = pos 900000;
  horizon_minutes = pos 15;
  model_used = "prophet";
}

-- The rate is 300 and the forecast asks for 900: with 100 per pod, nine pods.
abbrev pub busy_env : Env Fixed ℤ
busy_env = record {
  get_resource = Fetched.found shop_resource;
  list_hpas = ok [];
  instant_query = λ q. ok (pos 300000);
  range_query = λ q from to step. ok (record { timestamp = pos 1; value = pos 300000 } ∷ []);
  recommend = λ q. ok busy_response;
  get_deployment = ok two_pods;
  update_scale = λ n. none;
  update_status = λ s. none;
  now_history = pos 1700000000000000000;
  now_context = pos 1700000000000000000;
  now_decision = pos 1700000000000000000;
}

abbrev pub dark_env : Env Fixed ℤ
dark_env = record busy_env { instant_query = λ q. err "no route to Prometheus" }

abbrev pub paused_env : Env Fixed ℤ
paused_env = record busy_env { get_resource = Fetched.found paused_resource }

-- From 2 to 9 in steps of 3.
abbrev pub far_input : CapInput ℤ
far_input = record {
  recommended = pos 9;
  current = pos 2;
  max_step = pos 3;
  cooldown_up = pos 60;
  cooldown_down = pos 300;
  last_scale_up = pos 0;
  last_scale_down = pos 0;
  now = pos 1700000000000000000;
  binding_reason = "";
}

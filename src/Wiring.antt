-- ===== src/Wiring.antt =====
-- cmd/controller/main.go: what main makes of the loaded configuration. The manager of
-- controller-runtime and the HTTP servers are not modelled.
pub mod ColdPath
pub mod HotPath
pub mod Startup
use agentic_autoscaler.Prelude.{
  ℤ, pos, quot, String, Bool, true, false, none, some, Option, List, [], ◌⊎◌, inl, inr,
  if◌then◌else◌, str_eq, not, ◌&&◌,
}
use agentic_autoscaler.Go.Float.{Float64}
use agentic_autoscaler.Go.Channel.{Channel, make}
use agentic_autoscaler.Config.{Config, ConfigError}
use agentic_autoscaler.Config.Load.{Texts, Environ, load_from_env}
use agentic_autoscaler.Classifier.Manager.{Manager, new_manager}
use agentic_autoscaler.Controller.World.{ExplainRequest}
use agentic_autoscaler.Classifier.Worker as Cold
use agentic_autoscaler.Explainer.Worker as Explain

module _ {ℓ} {F : Type ℓ} ⦃f : Float64 F⦄ where
  -- The fields of the composite literal; those that it leaves out are zero.
  unfoldable pub classifier_config : Config F → Cold.WorkerConfig F
  unfolding quot
  classifier_config cfg = record {
    interval = cfg.classifier_interval;
    history_hours = cfg.classifier_history;
    min_points = cfg.classifier_min_points;
    high_conf_points = cfg.classifier_high_confidence_points;
    dedup_seconds = quot cfg.classifier_dedup 1000000000;
    resolution_min = pos 0;
    hourly_profile_min_hours = pos 0;
    cv_guard_mean_rps = f.of_int (pos 0);
  }

  unfoldable pub explainer_config : Config F → Explain.WorkerConfig
  explainer_config cfg = record {
    model = cfg.ollama_model;
    max_tokens = cfg.ollama_max_tokens;
    timeout = cfg.ollama_timeout;
  }

  abbrev pub new_explain_channel : Channel (ExplainRequest F)
  new_explain_channel = make 1

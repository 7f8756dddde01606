-- ===== src/Tests/ExplainerTests.antt =====
-- The prompt and the cut of the answer on concrete values.
use agentic_autoscaler.Prelude.{pos, ◌≡◌, refl, false, ◌+ℤ◌, ◌-ℤ◌, ◌*ℤ◌, add32, wrap32}
use agentic_autoscaler.Go.Time.{seconds}
use agentic_autoscaler.Reasoning
use agentic_autoscaler.Decision.Cap.{apply_cap_and_cooldown, holding_up}
use agentic_autoscaler.Controller.World.{ExplainRequest}
use agentic_autoscaler.Explainer.{bound_lines}
use agentic_autoscaler.Explainer.Answers.{bound_lines-moved}
use agentic_autoscaler.Tests.Numbers.{Fixed, fixed_time}
use agentic_autoscaler.Tests.Resources.{shop, shop_reconciler, far_input}

abbrev pub capped_request : ExplainRequest Fixed
capped_request = record {
  key = shop;
  reason = Reasoning.step_capped_up;
  current_replicas = pos 2;
  recommended_replicas = pos 9;
  target_replicas = pos 5;
  current_rps = pos 300000;
  predicted_rps = pos 900000;
  horizon_minutes = pos 15;
  model_used = "prophet";
  pattern_name = "";
  confidence = "";
  effective_cooldown_up = pos 60;
  effective_cooldown_down = pos 300;
  effective_max_step = pos 3;
  unbounded_recommended = pos 9;
  max_replicas = pos 10;
  min_replicas = pos 2;
  baseline_rps = pos 0;
  peak_p95_rps = pos 0;
  hourly_profile_valid = false;
}

bound_lines-moved_example : bound_lines shop_reconciler.formats capped_request ≡ ""
unfolding apply_cap_and_cooldown holding_up ◌-ℤ◌ seconds ◌*ℤ◌ add32 wrap32 ◌+ℤ◌
bound_lines-moved_example =
    bound_lines-moved shop_reconciler.formats capped_request far_input refl refl

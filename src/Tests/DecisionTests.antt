-- ===== src/Tests/DecisionTests.antt =====
-- The decision rules, the window and the store on concrete values.
use agentic_autoscaler.Prelude.{
  ℕ, pos, ◌+ℤ◌, ◌-ℤ◌, ◌≤ℤ◌, ◌<ℤ◌, ◌*ℤ◌, ◌≡◌, ◌≢◌, ◌↔◌, refl, true, false, none, some, [], ◌∷◌, ◌++◌,
  arith, add32, wrap32, length, List, ℤ,
}
use agentic_autoscaler.Api.{name_key}
use agentic_autoscaler.Go.Float.{◌≼◌}
use agentic_autoscaler.Go.Time.{seconds}
use agentic_autoscaler.Reasoning
use agentic_autoscaler.Decision.Cap.{
  holding_up, apply_cap_and_cooldown, clamp_recommended, clamp_rps_per_pod,
}
use agentic_autoscaler.Decision.Cap.Bounds.{IsFair, IsBetween, apply_cap_and_cooldown-IsBetween}
use agentic_autoscaler.Decision.Cap.Reasons.{Rule, apply_cap_and_cooldown-Rule}
use agentic_autoscaler.Decision.Cap.Range.{
  target_in_bounds, clamp_recommended_bounds, clamp_rps_per_pod_bounds,
}
use agentic_autoscaler.Decision.Ring.{RingBuffer}
use agentic_autoscaler.Decision.Ring.Window.{push_all, push_all_lem, last}
use agentic_autoscaler.Webhook.{validate_spec}
use agentic_autoscaler.Webhook.Soundness.{IsAdmissible, validate_spec_iff}
use agentic_autoscaler.Controller.Notifier.{notify, drop_and_push, notify-newest}
use agentic_autoscaler.Go.Channel.{Channel}
use agentic_autoscaler.Tests.Numbers.{Fixed, fixed_float, fixed_time, fixed-IsOrdered}
use agentic_autoscaler.Tests.Resources.{shop_spec, far_input}

far_input-IsFair : IsFair far_input
unfolding ◌+ℤ◌
far_input-IsFair = record {
  step_pos = omega arith;
  current_nonneg = omega arith;
  recommended_nonneg = omega arith;
  current_fits = omega arith;
  recommended_fits = omega arith;
}

far_input_capped :
    apply_cap_and_cooldown far_input
    ≡ record { target = pos 5; reason = Reasoning.step_capped_up; should_patch = true }
unfolding apply_cap_and_cooldown holding_up ◌-ℤ◌ seconds ◌*ℤ◌ add32 wrap32 ◌+ℤ◌
far_input_capped = refl

apply_cap_and_cooldown-IsBetween_example :
    IsBetween far_input (apply_cap_and_cooldown far_input).target
    × (((apply_cap_and_cooldown far_input).should_patch ≡ true)
        ↔ ((apply_cap_and_cooldown far_input).target ≢ far_input.current))
apply_cap_and_cooldown-IsBetween_example =
    apply_cap_and_cooldown-IsBetween far_input far_input-IsFair

apply_cap_and_cooldown-Rule_example : Rule far_input (apply_cap_and_cooldown far_input)
apply_cap_and_cooldown-Rule_example = apply_cap_and_cooldown-Rule far_input far_input-IsFair

-- Reconciles ten minutes apart.
abbrev far_times : List ℤ
far_times = pos 1700000000000000000 ∷ pos 1700000600000000000 ∷ pos 1700001200000000000 ∷ []

target_in_bounds_example :
    (pos 2 ≤ℤ (apply_cap_and_cooldown far_input).target)
    × ((apply_cap_and_cooldown far_input).target ≤ℤ pos 10)
unfolding clamp_recommended ◌+ℤ◌
target_in_bounds_example =
    target_in_bounds far_input (pos 9) (pos 2) (pos 10) refl (omega arith) (omega arith)
      (omega arith) (omega arith) (omega arith)

clamp_recommended_bounds_example :
    let r = clamp_recommended (pos 12) (pos 2) (pos 10) in
    (pos 2 ≤ℤ r.0)
    × (r.0 ≤ℤ pos 10)
    × ((r.1 ≡ Reasoning.max_replicas_binding) ↔ (pos 10 <ℤ pos 12))
    × ((r.1 ≡ Reasoning.min_replicas_binding) ↔ (pos 12 <ℤ pos 2))
    × ((r.1 ≡ "") ↔ (r.0 ≡ pos 12))
clamp_recommended_bounds_example = clamp_recommended_bounds (pos 12) (pos 2) (pos 10) (omega arith)

clamp_rps_per_pod_bounds_example :
    (pos 50000 ≼ clamp_rps_per_pod {F = Fixed} (pos 20000) (pos 50) (pos 500))
    × (clamp_rps_per_pod {F = Fixed} (pos 20000) (pos 50) (pos 500) ≼ pos 500000)
clamp_rps_per_pod_bounds_example =
    clamp_rps_per_pod_bounds {F = Fixed} fixed-IsOrdered (pos 20000) (pos 50) (pos 500) refl
      (omega arith, omega arith) (omega arith, omega arith) (omega arith)

abbrev small_window : RingBuffer ℕ
small_window = record { items = 1 ∷ 2 ∷ []; cap = 2 }

push_all_lem_example :
    push_all small_window (3 ∷ 4 ∷ 5 ∷ [])
    ≡ some (record small_window { items = last 2 ((1 ∷ 2 ∷ []) ++ (3 ∷ 4 ∷ 5 ∷ [])) })
push_all_lem_example = push_all_lem (3 ∷ 4 ∷ 5 ∷ []) small_window (omega arith) (omega arith)

validate_spec_iff_example : (validate_spec shop_spec ≡ none) ↔ IsAdmissible shop_spec
validate_spec_iff_example =
    validate_spec_iff shop_spec
      (record { min_int32 = (omega arith, omega arith); max_int32 = (omega arith, omega arith) })

abbrev one_pending : Channel ℕ
one_pending = record { limit = 1; queue = 1 ∷ [] }

notify-newest_example :
    ((notify false 2 one_pending).queue ≡ 2 ∷ [])
    × (length (drop_and_push false 2 one_pending).queue ≡ 1)
notify-newest_example = notify-newest false 2 one_pending refl (omega arith)

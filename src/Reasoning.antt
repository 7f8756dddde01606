-- ===== src/Reasoning.antt =====
-- internal/reasoning/tokens.go: the reasoning tokens, the annotation keys and the Event reasons.
use agentic_autoscaler.Prelude.{str_eq, String, List, [], ◌∷◌, if◌then◌else◌}

abbrev pub scale_up : String
scale_up = "scale_up"

abbrev pub scale_down : String
scale_down = "scale_down"

abbrev pub no_change : String
no_change = "no_change"

abbrev pub step_capped_up : String
step_capped_up = "step_capped_up"

abbrev pub step_capped_down : String
step_capped_down = "step_capped_down"

abbrev pub cooldown_holding_up : String
cooldown_holding_up = "cooldown_holding_up"

abbrev pub cooldown_holding_down : String
cooldown_holding_down = "cooldown_holding_down"

abbrev pub max_replicas_binding : String
max_replicas_binding = "max_replicas_binding"

abbrev pub min_replicas_binding : String
min_replicas_binding = "min_replicas_binding"

abbrev pub kill_switched : String
kill_switched = "kill_switched"

abbrev pub conflict_detected : String
conflict_detected = "conflict_detected"

abbrev pub forecast_unavailable : String
forecast_unavailable = "forecast_unavailable"

abbrev pub metrics_unavailable : String
metrics_unavailable = "metrics_unavailable"

abbrev pub pattern_classified : String
pattern_classified = "pattern_classified"

abbrev pub pattern_unknown : String
pattern_unknown = "pattern_unknown"

abbrev pub scale_explained : String
scale_explained = "scale_explained"

abbrev pub annotation_kill_switch : String
annotation_kill_switch = "autoscaling.agentic.io/kill-switch"

abbrev pub annotation_reclassify : String
annotation_reclassify = "autoscaling.agentic.io/reclassify"

abbrev pub pascal_map : List (String × String)
pascal_map =
    (scale_up, "ScaleUp")
    ∷ (scale_down, "ScaleDown")
    ∷ (no_change, "NoChange")
    ∷ (step_capped_up, "StepCappedUp")
    ∷ (step_capped_down, "StepCappedDown")
    ∷ (cooldown_holding_up, "CooldownHoldingUp")
    ∷ (cooldown_holding_down, "CooldownHoldingDown")
    ∷ (max_replicas_binding, "MaxReplicasBinding")
    ∷ (min_replicas_binding, "MinReplicasBinding")
    ∷ (kill_switched, "KillSwitched")
    ∷ (conflict_detected, "ConflictDetected")
    ∷ (forecast_unavailable, "ForecastUnavailable")
    ∷ (metrics_unavailable, "MetricsUnavailable")
    ∷ (pattern_classified, "PatternClassified")
    ∷ (pattern_unknown, "PatternUnknown")
    ∷ (scale_explained, "ScaleExplained")
    ∷ []

unfoldable pub find_reason : List (String × String) → String → String
find_reason [] snake = snake
find_reason ((token, pascal) ∷ rest) snake =
    if str_eq snake token then pascal else find_reason rest snake

unfoldable pub pascal_reason : String → String
unfolding find_reason
pascal_reason snake = find_reason pascal_map snake

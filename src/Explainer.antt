-- ===== src/Explainer.antt =====
-- internal/explainer/prompt.go: the prompt for an explanation, and the cut of the answer.
pub mod Answers
pub mod Worker
pub mod Reports
use agentic_autoscaler.Prelude.{
  ℕ, ◌+◌, ◌-◌, ◌≤◌, String, str_eq, concat, List, [], ◌∷◌, ◌++◌, Bool, ◌&&◌, ◌||◌, not, length,
  take, leb, if◌then◌else◌, ◌≡◌, refl, arith, length-append, replicate, length-replicate,
}
use agentic_autoscaler.Reasoning
use agentic_autoscaler.Controller.World.{ExplainRequest, Formats}

abbrev pub system_message : String
system_message =
    "You are observing a Kubernetes autoscaler. Explain scaling decisions in 2-3 plain English sentences. Be concise, specific, and ground your explanation in the data provided."

abbrev pub max_event_length : ℕ
max_event_length = 500

abbrev pub line_if : Bool → List String → String
line_if b parts = if b then concat parts else ""

module _ {ℓ} {F : Type ℓ} (fmt : Formats F) where
  -- The lines that depend on the pattern.
  unfoldable pub pattern_lines : ExplainRequest F → String
  pattern_lines req = concat (
      line_if (not (str_eq req.pattern_name "") && not (str_eq req.pattern_name "default"))
        ("Traffic pattern: " ∷ req.pattern_name ∷ " (confidence: " ∷ req.confidence ∷ ")\n" ∷ [])
      ∷ line_if (not (str_eq req.pattern_name "")) (
          "Long-term context: baseline "
          ∷ fmt.int req.baseline_rps
          ∷ " rps, p95 "
          ∷ fmt.int req.peak_p95_rps
          ∷ " rps\n"
          ∷ [])
      ∷ [])

  unfoldable pub capped_line : ExplainRequest F → String
  capped_line req =
      line_if
        (str_eq req.reason Reasoning.step_capped_up || str_eq req.reason Reasoning.step_capped_down)
        ("This scale was limited by maxStep: the controller computed "
          ∷ fmt.int req.recommended_replicas
          ∷ " replicas from the forecast but moved only to "
          ∷ fmt.int req.target_replicas
          ∷ " this reconcile (cap: "
          ∷ fmt.int req.effective_max_step
          ∷ " replicas per reconcile).\n"
          ∷ [])

  abbrev pub max_parts : ExplainRequest F → List String
  max_parts req =
      "This scale was limited by maxReplicas: the forecast asked for "
      ∷ fmt.int req.unbounded_recommended
      ∷ " replicas but the CRD bound capped it at maxReplicas="
      ∷ fmt.int req.max_replicas
      ∷ ". Raise spec.maxReplicas to let the autoscaler scale further.\n"
      ∷ []

  abbrev pub min_parts : ExplainRequest F → List String
  min_parts req =
      "This scale was limited by minReplicas: the forecast asked for only "
      ∷ fmt.int req.unbounded_recommended
      ∷ " replicas but the CRD bound floored it at minReplicas="
      ∷ fmt.int req.min_replicas
      ∷ ".\n"
      ∷ []

  -- The lines of the two replica bounds.
  unfoldable pub bound_lines : ExplainRequest F → String
  bound_lines req = concat (
      line_if (str_eq req.reason Reasoning.max_replicas_binding) (max_parts req)
      ∷ line_if (str_eq req.reason Reasoning.min_replicas_binding) (min_parts req)
      ∷ [])

  -- The system and the user message.
  unfoldable pub build_prompt : ExplainRequest F → String × String
  unfolding pattern_lines capped_line bound_lines
  build_prompt req = (
    system_message,
    concat (
        pattern_lines req
        ∷ "Current RPS: "
        ∷ fmt.fixed1 req.current_rps
        ∷ ", Predicted RPS ("
        ∷ fmt.int req.horizon_minutes
        ∷ " min ahead): "
        ∷ fmt.fixed1 req.predicted_rps
        ∷ "\nScaling: "
        ∷ fmt.int req.current_replicas
        ∷ " → "
        ∷ fmt.int req.target_replicas
        ∷ " replicas ("
        ∷ req.reason
        ∷ ")\n"
        ∷ capped_line req
        ∷ bound_lines req
        ∷ "Forecasting model: "
        ∷ req.model_used
        ∷ "\nActive parameters: scaleUpCooldown="
        ∷ fmt.int req.effective_cooldown_up
        ∷ "s, scaleDownCooldown="
        ∷ fmt.int req.effective_cooldown_down
        ∷ "s, maxStep="
        ∷ fmt.int req.effective_max_step
        ∷ "\n\nExplain why this decision was made and what the traffic data suggests "
        ∷ "relative to the workload's long-term baseline."
        ∷ []),
  )

-- A text as its bytes; 46 is the byte of ".". A length is not negative: s[:n] panics on a negative n.
unfoldable pub trim_content : List ℕ → ℕ → List ℕ
trim_content s max_len =
    if leb (length s) max_len
    then s
    else if leb max_len 3
    then take max_len s
    else take (max_len - 3) s ++ (46 ∷ 46 ∷ 46 ∷ [])

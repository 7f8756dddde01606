-- ===== src/Webhook.antt =====
-- internal/webhook/v1alpha1/validator.go and agenticautoscaler_webhook.go: admission of a resource.
-- The texts of fmt.Sprintf are not modelled: a problem is a constructor with the values it reports.
pub mod Soundness
use agentic_autoscaler.Prelude.{
  ℤ, pos, String, str_eq, Option, none, some, List, [], ◌∷◌, ◌++◌, Bool, true, false, ◌||◌, ltb_ℤ,
  leb_ℤ, sub32, if◌then◌else◌,
}
use agentic_autoscaler.Api.{Spec, AgenticAutoscaler}

pub data Problem : Type 0 where
  min_replicas_below_one : ℤ → Problem
  max_not_above_min : ℤ → ℤ → Problem
  rps_min_below_one : ℤ → Problem
  rps_min_not_below_max : ℤ → ℤ → Problem
  step_below_one : ℤ → Problem
  step_above_range : ℤ → ℤ → Problem
  up_cooldown_negative : ℤ → Problem
  down_cooldown_negative : ℤ → Problem
  unknown_forecaster : String → Problem

abbrev pub problem_if : Bool → Problem → List Problem
problem_if b p = if b then p ∷ [] else []

-- The checks in the source's order; a check of a nil pointer reports nothing.
unfoldable pub check_min_replicas : Option ℤ → List Problem
check_min_replicas none = []
check_min_replicas (some lo) = problem_if (ltb_ℤ lo (pos 1)) (Problem.min_replicas_below_one lo)

unfoldable pub check_replica_order : Option ℤ → Option ℤ → List Problem
check_replica_order none hi = []
check_replica_order (some lo) none = []
check_replica_order (some lo) (some hi) = problem_if (leb_ℤ hi lo) (Problem.max_not_above_min hi lo)

unfoldable pub check_rps_min : Option ℤ → List Problem
check_rps_min none = []
check_rps_min (some lo) = problem_if (ltb_ℤ lo (pos 1)) (Problem.rps_min_below_one lo)

unfoldable pub check_rps_order : Option ℤ → Option ℤ → List Problem
check_rps_order none hi = []
check_rps_order (some lo) none = []
check_rps_order (some lo) (some hi) = problem_if (leb_ℤ hi lo) (Problem.rps_min_not_below_max lo hi)

-- `rangeSize` is an int32 difference.
unfoldable pub check_step_range : Option ℤ → Option ℤ → ℤ → List Problem
check_step_range none hi step = []
check_step_range (some lo) none step = []
check_step_range (some lo) (some hi) step =
    let range_size = sub32 hi lo in
    problem_if (ltb_ℤ range_size step) (Problem.step_above_range step range_size)

unfoldable pub check_step : Option ℤ → Option ℤ → Option ℤ → List Problem
unfolding check_step_range
check_step lo hi none = []
check_step lo hi (some step) =
    problem_if (ltb_ℤ step (pos 1)) (Problem.step_below_one step) ++ check_step_range lo hi step

unfoldable pub check_cooldown : (ℤ → Problem) → Option ℤ → List Problem
check_cooldown problem none = []
check_cooldown problem (some s) = problem_if (ltb_ℤ s (pos 0)) (problem s)

unfoldable pub is_forecaster : String → Bool
is_forecaster s =
    str_eq s "prophet"
    || (str_eq s "linear_extrap" || (str_eq s "gbdt_quantile" || str_eq s "auto"))

unfoldable pub check_forecaster : Option String → List Problem
check_forecaster none = []
check_forecaster (some s) = if is_forecaster s then [] else Problem.unknown_forecaster s ∷ []

unfoldable pub problems : Spec → List Problem
unfolding check_min_replicas check_replica_order check_rps_min check_rps_order check_step
    check_cooldown check_forecaster
problems spec =
    check_min_replicas spec.min_replicas
    ++ (check_replica_order spec.min_replicas spec.max_replicas
        ++ (check_rps_min spec.rps_per_pod_min
            ++ (check_rps_order spec.rps_per_pod_min spec.rps_per_pod_max
                ++ (check_step spec.min_replicas spec.max_replicas spec.max_step_size
                    ++ (check_cooldown Problem.up_cooldown_negative spec.scale_up_cooldown_seconds
                        ++ (check_cooldown Problem.down_cooldown_negative
                              spec.scale_down_cooldown_seconds
                            ++ check_forecaster spec.preferred_forecaster))))))

-- `nil` is `none`; an error lists the problems.
abbrev pub report : List Problem → Option (List Problem)
report [] = none
report (p ∷ ps) = some (p ∷ ps)

unfoldable pub validate_spec : Spec → Option (List Problem)
unfolding problems
validate_spec spec = report (problems spec)

-- The object of an admission request; `other` is any object of another type, with its %T.
pub data Object {ℓ} (R : Type ℓ) : Type ℓ where
  resource : R → Object R
  other : String → Object R

pub data Refusal : Type 0 where
  wrong_type : String → Refusal
  invalid : List Problem → Refusal

abbrev pub refusal : Option (List Problem) → Option Refusal
refusal none = none
refusal (some ps) = some (Refusal.invalid ps)

module _ {ℓ κ} {F : Type ℓ} {T : Type κ} where
  unfoldable pub validate_create : Object (AgenticAutoscaler F T) → Option Refusal
  unfolding validate_spec
  validate_create (Object.resource aas) = refusal (validate_spec aas.spec)
  validate_create (Object.other name) = some (Refusal.wrong_type name)

  unfoldable pub validate_update :
      Object (AgenticAutoscaler F T) → Object (AgenticAutoscaler F T) → Option Refusal
  unfolding validate_spec
  validate_update old (Object.resource aas) = refusal (validate_spec aas.spec)
  validate_update old (Object.other name) = some (Refusal.wrong_type name)

  unfoldable pub validate_delete : Object (AgenticAutoscaler F T) → Option Refusal
  validate_delete object = none

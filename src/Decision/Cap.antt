-- ===== src/Decision/Cap.antt =====
-- internal/decision/decision.go: the replica count that the forecast asks for, its clamp to the
-- bounds of the resource, and the step cap, cooldown and hysteresis of steps 6 to 8.
pub mod Bounds
pub mod Reasons
pub mod Settle
pub mod Range
pub mod Moves
use agentic_autoscaler.Prelude.{
  str_eq, ℤ, pos, String, Bool, not, if◌then◌else◌, ltb_ℤ, leb_ℤ, eqb_ℤ, add32, sub32, max_int32,
}
use agentic_autoscaler.Go.Float.{Float64}
use agentic_autoscaler.Go.Time.{GoTime, seconds}
use agentic_autoscaler.Reasoning

module _ {ℓ} {F : Type ℓ} ⦃f : Float64 F⦄ where
  unfoldable pub compute_unbounded_recommended : F → F → ℤ
  compute_unbounded_recommended predicted_rps rps_per_pod =
      if f.le rps_per_pod (f.of_int (pos 0))
      then max_int32
      else f.to_int32 (f.ceil (f.div predicted_rps rps_per_pod))

  unfoldable pub clamp_rps_per_pod : F → ℤ → ℤ → F
  clamp_rps_per_pod v min_rps_per_pod max_rps_per_pod =
      if f.lt v (f.of_int min_rps_per_pod)
      then f.of_int min_rps_per_pod
      else if f.lt (f.of_int max_rps_per_pod) v
      then f.of_int max_rps_per_pod
      else v

unfoldable pub clamp_recommended : ℤ → ℤ → ℤ → ℤ × String
clamp_recommended unbounded min_replicas max_replicas =
    if ltb_ℤ max_replicas unbounded
    then (max_replicas, "max_replicas_binding")
    else if ltb_ℤ unbounded min_replicas
    then (min_replicas, "min_replicas_binding")
    else (unbounded, "")

pub record CapInput {ℓ} (T : Type ℓ) : Type ℓ where
  pub recommended : ℤ
  pub current : ℤ
  pub max_step : ℤ
  pub cooldown_up : ℤ
  pub cooldown_down : ℤ
  pub last_scale_up : T
  pub last_scale_down : T
  pub now : T
  pub binding_reason : String

pub record CapOutput : Type 0 where
  pub target : ℤ
  pub reason : String
  pub should_patch : Bool

module _ {ℓ} {T : Type ℓ} ⦃t : GoTime T⦄ where
  -- `in.Now.Sub(in.LastScaleUp) < time.Duration(in.CooldownUp)*time.Second`, and its twin
  unfoldable pub holding_up : CapInput T → Bool
  holding_up c = ltb_ℤ (t.sub c.now c.last_scale_up) (seconds c.cooldown_up)

  unfoldable pub holding_down : CapInput T → Bool
  holding_down c = ltb_ℤ (t.sub c.now c.last_scale_down) (seconds c.cooldown_down)

  -- The three cases of the switch, as the pair of the target and the reason.
  unfoldable pub cap_up : CapInput T → ℤ × String
  cap_up c =
      let limit = add32 c.current c.max_step in
      let capped : ℤ × String =
        if ltb_ℤ limit c.recommended
        then (limit, Reasoning.step_capped_up)
        else (c.recommended, Reasoning.scale_up) in
      if holding_up c then (c.current, Reasoning.cooldown_holding_up) else capped

  unfoldable pub cap_down : CapInput T → ℤ × String
  cap_down c =
      let limit = sub32 c.current c.max_step in
      let capped : ℤ × String =
        if ltb_ℤ c.recommended limit
        then (limit, Reasoning.step_capped_down)
        else (c.recommended, Reasoning.scale_down) in
      if holding_down c then (c.current, Reasoning.cooldown_holding_down) else capped

  unfoldable pub hold : CapInput T → ℤ × String
  hold c = (c.current, if str_eq c.binding_reason "" then Reasoning.no_change else c.binding_reason)

  unfoldable pub cap_case : CapInput T → ℤ × String
  unfolding cap_up cap_down hold
  cap_case c =
      if ltb_ℤ c.current c.recommended
      then cap_up c
      else if ltb_ℤ c.recommended c.current
      then cap_down c
      else hold c

  unfoldable pub apply_cap_and_cooldown : CapInput T → CapOutput
  unfolding cap_case
  apply_cap_and_cooldown c =
      let (target, reason) = cap_case c in
      record { target = target; reason = reason; should_patch = not (eqb_ℤ target c.current) }

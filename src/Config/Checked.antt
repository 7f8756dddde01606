-- ===== src/Config/Checked.antt =====
-- What a loaded configuration satisfies.
use agentic_autoscaler.Prelude.{
  ℤ, pos, ◌≤ℤ◌, ltb_ℤ, List, [], ◌∷◌, ◌++◌, ◌≡◌, inl, inr, refl, ◌||◌, Bool, true, false, arith,
  Bool-cases,
}
use mathlib.Core.Path.{subst}
use agentic_autoscaler.Go.Float.{Float64}
use agentic_autoscaler.Config.{Config, ConfigError, error_if, points_floor, check_points, validate}
use agentic_autoscaler.Config.Load.{Texts, Environ, read_environ, accept, load_from_env}

-- The bounds of the design, with the floor of the number of points at the configured resolution.
pub record IsChecked {ℓ} {F : Type ℓ} ⦃f : Float64 F⦄ (c : Config F) : Type ℓ where
  pub resolution : pos 1 ≤ℤ c.context_resolution_minutes
  pub min_points : points_floor c.context_resolution_minutes ≤ℤ c.classifier_min_points
  pub high_points : c.classifier_min_points ≤ℤ c.classifier_high_confidence_points
  pub profile_hours : (pos 1 ≤ℤ c.hourly_profile_min_hours) × (c.hourly_profile_min_hours ≤ℤ pos 24)
  -- what `CVGuardMeanRPS < 0` refuses; NaN is not refused
  pub cv_guard : f.lt c.cv_guard_mean_rps (f.of_int (pos 0)) ≡ false
  pub noise_floor : pos 0 ≤ℤ c.rps_per_pod_noise_floor_rps
  pub max_step : pos 1 ≤ℤ c.default_max_step_size
  pub hot_points : pos 1 ≤ℤ c.hot_path_min_points
  pub cooldowns : (pos 0 ≤ℤ c.default_scale_up_cooldown) × (pos 0 ≤ℤ c.default_scale_down_cooldown)

pub both_nil {ℓ} : {A : Type ℓ} (xs ys : List A) → xs ++ ys ≡ [] → (xs ≡ []) × (ys ≡ [])
both_nil [] ys h = (refl, h)
both_nil (x ∷ xs) ys h = ground arith

-- A check that found nothing, and those after it.
clear :
    (b : Bool) (e : ConfigError) (rest : List ConfigError)
    → error_if b e ++ rest ≡ []
    → (b ≡ false) × (rest ≡ [])
unfolding error_if
clear true e rest h = absurd (ground arith)
clear false e rest h = (refl, h)

clear_last : (b : Bool) (e : ConfigError) → error_if b e ≡ [] → b ≡ false
unfolding error_if
clear_last true e h = ground arith
clear_last false e h = refl

check_points-nil :
    (resolution min_points : ℤ)
    → check_points resolution min_points ≡ []
    → (pos 1 ≤ℤ resolution) × (points_floor resolution ≤ℤ min_points)
unfolding check_points
check_points-nil resolution min_points h = elim (Bool-cases (ltb_ℤ resolution (pos 1))) [
  | inl low ↦ ground arith
  | inr fine ↦ ground arith
]

module _ {ℓ} {F : Type ℓ} ⦃f : Float64 F⦄ where
  from_checks :
      (c : Config F)
      → pos 1 ≤ℤ c.context_resolution_minutes
      → points_floor c.context_resolution_minutes ≤ℤ c.classifier_min_points
      → ltb_ℤ c.hourly_profile_min_hours (pos 1) || ltb_ℤ (pos 24) c.hourly_profile_min_hours
        ≡ false
      → f.lt c.cv_guard_mean_rps (f.of_int (pos 0)) ≡ false
      → ltb_ℤ c.rps_per_pod_noise_floor_rps (pos 0) ≡ false
      → ltb_ℤ c.classifier_high_confidence_points c.classifier_min_points ≡ false
      → ltb_ℤ c.default_max_step_size (pos 1) ≡ false
      → ltb_ℤ c.hot_path_min_points (pos 1) ≡ false
      → ltb_ℤ c.default_scale_up_cooldown (pos 0) ≡ false
      → ltb_ℤ c.default_scale_down_cooldown (pos 0) ≡ false
      → IsChecked c
  from_checks c resolution floor hours cv noise high step hot up down = record {
    resolution = resolution;
    min_points = floor;
    high_points = ground arith;
    profile_hours = ground arith;
    cv_guard = cv;
    noise_floor = ground arith;
    max_step = ground arith;
    hot_points = ground arith;
    cooldowns = ground arith;
  }

  pub validate-IsChecked : (c : Config F) → validate c ≡ [] → IsChecked c
  unfolding validate
  validate-IsChecked c none_found =
      let (points, r1) =
        both_nil (check_points c.context_resolution_minutes c.classifier_min_points) _ none_found in
      let (hours, r2) = clear _ _ _ r1 in
      let (cv, r3) = clear _ _ _ r2 in
      let (noise, r4) = clear _ _ _ r3 in
      let (high, r5) = clear _ _ _ r4 in
      let (step, r6) = clear _ _ _ r5 in
      let (hot, r7) = clear _ _ _ r6 in
      let (up, last) = clear _ _ _ r7 in
      let down = clear_last _ _ last in
      let (resolution, floor) = check_points-nil _ _ points in
      from_checks c resolution floor hours cv noise high step hot up down

  accept-inl :
      {A : Type ℓ} (x : Texts F) (c d : A) (errs : List ConfigError)
      → accept x c errs ≡ inl d
      → (c ≡ d) × (errs ≡ [])
  accept-inl x c d [] h = (cc h, refl)
  accept-inl x c d (e ∷ errs) h = ground arith

  -- A configuration that LoadFromEnv accepts satisfies the bounds of the design, whatever the variables
  -- and the parsers are: the number of points is at least the floor at its resolution, the thresholds
  -- are ordered, the profile asks for 1 to 24 hours, the step and the points of the hot path are
  -- positive, and the cooldowns and the noise floor are not negative.
  pub load_from_env-IsChecked :
      (x : Texts F) (env : Environ) (c : Config F) → load_from_env x env ≡ inl c → IsChecked c
  unfolding load_from_env
  load_from_env-IsChecked x env c h =
      let (found, errs) = read_environ x env in
      let (same, none_found) = accept-inl x found c _ h in
      subst IsChecked same (validate-IsChecked found (both_nil errs _ none_found).1)

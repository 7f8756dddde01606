-- ===== src/Decision/Cap/Bounds.antt =====
-- What `apply_cap_and_cooldown` promises of the replica count that it returns.
use agentic_autoscaler.Prelude.{
  ℤ, pos, ◌+ℤ◌, ◌-ℤ◌, ◌≤ℤ◌, ◌<ℤ◌, ◌≡◌, ◌≢◌, ◌↔◌, ◌⊎◌, true, arith, add32, sub32, max_int32,
  add32_in_range, sub32_in_range, +ℤ_parts, -ℤ_parts, parts_apart,
}
use agentic_autoscaler.Go.Time.{GoTime}
use agentic_autoscaler.Decision.Cap.{CapInput, apply_cap_and_cooldown, cap_up, cap_down}

-- The step is at least 1, no count is negative, and a step up from either count fits an int32.
pub record IsFair {ℓ} {T : Type ℓ} (c : CapInput T) : Type 0 where
  pub step_pos : pos 1 ≤ℤ c.max_step
  pub current_nonneg : pos 0 ≤ℤ c.current
  pub recommended_nonneg : pos 0 ≤ℤ c.recommended
  pub current_fits : c.current +ℤ c.max_step ≤ℤ max_int32
  pub recommended_fits : c.recommended +ℤ c.max_step ≤ℤ max_int32

module _ {ℓ} {T : Type ℓ} where
  pub add32_fair :
      {c : CapInput T} → IsFair c → add32 c.current c.max_step ≡ c.current +ℤ c.max_step
  add32_fair {c} h = add32_in_range c.current c.max_step (
      omega (
        arith,
        h.current_fits,
        h.current_nonneg,
        h.step_pos,
        +ℤ_parts c.current c.max_step,
        parts_apart (c.current +ℤ c.max_step),
      ))

  pub sub32_fair :
      {c : CapInput T} → IsFair c → sub32 c.current c.max_step ≡ c.current -ℤ c.max_step
  sub32_fair {c} h = sub32_in_range c.current c.max_step (
      omega (
        arith,
        +ℤ_parts c.current c.max_step,
        -ℤ_parts c.current c.max_step,
        parts_apart (c.current -ℤ c.max_step),
      ))

-- The target lies between the current and the recommended count, and within one step of the former.
abbrev pub IsBetween {ℓ} : {T : Type ℓ} → CapInput T → ℤ → Type 0
IsBetween c target =
    ((c.current ≤ℤ target) × (target ≤ℤ c.recommended)
      ⊎ (c.recommended ≤ℤ target) × (target ≤ℤ c.current))
    × (target ≤ℤ c.current +ℤ c.max_step)
    × (c.current -ℤ c.max_step ≤ℤ target)

module _ {ℓ} {T : Type ℓ} ⦃t : GoTime T⦄ where
  cap_up-IsBetween :
      (c : CapInput T) → IsFair c → c.current <ℤ c.recommended → IsBetween c (cap_up c).0
  unfolding cap_up
  cap_up-IsBetween c h lt =
      ground (arith, add32_fair h, +ℤ_parts c.current c.max_step, -ℤ_parts c.current c.max_step)

  cap_down-IsBetween :
      (c : CapInput T) → IsFair c → c.recommended <ℤ c.current → IsBetween c (cap_down c).0
  unfolding cap_down
  cap_down-IsBetween c h lt =
      ground (arith, sub32_fair h, +ℤ_parts c.current c.max_step, -ℤ_parts c.current c.max_step)

  -- The target lies between the current and the recommended count and within one step of the
  -- current one, if the step is positive, no count is negative and no sum overflows; and the
  -- scale subresource is patched exactly when the target differs from the current count.
  pub apply_cap_and_cooldown-IsBetween :
      (c : CapInput T)
      → IsFair c
      → IsBetween c (apply_cap_and_cooldown c).target
        × (((apply_cap_and_cooldown c).should_patch ≡ true)
            ↔ ((apply_cap_and_cooldown c).target ≢ c.current))
  unfolding apply_cap_and_cooldown
  apply_cap_and_cooldown-IsBetween c h = ground (
    arith,
    cap_up-IsBetween c h,
    cap_down-IsBetween c h,
    +ℤ_parts c.current c.max_step,
    -ℤ_parts c.current c.max_step,
  )

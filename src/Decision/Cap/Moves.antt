-- ===== src/Decision/Cap/Moves.antt =====
-- The reasons that a change of the replica count is reported with.
use agentic_autoscaler.Prelude.{◌≡◌, ◌⊎◌, true, arith}
use agentic_autoscaler.Go.Time.{GoTime}
use agentic_autoscaler.Reasoning
use agentic_autoscaler.Decision.Cap.{CapInput, apply_cap_and_cooldown}

module _ {ℓ} {T : Type ℓ} ⦃t : GoTime T⦄ where
  -- A change of the replica count is reported as a scale or as a capped step, never with the reason
  -- that a replica bound or a cooldown gives.
  pub apply_cap_and_cooldown-moves :
      (c : CapInput T)
      → (apply_cap_and_cooldown c).should_patch ≡ true
      → let reason = (apply_cap_and_cooldown c).reason in
        (reason ≡ Reasoning.scale_up)
        ⊎ ((reason ≡ Reasoning.scale_down)
            ⊎ ((reason ≡ Reasoning.step_capped_up) ⊎ (reason ≡ Reasoning.step_capped_down)))
  unfolding apply_cap_and_cooldown
  apply_cap_and_cooldown-moves c moved = ground arith

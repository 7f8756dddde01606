-- ===== src/Decision/Cap/Reasons.antt =====
-- Which reasoning token `apply_cap_and_cooldown` reports, and what it says of the decision.
use agentic_autoscaler.Prelude.{
  str_eq, str_eq_iff, String, ◌≡◌, ◌≢◌, ◌<ℤ◌, ◌≤ℤ◌, ◌+ℤ◌, ◌-ℤ◌, true, false, arith, lt_or_ge,
  compare_cases, inl, inr, sym, Bool-cases, +ℤ_parts, -ℤ_parts,
}
use agentic_autoscaler.Go.Time.{GoTime, seconds}
use agentic_autoscaler.Reasoning
use agentic_autoscaler.Decision.Cap.{
  CapInput, CapOutput, apply_cap_and_cooldown, holding_up, holding_down,
}
use agentic_autoscaler.Decision.Cap.Bounds.{IsFair, add32_fair, sub32_fair}

-- The documented rules 1 to 4: which target and which reason an input may have.
pub data Rule {ℓ} {T : Type ℓ} ⦃t : GoTime T⦄ (c : CapInput T) (o : CapOutput) : Type 0 where
  cooling_up :
      c.current <ℤ c.recommended
      → t.sub c.now c.last_scale_up <ℤ seconds c.cooldown_up
      → o.target ≡ c.current
      → o.reason ≡ Reasoning.cooldown_holding_up
      → o.should_patch ≡ false
      → Rule c o
  capped_up :
      c.current +ℤ c.max_step <ℤ c.recommended
      → seconds c.cooldown_up ≤ℤ t.sub c.now c.last_scale_up
      → o.target ≡ c.current +ℤ c.max_step
      → o.reason ≡ Reasoning.step_capped_up
      → o.should_patch ≡ true
      → Rule c o
  moved_up :
      c.current <ℤ c.recommended
      → c.recommended ≤ℤ c.current +ℤ c.max_step
      → seconds c.cooldown_up ≤ℤ t.sub c.now c.last_scale_up
      → o.target ≡ c.recommended
      → o.reason ≡ Reasoning.scale_up
      → o.should_patch ≡ true
      → Rule c o
  cooling_down :
      c.recommended <ℤ c.current
      → t.sub c.now c.last_scale_down <ℤ seconds c.cooldown_down
      → o.target ≡ c.current
      → o.reason ≡ Reasoning.cooldown_holding_down
      → o.should_patch ≡ false
      → Rule c o
  capped_down :
      c.recommended <ℤ c.current -ℤ c.max_step
      → seconds c.cooldown_down ≤ℤ t.sub c.now c.last_scale_down
      → o.target ≡ c.current -ℤ c.max_step
      → o.reason ≡ Reasoning.step_capped_down
      → o.should_patch ≡ true
      → Rule c o
  moved_down :
      c.recommended <ℤ c.current
      → c.current -ℤ c.max_step ≤ℤ c.recommended
      → seconds c.cooldown_down ≤ℤ t.sub c.now c.last_scale_down
      → o.target ≡ c.recommended
      → o.reason ≡ Reasoning.scale_down
      → o.should_patch ≡ true
      → Rule c o
  bound :
      c.recommended ≡ c.current
      → c.binding_reason ≢ ""
      → o.target ≡ c.current
      → o.reason ≡ c.binding_reason
      → o.should_patch ≡ false
      → Rule c o
  unchanged :
      c.recommended ≡ c.current
      → c.binding_reason ≡ ""
      → o.target ≡ c.current
      → o.reason ≡ Reasoning.no_change
      → o.should_patch ≡ false
      → Rule c o

absurd_eq : {s : String} → s ≡ "" → str_eq s "" ≡ false → ⊥
absurd_eq {s} p q = cc ((str_eq_iff s "").1 p)

module _ {ℓ} {T : Type ℓ} ⦃t : GoTime T⦄ where
  apply-up :
      (c : CapInput T) → IsFair c → c.current <ℤ c.recommended → Rule c (apply_cap_and_cooldown c)
  unfolding apply_cap_and_cooldown holding_up
  apply-up c h lt =
      let fits = add32_fair h in
      let parts = +ℤ_parts c.current c.max_step in
      elim (lt_or_ge (t.sub c.now c.last_scale_up) (seconds c.cooldown_up)) [
        | inl cool ↦ Rule.cooling_up lt cool (ground arith) (ground arith) (ground arith)
        | inr over ↦ elim (lt_or_ge (c.current +ℤ c.max_step) c.recommended) [
          | inl far ↦ Rule.capped_up far over (ground arith) (ground arith) (ground arith)
          | inr near ↦ Rule.moved_up lt near over (ground arith) (ground arith) (ground arith)
        ]
      ]

  apply-down :
      (c : CapInput T) → IsFair c → c.recommended <ℤ c.current → Rule c (apply_cap_and_cooldown c)
  unfolding apply_cap_and_cooldown holding_down
  apply-down c h lt =
      let fits = sub32_fair h in
      let parts = -ℤ_parts c.current c.max_step in
      elim (lt_or_ge (t.sub c.now c.last_scale_down) (seconds c.cooldown_down)) [
        | inl cool ↦ Rule.cooling_down lt cool (ground arith) (ground arith) (ground arith)
        | inr over ↦ elim (lt_or_ge c.recommended (c.current -ℤ c.max_step)) [
          | inl far ↦ Rule.capped_down far over (ground arith) (ground arith) (ground arith)
          | inr near ↦ Rule.moved_down lt near over (ground arith) (ground arith) (ground arith)
        ]
      ]

  apply-equal : (c : CapInput T) → c.recommended ≡ c.current → Rule c (apply_cap_and_cooldown c)
  unfolding apply_cap_and_cooldown
  apply-equal c e = elim (Bool-cases (str_eq c.binding_reason "")) [
    | inl none_set ↦
        let blank = (str_eq_iff c.binding_reason "").0 none_set in
        Rule.unchanged e blank (ground arith) (ground arith) (ground arith)
    | inr some_set ↦
        let set = λ (p : c.binding_reason ≡ ""). absurd_eq p some_set in
        Rule.bound e set (ground arith) (ground arith) (ground arith)
  ]

  -- The outcome is the one that the documented precedence rules give for the input: the cooldown
  -- comes before the step cap, the cap before the plain move, and a binding reason survives only
  -- where the count does not change; if the step is positive and nothing overflows.
  pub apply_cap_and_cooldown-Rule : (c : CapInput T) → IsFair c → Rule c (apply_cap_and_cooldown c)
  apply_cap_and_cooldown-Rule c h = elim (compare_cases c.current c.recommended) [
    | inl up ↦ apply-up c h up
    | inr (inl down) ↦ apply-down c h down
    | inr (inr same) ↦ apply-equal c (sym same)
  ]

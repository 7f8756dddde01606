-- ===== src/Decision/Cap/Range.antt =====
-- The bounds of the resource, from the forecast to the patched count.
use agentic_autoscaler.Prelude.{
  ℤ, pos, ◌+ℤ◌, ◌≤ℤ◌, ◌<ℤ◌, ◌≡◌, ◌≢◌, ◌↔◌, arith, +ℤ_parts, max_int32, IsInt32, inl, inr, lt_or_ge,
  str_ne, refl, sym,
}
use agentic_autoscaler.Go.Float.{Float64, ◌≼◌, IsOrdered}
use agentic_autoscaler.Go.Time.{GoTime}
use agentic_autoscaler.Reasoning
use agentic_autoscaler.Decision.Cap.{
  CapInput, apply_cap_and_cooldown, clamp_recommended, clamp_rps_per_pod,
}
use agentic_autoscaler.Decision.Cap.Bounds.{IsFair, apply_cap_and_cooldown-IsBetween}

max-ne-min : Reasoning.max_replicas_binding ≢ Reasoning.min_replicas_binding
max-ne-min = str_ne _ _ refl

max-ne-nil : Reasoning.max_replicas_binding ≢ ""
max-ne-nil = str_ne _ _ refl

min-ne-nil : Reasoning.min_replicas_binding ≢ ""
min-ne-nil = str_ne _ _ refl

lt_irrefl : (a b : ℤ) → a <ℤ b → a ≡ b → ⊥
lt_irrefl a b h e = ground arith

clamp_over :
    (u lo hi : ℤ) → hi <ℤ u → clamp_recommended u lo hi ≡ (hi, Reasoning.max_replicas_binding)
unfolding clamp_recommended
clamp_over u lo hi h = ground arith

clamp_under :
    (u lo hi : ℤ)
    → u ≤ℤ hi
    → u <ℤ lo
    → clamp_recommended u lo hi ≡ (lo, Reasoning.min_replicas_binding)
unfolding clamp_recommended
clamp_under u lo hi h k = ground arith

clamp_inside : (u lo hi : ℤ) → u ≤ℤ hi → lo ≤ℤ u → clamp_recommended u lo hi ≡ (u, "")
unfolding clamp_recommended
clamp_inside u lo hi h k = ground arith

-- With ordered bounds the clamped count lies within them, and the reason says which bound, if any,
-- the ask exceeded; without a reason the ask itself is returned.
pub clamp_recommended_bounds :
    (unbounded min_replicas max_replicas : ℤ)
    → min_replicas ≤ℤ max_replicas
    → let r = clamp_recommended unbounded min_replicas max_replicas in
      (min_replicas ≤ℤ r.0)
      × (r.0 ≤ℤ max_replicas)
      × ((r.1 ≡ Reasoning.max_replicas_binding) ↔ (max_replicas <ℤ unbounded))
      × ((r.1 ≡ Reasoning.min_replicas_binding) ↔ (unbounded <ℤ min_replicas))
      × ((r.1 ≡ "") ↔ (r.0 ≡ unbounded))
clamp_recommended_bounds u lo hi h = elim (lt_or_ge hi u) [
  | inl over ↦ rw (clamp_over u lo hi over) (
    h,
    omega arith,
    (λ _. over, λ _. refl),
    (λ e. absurd (max-ne-min e), λ under. absurd (omega arith)),
    (λ e. absurd (max-ne-nil e), λ e. absurd (lt_irrefl hi u over e)),
  )
  | inr le ↦ elim (lt_or_ge u lo) [
    | inl under ↦ rw (clamp_under u lo hi le under) (
      omega arith,
      h,
      (λ e. absurd (max-ne-min (sym e)), λ over. absurd (omega arith)),
      (λ _. under, λ _. refl),
      (λ e. absurd (min-ne-nil e), λ e. absurd (lt_irrefl u lo under (sym e))),
    )
    | inr ge ↦ rw (clamp_inside u lo hi le ge) (
      ge,
      le,
      (λ e. absurd (max-ne-nil (sym e)), λ over. absurd (omega arith)),
      (λ e. absurd (min-ne-nil (sym e)), λ under. absurd (omega arith)),
      (λ _. refl, λ _. refl),
    )
  ]
]

module _ {ℓ} {T : Type ℓ} ⦃t : GoTime T⦄ where
  -- If the current count is within the bounds, then whatever the forecast asks for, the target is
  -- within them too; for a positive step, a lower bound that is not negative and no overflow.
  pub target_in_bounds :
      (c : CapInput T) (unbounded min_replicas max_replicas : ℤ)
      → c.recommended ≡ (clamp_recommended unbounded min_replicas max_replicas).0
      → pos 0 ≤ℤ min_replicas
      → min_replicas ≤ℤ c.current
      → c.current ≤ℤ max_replicas
      → pos 1 ≤ℤ c.max_step
      → max_replicas +ℤ c.max_step ≤ℤ max_int32
      → (min_replicas ≤ℤ (apply_cap_and_cooldown c).target)
        × ((apply_cap_and_cooldown c).target ≤ℤ max_replicas)
  target_in_bounds c u lo hi e nonneg above below step fits =
      let clamped = clamp_recommended_bounds u lo hi (omega arith) in
      let low : lo ≤ℤ c.recommended = rw e clamped.0 in
      let high : c.recommended ≤ℤ hi = rw e clamped.1 in
      let fair : IsFair c = omega (
        arith,
        +ℤ_parts hi c.max_step,
        +ℤ_parts c.current c.max_step,
        +ℤ_parts c.recommended c.max_step,
      ) in
      ground (arith, apply_cap_and_cooldown-IsBetween c fair)

module _ {ℓ} {F : Type ℓ} ⦃f : Float64 F⦄ where
  -- With ordered bounds and an estimate that is a number, the clamped estimate is a number within
  -- the bounds.
  pub clamp_rps_per_pod_bounds :
      (laws : IsOrdered F) (v : F) (lo hi : ℤ)
      → v ≼ v
      → IsInt32 lo
      → IsInt32 hi
      → lo ≤ℤ hi
      → (f.of_int lo ≼ clamp_rps_per_pod v lo hi) × (clamp_rps_per_pod v lo hi ≼ f.of_int hi)
  unfolding clamp_rps_per_pod
  clamp_rps_per_pod_bounds laws v lo hi num ilo ihi h =
      let order = (laws.of_int-le lo hi ilo ihi).1 h in
      let nlo = (laws.of_int-le lo lo ilo ilo).1 (omega arith) in
      let nhi = (laws.of_int-le hi hi ihi ihi).1 (omega arith) in
      ground (
        arith,
        laws.lt-eq-not-le v (f.of_int lo) num nlo,
        laws.lt-eq-not-le (f.of_int hi) v nhi num,
      )

-- ===== src/Webhook/Soundness.antt =====
-- What an admitted spec satisfies: the bounds of the design, on exact integers.
use agentic_autoscaler.Prelude.{
  ℤ, pos, ◌-ℤ◌, ◌≤ℤ◌, ◌<ℤ◌, String, Option, none, some, List, [], ◌∷◌, ◌++◌, ◌≡◌, refl, ◌↔◌, true,
  arith, IsInt32, sub32, sub32_nonneg, ltb_ℤ,
}
use agentic_autoscaler.Api.{Spec}
use agentic_autoscaler.Webhook.{
  Problem, report, problem_if, problems, validate_spec, check_min_replicas, check_replica_order,
  check_rps_min, check_rps_order, check_step_range, check_step, check_cooldown, is_forecaster,
  check_forecaster,
}

-- A property of a value, if it is there; of two values, if both are.
abbrev pub When : {A : Type 0} → (A → Type 0) → Option A → Type 0
When P none = Unit {0}
When P (some a) = P a

abbrev pub When₂ : (ℤ → ℤ → Type 0) → Option ℤ → Option ℤ → Type 0
When₂ P none b = Unit {0}
When₂ P (some a) none = Unit {0}
When₂ P (some a) (some b) = P a b

-- Every number that is there is an int32, as the type of the field says.
pub record HasInt32 (spec : Spec) : Type 0 where
  pub min_int32 : When IsInt32 spec.min_replicas
  pub max_int32 : When IsInt32 spec.max_replicas

-- The bounds of the design document, each on the values that are there.
pub record IsAdmissible (spec : Spec) : Type 0 where
  pub min_pos : When (λ lo. pos 1 ≤ℤ lo) spec.min_replicas
  pub max_above : When₂ (λ lo hi. lo <ℤ hi) spec.min_replicas spec.max_replicas
  pub rps_pos : When (λ lo. pos 1 ≤ℤ lo) spec.rps_per_pod_min
  pub rps_above : When₂ (λ lo hi. lo <ℤ hi) spec.rps_per_pod_min spec.rps_per_pod_max
  pub step_pos : When (λ s. pos 1 ≤ℤ s) spec.max_step_size
  pub step_fits :
      When
        (λ s. When₂ (λ lo hi. s ≤ℤ hi -ℤ lo) spec.min_replicas spec.max_replicas)
        spec.max_step_size
  pub up_nonneg : When (λ s. pos 0 ≤ℤ s) spec.scale_up_cooldown_seconds
  pub down_nonneg : When (λ s. pos 0 ≤ℤ s) spec.scale_down_cooldown_seconds
  pub forecaster_known : When (λ s. is_forecaster s ≡ true) spec.preferred_forecaster

append_nil_iff {ℓ} : {A : Type ℓ} (xs ys : List A) → (xs ++ ys ≡ []) ↔ ((xs ≡ []) × (ys ≡ []))
append_nil_iff [] ys = (λ e. (refl, e), λ e. e.1)
append_nil_iff (x ∷ xs) ys = ground arith

min_replicas-nil : (o : Option ℤ) → (check_min_replicas o ≡ []) ↔ When (λ lo. pos 1 ≤ℤ lo) o
unfolding check_min_replicas
min_replicas-nil none = (λ _. tt, λ _. refl)
min_replicas-nil (some lo) = ground arith

rps_min-nil : (o : Option ℤ) → (check_rps_min o ≡ []) ↔ When (λ lo. pos 1 ≤ℤ lo) o
unfolding check_rps_min
rps_min-nil none = (λ _. tt, λ _. refl)
rps_min-nil (some lo) = ground arith

replica_order-nil :
    (o p : Option ℤ) → (check_replica_order o p ≡ []) ↔ When₂ (λ lo hi. lo <ℤ hi) o p
unfolding check_replica_order
replica_order-nil none p = (λ _. tt, λ _. refl)
replica_order-nil (some lo) none = (λ _. tt, λ _. refl)
replica_order-nil (some lo) (some hi) = ground arith

rps_order-nil : (o p : Option ℤ) → (check_rps_order o p ≡ []) ↔ When₂ (λ lo hi. lo <ℤ hi) o p
unfolding check_rps_order
rps_order-nil none p = (λ _. tt, λ _. refl)
rps_order-nil (some lo) none = (λ _. tt, λ _. refl)
rps_order-nil (some lo) (some hi) = ground arith

cooldown-nil :
    (f : ℤ → Problem) (o : Option ℤ) → (check_cooldown f o ≡ []) ↔ When (λ s. pos 0 ≤ℤ s) o
unfolding check_cooldown
cooldown-nil f none = (λ _. tt, λ _. refl)
cooldown-nil f (some s) = ground arith

forecaster-nil :
    (o : Option String) → (check_forecaster o ≡ []) ↔ When (λ s. is_forecaster s ≡ true) o
unfolding check_forecaster
forecaster-nil none = (λ _. tt, λ _. refl)
forecaster-nil (some s) = ground arith

-- Where the order of the bounds is checked too, the int32 difference is exact.
step_range-nil :
    (o p : Option ℤ) (step : ℤ)
    → When IsInt32 o
    → When IsInt32 p
    → When (λ lo. pos 1 ≤ℤ lo) o
    → When₂ (λ lo hi. lo <ℤ hi) o p
    → (check_step_range o p step ≡ []) ↔ When₂ (λ lo hi. step ≤ℤ hi -ℤ lo) o p
unfolding check_step_range
step_range-nil none p step i j low order = (λ _. tt, λ _. refl)
step_range-nil (some lo) none step i j low order = (λ _. tt, λ _. refl)
step_range-nil (some lo) (some hi) step i j low order =
    let exact : sub32 hi lo ≡ hi -ℤ lo = sub32_nonneg hi lo j i (omega arith) (omega arith) in
    rw exact (ground arith)

abbrev step_low : ℤ → List Problem
step_low s = problem_if (ltb_ℤ s (pos 1)) (Problem.step_below_one s)

step_low-nil : (s : ℤ) → (step_low s ≡ []) ↔ (pos 1 ≤ℤ s)
step_low-nil s = ground arith

report-nil : (ps : List Problem) → report ps ≡ none → ps ≡ []
report-nil [] e = refl
report-nil (p ∷ ps) e = cc

step-nil :
    (o p q : Option ℤ)
    → When IsInt32 o
    → When IsInt32 p
    → When (λ lo. pos 1 ≤ℤ lo) o
    → When₂ (λ lo hi. lo <ℤ hi) o p
    → (check_step o p q ≡ [])
      ↔ (When (λ s. pos 1 ≤ℤ s) q × When (λ s. When₂ (λ lo hi. s ≤ℤ hi -ℤ lo) o p) q)
unfolding check_step
step-nil o p none i j low order = (λ _. (tt, tt), λ _. refl)
step-nil o p (some s) i j low order =
    let both = append_nil_iff (step_low s) (check_step_range o p s) in
    let range = step_range-nil o p s i j low order in
    let lower = step_low-nil s in
    (λ e. (lower.0 (both.0 e).0, range.0 (both.0 e).1), λ e. both.1 (lower.1 e.0, range.1 e.1))

problems-nil : (spec : Spec) → HasInt32 spec → (problems spec ≡ []) ↔ IsAdmissible spec
unfolding problems
problems-nil spec h =
    let a = min_replicas-nil spec.min_replicas in
    let b = replica_order-nil spec.min_replicas spec.max_replicas in
    let c = rps_min-nil spec.rps_per_pod_min in
    let d = rps_order-nil spec.rps_per_pod_min spec.rps_per_pod_max in
    let e =
      step-nil spec.min_replicas spec.max_replicas spec.max_step_size h.min_int32 h.max_int32 in
    let u = cooldown-nil Problem.up_cooldown_negative spec.scale_up_cooldown_seconds in
    let v = cooldown-nil Problem.down_cooldown_negative spec.scale_down_cooldown_seconds in
    let w = forecaster-nil spec.preferred_forecaster in
    (
      λ nil.
          let (na, n1) = (append_nil_iff _ _).0 nil in
          let (nb, n2) = (append_nil_iff _ _).0 n1 in
          let (nc, n3) = (append_nil_iff _ _).0 n2 in
          let (nd, n4) = (append_nil_iff _ _).0 n3 in
          let (ne, n5) = (append_nil_iff _ _).0 n4 in
          let (nu, n6) = (append_nil_iff _ _).0 n5 in
          let (nv, nw) = (append_nil_iff _ _).0 n6 in
          let step = (e (a.0 na) (b.0 nb)).0 ne in
          record {
            min_pos = a.0 na;
            max_above = b.0 nb;
            rps_pos = c.0 nc;
            rps_above = d.0 nd;
            step_pos = step.0;
            step_fits = step.1;
            up_nonneg = u.0 nu;
            down_nonneg = v.0 nv;
            forecaster_known = w.0 nw;
          },
      λ ok. (append_nil_iff _ _).1 (
        a.1 ok.min_pos,
        (append_nil_iff _ _).1 (
          b.1 ok.max_above,
          (append_nil_iff _ _).1 (
            c.1 ok.rps_pos,
            (append_nil_iff _ _).1 (
              d.1 ok.rps_above,
              (append_nil_iff _ _).1 (
                (e ok.min_pos ok.max_above).1 (ok.step_pos, ok.step_fits),
                (append_nil_iff _ _).1 (
                  u.1 ok.up_nonneg,
                  (append_nil_iff _ _).1 (v.1 ok.down_nonneg, w.1 ok.forecaster_known),
                ),
              ),
            ),
          ),
        ),
      ),
    )

-- For bounds that are int32 values, a spec is admitted exactly when it satisfies every bound of
-- the design, with the range of the step taken without overflow.
pub validate_spec_iff :
    (spec : Spec) → HasInt32 spec → (validate_spec spec ≡ none) ↔ IsAdmissible spec
unfolding validate_spec
validate_spec_iff spec h =
    let p = problems-nil spec h in (λ e. p.0 (report-nil (problems spec) e), λ ok. rw (p.1 ok))

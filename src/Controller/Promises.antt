-- ===== src/Controller/Promises.antt =====
-- What one reconcile promises, for every answer of the outside world.
use agentic_autoscaler.Prelude.{
  ℤ, pos, ◌≤ℤ◌, ◌+ℤ◌, [], false, ◌≡◌, ◌≢◌, refl, sym, ◌∙◌, All, arith, max_int32,
}
use mathlib.Core.Path.{subst₂}
use agentic_autoscaler.Go.Float.{Float64}
use agentic_autoscaler.Go.Time.{GoTime}
use agentic_autoscaler.Api.{NamespacedName, name_key, AgenticAutoscaler}
use agentic_autoscaler.Adapters.{ok, RecommendRequest, RecommendResponse}
use agentic_autoscaler.Decision.Params.{resolve_effective_params}
use agentic_autoscaler.Decision.Store.{PerCrState, StateStore}
use agentic_autoscaler.Decision.Cap.Range.{target_in_bounds}
use agentic_autoscaler.Controller.World.{Deployment, Env, Effect, Ending, Fetched, Flow, World}
use agentic_autoscaler.Controller.Inputs.{build_param_sources, deref_or}
use agentic_autoscaler.Controller.Decide.{decide, cap_input}
use agentic_autoscaler.Controller.Steps.{Reconciler}
use agentic_autoscaler.Controller.Reconcile.{run}
use agentic_autoscaler.Controller.Runs.{Ensures}
use agentic_autoscaler.Controller.PreChecks.{is_panic}
use agentic_autoscaler.Controller.Reads.{Answers, is_patch}
use agentic_autoscaler.Controller.Stored.{IsSound}
use agentic_autoscaler.Controller.Safety.{run-Safe, plan_of}

pub found_inj : {A : Type 0} {a b : A} → Fetched.found a ≡ Fetched.found b → a ≡ b
found_inj e = cc

pub ok_inj : {A : Type 0} {a b : A} → ok a ≡ ok b → a ≡ b
ok_inj e = cc

abbrev pub IsCalm : Ending → Type 0
IsCalm e = is_panic e ≡ false

module _ {F : Type 0} ⦃f : Float64 F⦄ {T : Type 0} ⦃t : GoTime T⦄ (r : Reconciler F)
    (env : Env F T) where
  pub run_outcome :
      (P : Effect F T → Type 0) (p : Flow (Unit {0}) × World F T)
      → Ensures P IsSound IsCalm {A = Unit {0}} (λ _. Unit {0}) p
      → All P p.1.effects × IsSound p.1.store × (p.0 ≢ Flow.stop Ending.panicked)
  run_outcome P (Flow.next a, w) (_, i) = (i.0, i.1, λ e. cc)
  run_outcome P (Flow.stop e, w) (calm, i) = (i.0, i.1, λ same. cc)

  -- From a store whose buffers have capacity 10 and are within it, a reconcile ends in such a store
  -- and does not panic, whatever the outside world answers.
  pub run-IsSound :
      (key : NamespacedName) (s : StateStore NamespacedName F T)
      → IsSound s
      → let out = run r env key (record { store = s; effects = [] }) in
        IsSound out.1.store × (out.0 ≢ Flow.stop Ending.panicked)
  run-IsSound key s h =
      let safe =
        run-Safe r env (λ _. Unit {0}) IsCalm (λ _ _. tt) (λ _ calm. calm) key
          (λ _ _ _ _ _ _ _ _ _. tt) in
      let (_, sound, calm) =
        run_outcome (λ _. Unit {0}) _ (safe.holds (record { store = s; effects = [] }) (tt, h)) in
      (sound, calm)

-- A patch, if there is one, asks for a count within the bounds.
abbrev pub IsPatchWithin : {F T : Type 0} → ℤ → ℤ → Effect F T → Type 0
IsPatchWithin lo hi (Effect.patch_scale n) = (lo ≤ℤ n) × (n ≤ℤ hi)
IsPatchWithin lo hi e = Unit {0}

-- The Deployment is within the bounds of the resource, and the step is positive and overflows nothing.
pub record IsInRange {F : Type 0} ⦃f : Float64 F⦄ {T : Type 0} (r : Reconciler F)
    (aas : AgenticAutoscaler F T) (deploy : Deployment) : Type 0 where
  pub min_nonneg : pos 0 ≤ℤ deref_or aas.spec.min_replicas (pos 2)
  pub above : deref_or aas.spec.min_replicas (pos 2) ≤ℤ deref_or deploy.replicas (pos 1)
  pub below : deref_or deploy.replicas (pos 1) ≤ℤ deref_or aas.spec.max_replicas (pos 10)
  pub step_pos : pos 1 ≤ℤ (resolve_effective_params (build_param_sources r.config aas)).max_step
  pub step_fits :
      deref_or aas.spec.max_replicas (pos 10)
        +ℤ (resolve_effective_params (build_param_sources r.config aas)).max_step
      ≤ℤ max_int32

module _ {F : Type 0} ⦃f : Float64 F⦄ {T : Type 0} ⦃t : GoTime T⦄ (r : Reconciler F)
    (env : Env F T) where
  pub others_within : (lo hi : ℤ) (e : Effect F T) → is_patch e ≡ false → IsPatchWithin lo hi e
  others_within lo hi e h = ground arith

  pub plan_within :
      (aas : AgenticAutoscaler F T) (deploy : Deployment) (rps : F) (response : RecommendResponse F)
      (state : PerCrState F T)
      → IsInRange r aas deploy
      → let target = (plan_of r env aas rps response deploy state).cap_out.target in
        (deref_or aas.spec.min_replicas (pos 2) ≤ℤ target)
        × (target ≤ℤ deref_or aas.spec.max_replicas (pos 10))
  unfolding decide cap_input
  plan_within aas deploy rps response state range =
      target_in_bounds _ _ (deref_or aas.spec.min_replicas (pos 2))
        (deref_or aas.spec.max_replicas (pos 10)) refl range.min_nonneg range.above range.below
        range.step_pos range.step_fits

  -- If the lower bound of the resource is not negative, the Deployment's count is within its bounds,
  -- the effective step is positive and overflows nothing, and the store's buffers have capacity 10 and
  -- are within it: every count that a reconcile patches is within the bounds, whatever the forecast,
  -- the metrics and the rest of the stored states are.
  pub run_patches_within :
      (key : NamespacedName) (aas : AgenticAutoscaler F T) (deploy : Deployment)
      (s : StateStore NamespacedName F T)
      → env.get_resource ≡ Fetched.found aas
      → env.get_deployment ≡ ok deploy
      → IsInRange r aas deploy
      → IsSound s
      → All
          (IsPatchWithin
            (deref_or aas.spec.min_replicas (pos 2))
            (deref_or aas.spec.max_replicas (pos 10)))
          (run r env key (record { store = s; effects = [] })).1.effects
  run_patches_within key aas deploy s found got range sound =
      let lo = deref_or aas.spec.min_replicas (pos 2) in
      let hi = deref_or aas.spec.max_replicas (pos 10) in
      let P = IsPatchWithin lo hi in
      let allowed =
        λ (aas' : AgenticAutoscaler F T) (found' : env.get_resource ≡ Fetched.found aas') (rps : F)
            (response : RecommendResponse F) (deploy' : Deployment) (state : PerCrState F T)
            (_ : Answers r env aas' rps)
            (_ : (request : RecommendRequest F) × (env.recommend request ≡ ok response))
            (got' : env.get_deployment ≡ ok deploy').
          subst₂
            (λ a d. P (Effect.patch_scale (plan_of r env a rps response d state).cap_out.target))
            (found_inj (sym found ∙ found')) (ok_inj (sym got ∙ got'))
            (plan_within aas deploy rps response state range) in
      let safe = run-Safe r env P IsCalm (others_within lo hi) (λ _ calm. calm) key allowed in
      (run_outcome r env P _ (safe.holds (record { store = s; effects = [] }) (tt, sound))).0

-- ===== src/Controller/Histories.antt =====
-- One resource over many reconciles: each sees the replica count and the store that the last one left.
use agentic_autoscaler.Prelude.{
  ℤ, pos, ◌≤ℤ◌, ◌+ℤ◌, Option, String, some, none, List, [], ◌∷◌, ◌≡◌, sym, ap, All, arith,
  max_int32,
}
use mathlib.Core.Path.{subst, subst₂}
use agentic_autoscaler.Go.Float.{Float64}
use agentic_autoscaler.Go.Time.{GoTime}
use agentic_autoscaler.Api.{NamespacedName, name_key, AgenticAutoscaler}
use agentic_autoscaler.Adapters.{Fallible, ok, err}
use agentic_autoscaler.Decision.Params.{resolve_effective_params}
use agentic_autoscaler.Decision.Store.{StateStore}
use agentic_autoscaler.Controller.World.{Deployment, Env, Effect, Fetched}
use agentic_autoscaler.Controller.Inputs.{build_param_sources, deref_or}
use agentic_autoscaler.Controller.Steps.{Reconciler}
use agentic_autoscaler.Controller.Reconcile.{run}
use agentic_autoscaler.Controller.Stored.{IsSound}
use agentic_autoscaler.Controller.Safety.{run-Safe, plan_of}
use agentic_autoscaler.Controller.Promises.{
  IsCalm, IsInRange, IsPatchWithin, others_within, plan_within, run_outcome, ok_inj,
}

-- The Deployment, if it can be read, has `count` replicas.
abbrev pub with_count : ℤ → Fallible Deployment → Fallible Deployment
with_count count (ok d) = ok (record d { replicas = some count })
with_count count (err e) = err e

-- The count after a patch that is taken, or not with an error.
abbrev pub taken : Option String → ℤ → ℤ → ℤ
taken none n count = n
taken (some e) n count = count

taken_within :
    (lo hi : ℤ) (o : Option String) (n count : ℤ)
    → lo ≤ℤ count
    → count ≤ℤ hi
    → (lo ≤ℤ n) × (n ≤ℤ hi)
    → (lo ≤ℤ taken o n count) × (taken o n count ≤ℤ hi)
taken_within lo hi none n count above below h = h
taken_within lo hi (some e) n count above below h = (above, below)

counted :
    (count : ℤ) (a : Fallible Deployment) (deploy : Deployment)
    → with_count count a ≡ ok deploy
    → deref_or deploy.replicas (pos 1) ≡ count
unfolding deref_or
counted count (ok d) deploy e = ap (λ x. deref_or x.replicas (pos 1)) (sym (ok_inj e))
counted count (err m) deploy e = absurd (ground arith)

pub record Cluster (F T : Type 0) : Type 0 where
  pub replicas : ℤ
  pub store : StateStore NamespacedName F T

module _ {F : Type 0} {T : Type 0} where
  abbrev pub observed : ℤ → Env F T → Env F T
  observed count env = record env { get_deployment = with_count count env.get_deployment }

  -- The count after the patches that the API server takes.
  abbrev pub settled : Env F T → ℤ → List (Effect F T) → ℤ
  settled env count [] = count
  settled env count (Effect.patch_scale n ∷ es) =
      settled env (taken (env.update_scale n) n count) es
  settled env count (_ ∷ es) = settled env count es

  abbrev pub IsWithin : ℤ → ℤ → Cluster F T → Type 0
  IsWithin lo hi c = (lo ≤ℤ c.replicas) × (c.replicas ≤ℤ hi) × IsSound c.store

module _ {F : Type 0} ⦃f : Float64 F⦄ {T : Type 0} (r : Reconciler F) where
  -- The bounds of a resource that is there are `lo` and `hi`, its effective step is positive and
  -- overflows nothing.
  abbrev pub IsSteady : ℤ → ℤ → Fetched (AgenticAutoscaler F T) → Type 0
  IsSteady lo hi (Fetched.found aas) =
      let step = (resolve_effective_params (build_param_sources r.config aas)).max_step in
      (deref_or aas.spec.min_replicas (pos 2) ≡ lo)
      × (deref_or aas.spec.max_replicas (pos 10) ≡ hi)
      × (pos 1 ≤ℤ step)
      × (hi +ℤ step ≤ℤ max_int32)
  IsSteady lo hi _ = Unit {0}

module _ {F : Type 0} ⦃f : Float64 F⦄ {T : Type 0} ⦃t : GoTime T⦄ (r : Reconciler F)
    (key : NamespacedName) where
  abbrev pub reconciled : Env F T → Cluster F T → Cluster F T
  reconciled env c =
      let out = run r (observed c.replicas env) key (record { store = c.store; effects = [] }) in
      record { replicas = settled env c.replicas out.1.effects; store = out.1.store }

  -- A reconcile in each of the surroundings, one after another.
  abbrev pub all_reconciled : List (Env F T) → Cluster F T → Cluster F T
  all_reconciled [] c = c
  all_reconciled (env ∷ envs) c = all_reconciled envs (reconciled env c)

  settled-IsWithin :
      (lo hi : ℤ) (env : Env F T) (es : List (Effect F T)) (count : ℤ)
      → lo ≤ℤ count
      → count ≤ℤ hi
      → All (IsPatchWithin lo hi) es
      → (lo ≤ℤ settled env count es) × (settled env count es ≤ℤ hi)
  settled-IsWithin lo hi env [] count above below a = (above, below)
  settled-IsWithin lo hi env (Effect.patch_scale n ∷ es) count above below (h, a) =
      let (low, high) = taken_within lo hi (env.update_scale n) n count above below h in
      settled-IsWithin lo hi env es _ low high a
  settled-IsWithin lo hi env (_ ∷ es) count above below (h, a) =
      settled-IsWithin lo hi env es count above below a

  in_range :
      (lo hi : ℤ) (env : Env F T) (count : ℤ) (aas : AgenticAutoscaler F T) (deploy : Deployment)
      → pos 0 ≤ℤ lo
      → lo ≤ℤ count
      → count ≤ℤ hi
      → IsSteady r lo hi (Fetched.found aas)
      → with_count count env.get_deployment ≡ ok deploy
      → IsInRange r aas deploy
  in_range lo hi env count aas deploy nonneg above below steady got =
      let (low, high, step, fits) = steady in
      let e = counted count env.get_deployment deploy got in
      record {
        min_nonneg = rw low nonneg;
        above = rw (low, e) above;
        below = rw (e, high) below;
        step_pos = step;
        step_fits = rw high fits;
      }

  reconciled-IsWithin :
      (lo hi : ℤ) (env : Env F T) (c : Cluster F T)
      → pos 0 ≤ℤ lo
      → IsSteady r lo hi env.get_resource
      → IsWithin lo hi c
      → IsWithin lo hi (reconciled env c)
  reconciled-IsWithin lo hi env c nonneg steady (above, below, sound) =
      let at = observed c.replicas env in
      let P = IsPatchWithin lo hi in
      let safe =
        run-Safe r at P IsCalm (others_within r at lo hi) (λ _ calm. calm) key
          (λ aas found rps response deploy state answers asked got.
            let here = subst (IsSteady r lo hi) found steady in
            let target = (plan_of r at aas rps response deploy state).cap_out.target in
            subst₂ (λ a b. (a ≤ℤ target) × (target ≤ℤ b)) here.0 here.1
              (plan_within r at aas deploy rps response state
                (in_range lo hi env c.replicas aas deploy nonneg above below here got))) in
      let (patches, kept, _) =
        run_outcome r at P _ (safe.holds (record { store = c.store; effects = [] }) (tt, sound)) in
      let (low, high) = settled-IsWithin lo hi env _ c.replicas above below patches in
      (low, high, kept)

  -- Over any number of reconciles of a resource whose bounds stay as they are, the lower one not
  -- negative, and whose effective step is positive and overflows nothing: whatever is answered each time,
  -- failed reads and patches included, a count of replicas that starts within the bounds stays within
  -- them, if only the reconciles change it, and a store whose buffers have capacity 10 and are within it
  -- stays such a store.
  pub all_reconciled-IsWithin :
      (lo hi : ℤ) (envs : List (Env F T)) (c : Cluster F T)
      → pos 0 ≤ℤ lo
      → All (λ env. IsSteady r lo hi env.get_resource) envs
      → IsWithin lo hi c
      → IsWithin lo hi (all_reconciled envs c)
  all_reconciled-IsWithin lo hi [] c nonneg steady within = within
  all_reconciled-IsWithin lo hi (env ∷ envs) c nonneg (here, later) within =
      all_reconciled-IsWithin lo hi envs _ nonneg later
        (reconciled-IsWithin lo hi env c nonneg here within)

-- ===== src/Tests/ControllerTests.antt =====
-- Whole reconciles in concrete surroundings.
use agentic_autoscaler.Prelude.{ℤ, pos, ◌+ℤ◌, ◌≡◌, ◌≢◌, refl, false, inl, [], All, arith}
use agentic_autoscaler.Api.{AgenticAutoscaler, NamespacedName, name_key}
use mathlib.Core.Path.{subst}
use agentic_autoscaler.Go.Map.{lookup}
use agentic_autoscaler.Decision.Params.{resolve_effective_params}
use agentic_autoscaler.Decision.Store.{StateStore}
use agentic_autoscaler.Controller.World.{Fetched, Ending, Flow}
use agentic_autoscaler.Controller.Inputs.{build_param_sources, deref_or, annotation}
use agentic_autoscaler.Controller.Reconcile.{run}
use agentic_autoscaler.Controller.PreChecks.{is_active, is_panic}
use agentic_autoscaler.Controller.Reads.{is_patch}
use agentic_autoscaler.Controller.Stored.{IsSound}
use agentic_autoscaler.Controller.Promises.{
  IsInRange, IsPatchWithin, found_inj, run-IsSound, run_patches_within,
}
use agentic_autoscaler.Controller.Histories.{
  Cluster, IsSteady, IsWithin, all_reconciled, all_reconciled-IsWithin,
}
use agentic_autoscaler.Controller.Outages.{run_halted, run_out}
use agentic_autoscaler.Prelude.{if◌then◌else◌, some, ◌∷◌}
use agentic_autoscaler.Controller.Inputs.{find_conflicting_hpa}
use agentic_autoscaler.Controller.Reconcile.{final_status}
use agentic_autoscaler.Controller.Safety.{plan_of}
use agentic_autoscaler.Controller.Quiet.{patches, statuses}
use agentic_autoscaler.Controller.Quiet.Steps.{GoesThrough}
use agentic_autoscaler.Controller.Carry.{IsRefreshed, stamped}
use agentic_autoscaler.Controller.Scaling.{run_scales}
use agentic_autoscaler.Decision.Store.{PerCrState}
use agentic_autoscaler.Tests.Numbers.{Fixed, fixed_float, fixed_time}
use agentic_autoscaler.Tests.Resources.{
  shop, shop_resource, paused_resource, two_pods, shop_reconciler, busy_response, busy_env,
  dark_env, paused_env,
}

abbrev pub no_states : StateStore NamespacedName Fixed ℤ
no_states = []

pub no_states-IsSound : IsSound no_states
unfolding lookup
no_states-IsSound key st e = absurd (ground arith)

run-IsSound_example :
    let out = run shop_reconciler busy_env shop (record { store = no_states; effects = [] }) in
    IsSound out.1.store × (out.0 ≢ Flow.stop Ending.panicked)
run-IsSound_example = run-IsSound shop_reconciler busy_env shop no_states no_states-IsSound

shop-IsInRange : IsInRange shop_reconciler shop_resource two_pods
unfolding deref_or resolve_effective_params build_param_sources ◌+ℤ◌
shop-IsInRange = record {
  min_nonneg = omega arith;
  above = omega arith;
  below = omega arith;
  step_pos = omega arith;
  step_fits = omega arith;
}

run_patches_within_example :
    All
      (IsPatchWithin (pos 2) (pos 10))
      (run shop_reconciler busy_env shop (record { store = no_states; effects = [] })).1.effects
unfolding deref_or
run_patches_within_example =
    run_patches_within shop_reconciler busy_env shop shop_resource two_pods no_states refl refl
      shop-IsInRange no_states-IsSound

run_halted_example :
    let out = run shop_reconciler paused_env shop (record { store = no_states; effects = [] }) in
    All (λ e. is_active e ≡ false) out.1.effects
    × (out.1.store ≡ no_states)
    × ((e : Ending) × (out.0 ≡ Flow.stop e) × (is_panic e ≡ false))
unfolding annotation lookup
run_halted_example =
    run_halted shop_reconciler paused_env shop paused_resource no_states refl (inl refl)

run_out_example :
    let out = run shop_reconciler dark_env shop (record { store = no_states; effects = [] }) in
    All (λ e. is_patch e ≡ false) out.1.effects
    × (out.1.store ≡ no_states)
    × ((e : Ending) × (out.0 ≡ Flow.stop e) × (is_panic e ≡ false))
run_out_example =
    run_out shop_reconciler dark_env shop shop_resource no_states refl
      (inl (λ rate answered. absurd (ground arith)))

shop-GoesThrough :
    GoesThrough shop_reconciler busy_env shop_resource
      (pos 300000)
      (record { timestamp = pos 1; value = pos 300000 } ∷ [])
      busy_response
      two_pods
unfolding annotation lookup find_conflicting_hpa
shop-GoesThrough = record {
  found = refl;
  unpaused = refl;
  kept = refl;
  hpas = [];
  listed = refl;
  free = refl;
  measured = refl;
  ranged = refl;
  enough = refl;
  told = λ q. refl;
  deployed = refl;
  scaled = λ n. refl;
  written = λ status. refl;
}

run_scales_example :
    let out = run shop_reconciler busy_env shop (record { store = no_states; effects = [] }) in
    (st : PerCrState Fixed ℤ) × IsRefreshed shop_reconciler busy_env shop_resource
      (pos 300000)
      two_pods
      no_states
      shop
      st
    × (let plan =
          plan_of shop_reconciler busy_env shop_resource (pos 300000) busy_response two_pods st in
        (out.0 ≡ Flow.stop (Ending.requeue (pos 60000000000)))
        × (lookup shop out.1.store ≡ some (stamped plan st))
        × (patches out.1.effects
            ≡ (if plan.cap_out.should_patch then plan.cap_out.target ∷ [] else []))
        × (statuses out.1.effects ≡ final_status shop_reconciler busy_env shop_resource plan ∷ []))
run_scales_example =
    run_scales shop_reconciler busy_env shop-GoesThrough shop no_states no_states-IsSound

shop-IsSteady : IsSteady shop_reconciler (pos 2) (pos 10) busy_env.get_resource
unfolding deref_or resolve_effective_params build_param_sources ◌+ℤ◌
shop-IsSteady = (refl, refl, omega arith, omega arith)

abbrev shop_cluster : Cluster Fixed ℤ
shop_cluster = record { replicas = pos 2; store = no_states }

-- A reconcile, one in which Prometheus is not there, and one more.
all_reconciled-IsWithin_example :
    IsWithin
      (pos 2)
      (pos 10)
      (all_reconciled shop_reconciler shop (busy_env ∷ dark_env ∷ busy_env ∷ []) shop_cluster)
all_reconciled-IsWithin_example =
    all_reconciled-IsWithin shop_reconciler shop (pos 2) (pos 10)
      (busy_env ∷ dark_env ∷ busy_env ∷ []) shop_cluster (omega arith)
      (shop-IsSteady, (shop-IsSteady, (shop-IsSteady, tt)))
      (omega arith, omega arith, no_states-IsSound)

-- The API server answers with the resource that was asked for.
pub shop-IsNamed :
    (aas : AgenticAutoscaler Fixed ℤ) → busy_env.get_resource ≡ Fetched.found aas → aas.key ≡ shop
shop-IsNamed aas found = subst (λ a. a.key ≡ shop) (found_inj found) refl

-- ===== src/Controller/Order.antt =====
-- Every reconcile calls out in the order that Controller.Calls allows.
pub mod Early
pub mod Inputs
pub mod Outputs
use agentic_autoscaler.Prelude.{
  ℤ, pos, String, str_eq, Option, some, none, List, [], ◌∷◌, Bool, true, false, ◌≡◌, ◌⊎◌, inl, inr,
  refl, sym, ap, Bool-cases, if◌then◌else◌, ltb_ℤ,
}
use agentic_autoscaler.Go.Float.{Float64}
use agentic_autoscaler.Go.Time.{GoTime, minute}
use agentic_autoscaler.Api.{
  NamespacedName, name_key, Status, AgenticAutoscaler, phase_ready, phase_disabled, phase_conflict,
}
use agentic_autoscaler.Adapters.{Fallible, ok, err, RecommendRequest, RecommendResponse}
use agentic_autoscaler.Reasoning
use agentic_autoscaler.Decision.Params.{resolve_effective_params}
use agentic_autoscaler.Decision.Store.{PerCrState, StateStore, get_or_create, save}
use agentic_autoscaler.Controller.World.{
  Deployment, Env, Effect, Ending, Fetched, Flow, ExplainRequest, Hpa, M, World, pure, stop_with,
  perform, ◌>>=◌, ◌>>◌, get_store, put_store, when,
}
use agentic_autoscaler.Controller.Inputs.{
  annotation, build_param_sources, deref_or, find_conflicting_hpa, values_of, ring_buffer_capacity,
}
use agentic_autoscaler.Controller.Decide.{Plan, ensure_initialized, observe, decide}
use agentic_autoscaler.Controller.Steps.{
  Reconciler, requeue_interval, warn, update_status, forget, fetch, cold_path, handle_kill_switch,
  handle_conflict, check_conflict, pre_checks, metrics_unavailable, or_metrics_unavailable,
  read_metrics, ask_forecast,
}
use agentic_autoscaler.Controller.Reconcile.{
  revision_annotation, read_deployment, or_panic, refresh_state, patch_scale, announce,
  explain_request, final_status, carry_out, scale, run,
}
use agentic_autoscaler.Controller.Calls.{
  Stage, Call, Call-at, Follows, Finishes, is_early, is_planned,
}
use agentic_autoscaler.Controller.Leads.{
  Leads, Leads-at, LeadsTo, Ends, lead_bind, lead_then, lead_seq, lead_perform, lead_call,
  lead_pure, lead_stop, lead_get, lead_put, lead_when, lead_guard, lead_weaken, lead_end, lead_and,
}
use agentic_autoscaler.Controller.Order.Early.{cold_path-Leads, pre_checks-LeadsTo}
use agentic_autoscaler.Controller.Order.Inputs.{
  read_metrics-LeadsTo, ask_forecast-LeadsTo, read_deployment-Leads,
}
use agentic_autoscaler.Controller.Order.Outputs.{refresh_state-LeadsTo, carry_out-Leads}

module _ {F : Type 0} ⦃f : Float64 F⦄ {T : Type 0} ⦃t : GoTime T⦄ (r : Reconciler F) (env : Env F T)
    (k : NamespacedName) where
  scale-Leads :
      {Q : Unit {0} → Stage → Type 0} (a : Stage) (key : NamespacedName)
      (aas : AgenticAutoscaler F T)
      → aas.key ≡ k
      → is_early a ≡ true
      → Leads k a (scale r env key aas) Q
  unfolding scale
  scale-Leads a key aas same early =
      lead_then Stage.ranged (read_metrics-LeadsTo r env k a aas same early) (λ metrics.
        lead_then Stage.asked (ask_forecast-LeadsTo r env k _ _ same) (λ response.
          lead_bind (λ _ b. is_planned b ≡ true) (read_deployment-Leads r env k key)
            (λ deploy b planned.
              lead_then b (refresh_state-LeadsTo r env k b key aas _ _ planned)
                (λ state. carry_out-Leads r env k b key aas state _ same planned))))

  forget-Leads :
      {Q : Unit {0} → Stage → Type 0} (key : NamespacedName)
      → Leads k Stage.opened (forget r env key) Q
  unfolding forget
  forget-Leads key = lead_get Stage.opened (λ s. lead_seq Stage.opened (lead_put Stage.opened _) (
      lead_end Ending.done (
        lead_when Stage.opened r.has_classifier
          (lead_weaken (lead_perform (Call.stops key)) (λ _ _ same. inl same)) (inr refl))))

  got :
      (key : NamespacedName) (a : Fetched (AgenticAutoscaler F T))
      → ((aas : AgenticAutoscaler F T) → a ≡ Fetched.found aas → aas.key ≡ k)
      → Leads {F = F} {T = T} k Stage.opened
          (elim a [
            | Fetched.found aas ↦ pure aas
            | Fetched.not_found ↦ do forget r env key; stop_with Ending.done
            | Fetched.failed e ↦ stop_with (Ending.failed e)
          ])
          (λ aas b. (aas.key ≡ k) × (b ≡ Stage.opened))
  got key (Fetched.found aas) named = lead_pure Stage.opened aas (named aas refl, refl)
  got key Fetched.not_found named =
      lead_end Ending.done (forget-Leads {Q = λ _ b. Finishes Ending.done b} key)
  got key (Fetched.failed e) named = lead_stop Stage.opened (Ending.failed e) refl

  run-Leads :
      (key : NamespacedName)
      → ((aas : AgenticAutoscaler F T) → env.get_resource ≡ Fetched.found aas → aas.key ≡ k)
      → Leads k Stage.opened (run r env key) (λ _ _. ⊥)
  unfolding run fetch
  run-Leads key named =
      lead_bind (λ aas b. (aas.key ≡ k) × (b ≡ Stage.opened)) (got key env.get_resource named)
        (λ aas b (same, at). Leads-at at (
          lead_and (λ b. is_early b ≡ true) (cold_path-Leads r env k key aas)
            (λ a early.
              lead_seq a (pre_checks-LeadsTo r env k a aas early)
                (scale-Leads a key aas same early))))

-- How a reconcile of the resource `k` ends: with an ending that its last stage allows.
abbrev pub EndsWell : {F T : Type 0} → NamespacedName → Flow (Unit {0}) × World F T → Type 0
EndsWell k (Flow.next v, w) = ⊥
EndsWell k (Flow.stop e, w) = (b : Stage) × Follows k Stage.opened w.effects b × Finishes e b

module _ {F : Type 0} ⦃f : Float64 F⦄ {T : Type 0} ⦃t : GoTime T⦄ (r : Reconciler F)
    (env : Env F T) where
  Ends-EndsWell :
      (k : NamespacedName) (p : Flow (Unit {0}) × World F T)
      → Ends {A = Unit {0}} k (λ _ _. ⊥) p
      → EndsWell k p
  Ends-EndsWell k (Flow.next v, w) (b, led, never) = never
  Ends-EndsWell k (Flow.stop e, w) h = h

  pub run-Follows :
      (key : NamespacedName) (s : StateStore NamespacedName F T)
      → ((aas : AgenticAutoscaler F T) → env.get_resource ≡ Fetched.found aas → aas.key ≡ key)
      → EndsWell key (run r env key (record { store = s; effects = [] }))
  run-Follows key s named =
      Ends-EndsWell key _
        ((run-Leads r env key key named).holds (record { store = s; effects = [] }) refl)

-- ===== src/Controller/Scaling.antt =====
-- A reconcile that nothing stops: what it patches, stores and writes.
use agentic_autoscaler.Prelude.{pos, some, List, [], ◌∷◌, ◌≡◌, refl, ◌∙◌, ap, if◌then◌else◌}
use agentic_autoscaler.Go.Float.{Float64}
use agentic_autoscaler.Go.Time.{GoTime}
use agentic_autoscaler.Go.Map.{lookup}
use agentic_autoscaler.Api.{NamespacedName, name_key, AgenticAutoscaler}
use agentic_autoscaler.Adapters.{Sample, RecommendResponse}
use agentic_autoscaler.Decision.Params.{resolve_effective_params}
use agentic_autoscaler.Decision.Store.{PerCrState, StateStore, save}
use agentic_autoscaler.Controller.World.{Deployment, Env, Ending, Flow, World}
use agentic_autoscaler.Controller.Inputs.{build_param_sources, deref_or, values_of}
use agentic_autoscaler.Controller.Steps.{Reconciler, recommend_request}
use agentic_autoscaler.Controller.Reconcile.{final_status, carry_out, scale, run}
use agentic_autoscaler.Controller.Quiet.{
  patches, statuses, patches-append, statuses-append, AsQuiet, after, after-AsQuiet,
}
use agentic_autoscaler.Controller.Quiet.Steps.{
  GoesThrough, fetch-IsQuiet, cold_path-IsQuiet, pre_checks-IsQuiet, read_metrics-IsQuiet,
  ask_forecast-IsQuiet, read_deployment-IsQuiet,
}
use agentic_autoscaler.Controller.Carry.{
  next_bind, next_seq, lookup-save, stamped, IsRefreshed, refresh_state_lem, carry_out-Ends,
}
use agentic_autoscaler.Controller.Safety.{plan_of}
use agentic_autoscaler.Controller.Stored.{
  IsSound, observe-IsWell, get_or_create-IsSound, ensure_initialized-IsWell,
}

module _ {F : Type 0} ⦃f : Float64 F⦄ {T : Type 0} ⦃t : GoTime T⦄ (r : Reconciler F)
    (env : Env F T) where
  module _ {aas : AgenticAutoscaler F T} {current_rps : F} {samples : List (Sample F T)}
      {response : RecommendResponse F} {deploy : Deployment}
      (h : GoesThrough r env aas current_rps samples response deploy) where
    -- The quiet steps and the refresh lead to the last three steps.
    run_lem :
        (key : NamespacedName) (w : World F T) (st : PerCrState F T)
        → IsRefreshed r env aas current_rps deploy w.store key st
        → (v : World F T) × (run r env key w
            ≡ carry_out r env key aas st (plan_of r env aas current_rps response deploy st) v)
          × (lookup key v.store ≡ some st)
          × AsQuiet w v
    unfolding run scale
    run_lem key w st seen =
        let effective = resolve_effective_params (build_param_sources r.config aas) in
        let found = fetch-IsQuiet r env h key in
        let cold = cold_path-IsQuiet r env key aas in
        let passed = pre_checks-IsQuiet r env h in
        let measured = read_metrics-IsQuiet r env h in
        let told =
          ask_forecast-IsQuiet r env h aas.key
            (recommend_request r env key aas effective (values_of samples)) in
        let deployed = read_deployment-IsQuiet r env h key in
        let w1 = after found w in
        let w2 = after cold w1 in
        let w3 = after passed w2 in
        let w4 = after measured w3 in
        let w5 = after told w4 in
        let w6 = after deployed w5 in
        let (s, refreshed) = refresh_state_lem r env aas current_rps deploy key st w6 seen in
        let v : World F T = record w6 { store = save key st s } in
        (
          v,
          next_bind _ _ aas w w1 (found.answers w)
              ∙ (next_seq _ _ w1 w2 (cold.answers w1)
                  ∙ (next_seq _ _ w2 w3 (passed.answers w2)
                      ∙ (next_bind _ _ (current_rps, values_of samples) w3 w4 (measured.answers w3)
                          ∙ (next_bind _ _ response w4 w5 (told.answers w4)
                              ∙ (next_bind _ _ deploy w5 w6 (deployed.answers w5)
                                  ∙ next_bind _ _ st w6 v refreshed))))),
          lookup-save key st s,
          after-AsQuiet deployed w w5 (
              after-AsQuiet told w w4 (
                after-AsQuiet measured w w3 (
                  after-AsQuiet passed w w2
                    (after-AsQuiet cold w w1 (after-AsQuiet found w w (refl, refl)))))),
        )

    -- From a sound store, a reconcile whose calls are all answered, and which no pre-check stops,
    -- takes the observation, ends with a requeue, patches the planned count exactly when the plan says
    -- so and nothing else, writes one status, that of the plan, and stores the state with the time of
    -- the scale event.
    pub run_scales :
        (key : NamespacedName) (s : StateStore NamespacedName F T)
        → IsSound s
        → let out = run r env key (record { store = s; effects = [] }) in
          (st : PerCrState F T) × IsRefreshed r env aas current_rps deploy s key st
          × (let plan = plan_of r env aas current_rps response deploy st in
              (out.0 ≡ Flow.stop (Ending.requeue r.config.reconcile_interval))
              × (lookup key out.1.store ≡ some (stamped plan st))
              × (patches out.1.effects
                  ≡ (if plan.cap_out.should_patch then plan.cap_out.target ∷ [] else []))
              × (statuses out.1.effects ≡ final_status r env aas plan ∷ []))
    run_scales key s sound =
        let made = get_or_create-IsSound key s sound in
        let (st, seen, _) =
          observe-IsWell r.config current_rps (deref_or deploy.replicas (pos 1)) env.now_decision _
            (ensure_initialized-IsWell aas _ made.0) in
        let w : World F T = record { store = s; effects = [] } in
        let plan = plan_of r env aas current_rps response deploy st in
        let (v, whole, held, same) = run_lem key w st seen in
        let last = carry_out-Ends r env h key st plan v held in
        (
          st,
          seen,
          (
            ap (λ p. p.0) whole ∙ last.ends,
            ap (λ p. lookup key p.1.store) whole ∙ last.stored,
            ap (λ p. patches p.1.effects) whole
                ∙ (ap patches last.effects
                    ∙ (patches-append v.effects last.calls ∙ rw (same.0, last.patched) refl)),
            ap (λ p. statuses p.1.effects) whole
                ∙ (ap statuses last.effects
                    ∙ (statuses-append v.effects last.calls ∙ rw (same.1, last.status) refl)),
          ),
        )

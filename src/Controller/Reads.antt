-- ===== src/Controller/Reads.antt =====
-- The steps that come before the state is touched keep any invariant of the store, and their effects
-- are not patches.
use agentic_autoscaler.Prelude.{
  arith, pos, String, List, Bool, true, false, ◌≡◌, refl, length, ltb_ℤ, ◌-ℤ◌,
}
use agentic_autoscaler.Go.Float.{Float64}
use agentic_autoscaler.Go.Time.{GoTime, minute}
use agentic_autoscaler.Api.{NamespacedName, AgenticAutoscaler}
use agentic_autoscaler.Adapters.{Fallible, ok, err, Sample, RecommendRequest, RecommendResponse}
use agentic_autoscaler.Promql.{instant_rps, range_rps}
use agentic_autoscaler.Reasoning
use agentic_autoscaler.Decision.Store.{StateStore}
use agentic_autoscaler.Controller.World.{
  Deployment, Env, Effect, Ending, pure, stop_with, perform, ◌>>◌, when,
}
use agentic_autoscaler.Controller.Inputs.{annotation, values_of}
use agentic_autoscaler.Controller.Steps.{
  Reconciler, requeue_interval, warn, metrics_unavailable, or_metrics_unavailable, read_metrics,
  ask_forecast,
}
use agentic_autoscaler.Controller.Reconcile.{read_deployment, revision_annotation}
use agentic_autoscaler.Controller.Runs.{
  after_rule, guard_rule, Keeps, Safe, perform_rule, seq_rule, then_rule, when_rule, pure_rule,
}
use agentic_autoscaler.Controller.PreChecks
use agentic_autoscaler.Controller.PreChecks.{is_active, is_panic}

abbrev pub is_patch : {F T : Type 0} → Effect F T → Bool
is_patch (Effect.patch_scale n) = true
is_patch e = false

not_patch : {F T : Type 0} (e : Effect F T) → is_active e ≡ false → is_patch e ≡ false
not_patch e h = ground arith

module _ {F : Type 0} ⦃f : Float64 F⦄ {T : Type 0} ⦃t : GoTime T⦄ (r : Reconciler F)
    (env : Env F T) where
  -- Both queries were answered, the second with enough samples.
  abbrev pub Answers : AgenticAutoscaler F T → F → Type 0
  Answers aas current_rps =
      let name = aas.spec.target_ref.name in
      let start = t.add env.now_history (pos 0 -ℤ r.config.hot_path_history) in
      (env.instant_query (instant_rps name) ≡ ok current_rps)
      × (samples : List (Sample F T)) × (env.range_query (range_rps name) start env.now_history
            minute
          ≡ ok samples)
      × (ltb_ℤ (pos (length samples)) r.config.hot_path_min_points ≡ false)

  -- The rate is the answer of the first query, the history the values of the second.
  abbrev pub IsReading : AgenticAutoscaler F T → F × List F → Type 0
  IsReading aas metrics = (answers : Answers aas metrics.0) × (metrics.1 ≡ values_of answers.1)

module _ {F : Type 0} ⦃f : Float64 F⦄ {T : Type 0} ⦃t : GoTime T⦄ (r : Reconciler F) (env : Env F T)
    (P : Effect F T → Type 0) (S : StateStore NamespacedName F T → Type 0) (E : Ending → Type 0)
    (others : (e : Effect F T) → is_patch e ≡ false → P e)
    (normal : (e : Ending) → is_panic e ≡ false → E e) where
  pub books : (e : Effect F T) → is_active e ≡ false → P e
  books e h = others e (not_patch e h)

  done_perform : (e : Effect F T) → is_patch e ≡ false → Safe P S E (perform e)
  done_perform e h = perform_rule P S E (others e h)

  requeue-Keeps :
      {A : Type 0} {Q : A → Type 0} → Keeps P S E {A = A} (stop_with (requeue_interval r env)) Q
  requeue-Keeps = PreChecks.requeue-Keeps r env P S E books normal

  warn-Safe : (token message : String) → Safe P S E (warn r env token message)
  warn-Safe = PreChecks.warn-Safe r env P S E books normal

  metrics_unavailable-Keeps :
      {A : Type 0} {Q : A → Type 0} (key : NamespacedName) (message : String)
      → Keeps P S E {A = A} (metrics_unavailable r env key message) Q
  unfolding metrics_unavailable
  metrics_unavailable-Keeps key message =
      seq_rule P S E (warn-Safe _ message) (seq_rule P S E (done_perform _ refl) requeue-Keeps)

  -- The value is the answer.
  or_metrics_unavailable-Keeps :
      {A : Type 0} (key : NamespacedName) (a : Fallible A)
      → Keeps P S E (or_metrics_unavailable r env key a) (λ v. a ≡ ok v)
  unfolding or_metrics_unavailable
  or_metrics_unavailable-Keeps key (ok v) = pure_rule P S E v refl
  or_metrics_unavailable-Keeps key (err e) = metrics_unavailable-Keeps key e

  pub read_metrics-Keeps :
      (aas : AgenticAutoscaler F T) → Keeps P S E (read_metrics r env aas) (IsReading r env aas)
  unfolding read_metrics
  read_metrics-Keeps aas = seq_rule P S E (done_perform _ refl) (
      then_rule P S E _ (or_metrics_unavailable-Keeps _ _) (λ current_rps answer.
        seq_rule P S E (done_perform _ refl) (
          then_rule P S E _ (or_metrics_unavailable-Keeps _ _) (λ samples listed.
            after_rule P S E (guard_rule P S E _ (metrics_unavailable-Keeps _ _)) (λ enough.
              pure_rule P S E (current_rps, values_of samples)
                ((answer, samples, listed, enough), refl))))))

  answered :
      (key : NamespacedName) (request : RecommendRequest F) (a : Fallible (RecommendResponse F))
      → Keeps P S E
          (elim a [
            | ok response ↦ pure response
            | err e ↦ do
              warn r env Reasoning.forecast_unavailable e
              perform (Effect.observe_forecast_failure key)
              stop_with (requeue_interval r env)
          ])
          (λ response. a ≡ ok response)
  answered key request (ok response) = pure_rule P S E response refl
  answered key request (err e) =
      seq_rule P S E (warn-Safe _ e) (seq_rule P S E (done_perform _ refl) requeue-Keeps)

  pub ask_forecast-Keeps :
      (key : NamespacedName) (request : RecommendRequest F)
      → Keeps P S E
          (ask_forecast r env key request)
          (λ response. env.recommend request ≡ ok response)
  unfolding ask_forecast
  ask_forecast-Keeps key request =
      seq_rule P S E (done_perform _ refl) (answered key request (env.recommend request))

  got_deployment :
      (key : NamespacedName) (a : Fallible Deployment)
      → Keeps P S E
          (elim a [
            | err e ↦ stop_with (requeue_interval r env)
            | ok deploy ↦ do
              when r.has_classifier (
                  perform (
                    Effect.observe_revision key
                      (annotation revision_annotation deploy.annotations)))
              pure deploy
          ])
          (λ deploy. a ≡ ok deploy)
  got_deployment key (err e) = requeue-Keeps
  got_deployment key (ok deploy) =
      seq_rule P S E (when_rule P S E _ (done_perform _ refl)) (pure_rule P S E deploy refl)

  pub read_deployment-Keeps :
      (key : NamespacedName)
      → Keeps P S E (read_deployment r env key) (λ deploy. env.get_deployment ≡ ok deploy)
  unfolding read_deployment
  read_deployment-Keeps key = got_deployment key env.get_deployment

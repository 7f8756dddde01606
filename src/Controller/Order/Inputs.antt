-- ===== src/Controller/Order/Inputs.antt =====
-- The metrics, the forecast and the Deployment, in the order of Controller.Calls.
use agentic_autoscaler.Prelude.{String, true, ◌≡◌, refl, ap}
use agentic_autoscaler.Go.Float.{Float64}
use agentic_autoscaler.Go.Time.{GoTime}
use agentic_autoscaler.Api.{NamespacedName, name_key, AgenticAutoscaler}
use agentic_autoscaler.Adapters.{Fallible, ok, err, RecommendRequest, RecommendResponse}
use agentic_autoscaler.Reasoning
use agentic_autoscaler.Controller.World.{
  Deployment, Env, Effect, pure, stop_with, perform, ◌>>◌, when,
}
use agentic_autoscaler.Controller.Inputs.{annotation}
use agentic_autoscaler.Controller.Steps.{
  Reconciler, requeue_interval, warn, metrics_unavailable, or_metrics_unavailable, read_metrics,
  ask_forecast,
}
use agentic_autoscaler.Controller.Reconcile.{revision_annotation, read_deployment}
use agentic_autoscaler.Controller.Calls.{Stage, Call, is_early, is_planned}
use agentic_autoscaler.Controller.Leads.{
  Leads, LeadsTo, lead_then, lead_seq, lead_perform, lead_call, lead_pure, lead_stop, lead_when,
  lead_guard, lead_weaken, lead_and,
}

module _ {F : Type 0} ⦃f : Float64 F⦄ {T : Type 0} ⦃t : GoTime T⦄ (r : Reconciler F) (env : Env F T)
    (k : NamespacedName) where
  metrics_unavailable-Leads :
      {A : Type 0} {Q : A → Stage → Type 0} (a : Stage) (key : NamespacedName) (message : String)
      → key ≡ k
      → ((reason text : String)
          → Call {F = F} {T = T} k a (Effect.emit_event "Warning" reason text) Stage.blind)
      → Leads k a (metrics_unavailable r env key message) Q
  unfolding metrics_unavailable warn requeue_interval
  metrics_unavailable-Leads a key message same lost =
      lead_call (lost _ _) (lead_call (Call.counts_outage key same) (lead_stop Stage.closed _ refl))

  or_metrics_unavailable-LeadsTo :
      {A : Type 0} (a : Stage) (key : NamespacedName) (o : Fallible A)
      → key ≡ k
      → ((reason text : String)
          → Call {F = F} {T = T} k a (Effect.emit_event "Warning" reason text) Stage.blind)
      → LeadsTo k a (or_metrics_unavailable r env key o) a
  unfolding or_metrics_unavailable
  or_metrics_unavailable-LeadsTo a key (ok v) same lost = lead_pure a v refl
  or_metrics_unavailable-LeadsTo a key (err e) same lost =
      metrics_unavailable-Leads a key e same lost

  pub read_metrics-LeadsTo :
      (a : Stage) (aas : AgenticAutoscaler F T)
      → aas.key ≡ k
      → is_early a ≡ true
      → LeadsTo k a (read_metrics r env aas) Stage.ranged
  unfolding read_metrics
  read_metrics-LeadsTo a aas same early = lead_call (Call.measures a _ early) (
      lead_then Stage.measured (or_metrics_unavailable-LeadsTo _ _ _ same Call.loses_rate) (λ rps.
        lead_call (Call.ranges _ _ _ _) (
          lead_then Stage.ranged (or_metrics_unavailable-LeadsTo _ _ _ same Call.loses_history)
            (λ samples.
              lead_seq Stage.ranged
                (lead_guard Stage.ranged _
                  (metrics_unavailable-Leads _ _ _ same Call.loses_history))
                (lead_pure Stage.ranged _ refl)))))

  answered :
      (key : NamespacedName) (a : Fallible (RecommendResponse F))
      → key ≡ k
      → LeadsTo {F = F} {T = T} k Stage.asked
          (elim a [
            | ok response ↦ pure response
            | err e ↦ do
              warn r env Reasoning.forecast_unavailable e
              perform (Effect.observe_forecast_failure key)
              stop_with (requeue_interval r env)
          ])
          Stage.asked
  unfolding warn requeue_interval
  answered key (ok response) same = lead_pure Stage.asked response refl
  answered key (err e) same =
      lead_call (Call.loses_forecast _ _)
        (lead_call (Call.counts_failure key same) (lead_stop Stage.closed _ refl))

  pub ask_forecast-LeadsTo :
      (key : NamespacedName) (q : RecommendRequest F)
      → key ≡ k
      → LeadsTo k Stage.ranged (ask_forecast r env key q) Stage.asked
  unfolding ask_forecast
  ask_forecast-LeadsTo key q same = lead_call (Call.asks q) (answered key (env.recommend q) same)

  got_deployment :
      (key : NamespacedName) (a : Fallible Deployment)
      → Leads {F = F} {T = T} k Stage.asked
          (elim a [
            | err e ↦ stop_with (requeue_interval r env)
            | ok deploy ↦ do
              when r.has_classifier (
                  perform (
                    Effect.observe_revision key
                      (annotation revision_annotation deploy.annotations)))
              pure deploy
          ])
          (λ _ b. is_planned b ≡ true)
  unfolding requeue_interval
  got_deployment key (err e) = lead_stop Stage.asked _ refl
  got_deployment key (ok deploy) =
      lead_and (λ b. is_planned b ≡ true)
        (lead_when Stage.asked r.has_classifier
          (lead_weaken (lead_perform (Call.sees key _)) (λ _ _ same. ap is_planned same)) refl)
        (λ b planned. lead_pure b deploy planned)

  pub read_deployment-Leads :
      (key : NamespacedName)
      → Leads k Stage.asked (read_deployment r env key) (λ _ b. is_planned b ≡ true)
  unfolding read_deployment
  read_deployment-Leads key = got_deployment key env.get_deployment

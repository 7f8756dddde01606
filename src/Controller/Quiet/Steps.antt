-- ===== src/Controller/Quiet/Steps.antt =====
-- The steps of a reconcile that only read, where every call is answered.
use agentic_autoscaler.Prelude.{
  ℤ, pos, ◌-ℤ◌, some, none, List, false, ◌≡◌, refl, sym, length, ltb_ℤ,
}
use mathlib.Core.Path.{subst}
use agentic_autoscaler.Go.Float.{Float64}
use agentic_autoscaler.Go.Time.{GoTime, minute}
use agentic_autoscaler.Api.{NamespacedName, name_key, Status, AgenticAutoscaler}
use agentic_autoscaler.Adapters.{Fallible, ok, err, Sample, RecommendRequest, RecommendResponse}
use agentic_autoscaler.Reasoning
use agentic_autoscaler.Promql.{instant_rps, range_rps}
use agentic_autoscaler.Controller.World.{
  Deployment, Env, Effect, Ending, Fetched, Hpa, pure, stop_with, perform, ◌>>◌, when,
}
use agentic_autoscaler.Controller.Inputs.{annotation, find_conflicting_hpa, values_of}
use agentic_autoscaler.Controller.Decide.{Plan}
use agentic_autoscaler.Controller.Steps.{
  Reconciler, requeue_interval, warn, handle_conflict, forget, fetch, cold_path, check_conflict,
  pre_checks, read_metrics, or_metrics_unavailable, ask_forecast,
}
use agentic_autoscaler.Controller.Reconcile.{revision_annotation, read_deployment, announce}
use agentic_autoscaler.Controller.PreChecks.{is_paused}
use agentic_autoscaler.Controller.Quiet.{
  IsQuiet, pure-IsQuiet, perform-IsQuiet, bind-IsQuiet, seq-IsQuiet, when-IsQuiet, skip-IsQuiet,
}

-- Every call is answered, and no pre-check stops the reconcile.
pub record GoesThrough {F : Type 0} ⦃f : Float64 F⦄ {T : Type 0} ⦃t : GoTime T⦄ (r : Reconciler F)
    (env : Env F T) (aas : AgenticAutoscaler F T) (current_rps : F) (samples : List (Sample F T))
    (response : RecommendResponse F) (deploy : Deployment) : Type 0 where
  pub found : env.get_resource ≡ Fetched.found aas
  pub unpaused : is_paused aas ≡ false
  pub kept : aas.being_deleted ≡ false
  pub hpas : List Hpa
  pub listed : env.list_hpas ≡ ok hpas
  pub free : find_conflicting_hpa aas.spec hpas ≡ none
  pub measured : env.instant_query (instant_rps aas.spec.target_ref.name) ≡ ok current_rps
  pub ranged :
      env.range_query
        (range_rps aas.spec.target_ref.name)
        (t.add env.now_history (pos 0 -ℤ r.config.hot_path_history))
        env.now_history
        minute
      ≡ ok samples
  pub enough : ltb_ℤ (pos (length samples)) r.config.hot_path_min_points ≡ false
  pub told : (q : RecommendRequest F) → env.recommend q ≡ ok response
  pub deployed : env.get_deployment ≡ ok deploy
  pub scaled : (n : ℤ) → env.update_scale n ≡ none
  pub written : (s : Status F T) → env.update_status s ≡ none

module _ {F : Type 0} ⦃f : Float64 F⦄ {T : Type 0} ⦃t : GoTime T⦄ (r : Reconciler F)
    (env : Env F T) where
  pub cold_path-IsQuiet :
      (key : NamespacedName) (aas : AgenticAutoscaler F T) → IsQuiet (cold_path r env key aas) tt
  unfolding cold_path
  cold_path-IsQuiet key aas =
      when-IsQuiet r.has_classifier
        (seq-IsQuiet (perform-IsQuiet _ refl refl) (when-IsQuiet _ (perform-IsQuiet _ refl refl)))

  or_metrics-IsQuiet :
      {A : Type 0} (key : NamespacedName) {o : Fallible A} {a : A}
      → o ≡ ok a
      → IsQuiet (or_metrics_unavailable r env key o) a
  unfolding or_metrics_unavailable
  or_metrics-IsQuiet key {a = a} e =
      subst (λ o. IsQuiet (or_metrics_unavailable r env key o) a) (sym e) (pure-IsQuiet a)

  pub announce-IsQuiet :
      (aas : AgenticAutoscaler F T) (plan : Plan F T) → IsQuiet (announce r env aas plan) tt
  unfolding announce
  announce-IsQuiet aas plan = seq-IsQuiet (perform-IsQuiet _ refl refl) (
      seq-IsQuiet (perform-IsQuiet _ refl refl)
        (seq-IsQuiet (perform-IsQuiet _ refl refl) (when-IsQuiet _ (perform-IsQuiet _ refl refl))))

  module _ {aas : AgenticAutoscaler F T} {current_rps : F} {samples : List (Sample F T)}
      {response : RecommendResponse F} {deploy : Deployment}
      (h : GoesThrough r env aas current_rps samples response deploy) where
    pub fetch-IsQuiet : (key : NamespacedName) → IsQuiet (fetch r env key) aas
    unfolding fetch
    fetch-IsQuiet key =
        subst
          (λ a.
            IsQuiet {F = F} {T = T}
              (elim a [
                | Fetched.found x ↦ pure x
                | Fetched.not_found ↦ do forget r env key; stop_with Ending.done
                | Fetched.failed e ↦ stop_with (Ending.failed e)
              ])
              aas)
          (sym h.found) (pure-IsQuiet aas)

    check_conflict-IsQuiet : IsQuiet (check_conflict r env aas) tt
    unfolding check_conflict
    check_conflict-IsQuiet =
        subst
          (λ l.
            IsQuiet {F = F} {T = T}
              (elim l [
                | err e ↦ stop_with (Ending.failed e)
                | ok hpas ↦ elim (find_conflicting_hpa aas.spec hpas) [
                  | none ↦ pure tt
                  | some hpa_name ↦ handle_conflict r env aas hpa_name
                ]
              ])
              tt)
          (sym h.listed)
          (subst
            (λ o.
              IsQuiet {F = F} {T = T}
                (elim o [ none ↦ pure tt | some hpa_name ↦ handle_conflict r env aas hpa_name ]) tt)
            (sym h.free) (pure-IsQuiet tt))

    pub pre_checks-IsQuiet : IsQuiet (pre_checks r env aas) tt
    unfolding pre_checks
    pre_checks-IsQuiet =
        seq-IsQuiet (skip-IsQuiet _ _ h.unpaused)
          (seq-IsQuiet (skip-IsQuiet _ _ h.kept) check_conflict-IsQuiet)

    pub read_metrics-IsQuiet : IsQuiet (read_metrics r env aas) (current_rps, values_of samples)
    unfolding read_metrics
    read_metrics-IsQuiet = seq-IsQuiet (perform-IsQuiet _ refl refl) (
        bind-IsQuiet _ current_rps (or_metrics-IsQuiet _ h.measured) (
          seq-IsQuiet (perform-IsQuiet _ refl refl) (
            bind-IsQuiet _ samples (or_metrics-IsQuiet _ h.ranged) (
              seq-IsQuiet (skip-IsQuiet _ _ h.enough)
                (pure-IsQuiet (current_rps, values_of samples))))))

    pub ask_forecast-IsQuiet :
        (key : NamespacedName) (q : RecommendRequest F)
        → IsQuiet (ask_forecast r env key q) response
    unfolding ask_forecast
    ask_forecast-IsQuiet key q = seq-IsQuiet (perform-IsQuiet _ refl refl) (
        subst
          (λ o.
            IsQuiet {F = F} {T = T}
              (elim o [
                | ok answer ↦ pure answer
                | err e ↦ do
                  warn r env Reasoning.forecast_unavailable e
                  perform (Effect.observe_forecast_failure key)
                  stop_with (requeue_interval r env)
              ])
              response)
          (sym (h.told q)) (pure-IsQuiet response))

    pub read_deployment-IsQuiet :
        (key : NamespacedName) → IsQuiet (read_deployment r env key) deploy
    unfolding read_deployment
    read_deployment-IsQuiet key =
        subst
          (λ o.
            IsQuiet {F = F} {T = T}
              (elim o [
                | err e ↦ stop_with (requeue_interval r env)
                | ok found ↦ do
                  when r.has_classifier (
                      perform (
                        Effect.observe_revision key
                          (annotation revision_annotation found.annotations)))
                  pure found
              ])
              deploy)
          (sym h.deployed)
          (seq-IsQuiet (when-IsQuiet _ (perform-IsQuiet _ refl refl)) (pure-IsQuiet deploy))

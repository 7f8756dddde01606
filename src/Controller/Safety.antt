-- ===== src/Controller/Safety.antt =====
-- Whatever Prometheus, the Forecast Service and the API server answer, a reconcile keeps the stored
-- states well formed, does not panic, and patches only as its plan says.
use agentic_autoscaler.Prelude.{
  ℤ, pos, String, Option, some, none, false, ◌≡◌, refl, arith, ltb_ℤ, if◌then◌else◌,
}
use agentic_autoscaler.Go.Float.{Float64}
use agentic_autoscaler.Go.Time.{GoTime}
use agentic_autoscaler.Api.{NamespacedName, name_key, AgenticAutoscaler}
use agentic_autoscaler.Adapters.{ok, RecommendRequest, RecommendResponse}
use agentic_autoscaler.Decision.Params.{resolve_effective_params}
use agentic_autoscaler.Decision.Store.{PerCrState, get_or_create, save}
use agentic_autoscaler.Controller.World.{
  Deployment, Env, Effect, Ending, Fetched, pure, stop_with, ◌>>=◌, ◌>>◌, get_store, put_store,
}
use agentic_autoscaler.Controller.Inputs.{build_param_sources, deref_or, ring_buffer_capacity}
use agentic_autoscaler.Controller.Decide.{Plan, ensure_initialized, decide}
use agentic_autoscaler.Controller.Steps.{Reconciler, requeue_interval, forget, fetch}
use agentic_autoscaler.Controller.Reconcile.{
  or_panic, refresh_state, patch_scale, announce, carry_out, final_status, scale, run,
}
use agentic_autoscaler.Controller.Runs.{
  Keeps, Safe, perform_rule, put_rule, get_rule, seq_rule, after_rule, then_rule, when_rule,
  pure_rule, stop_rule,
}
use agentic_autoscaler.Controller.PreChecks.{
  is_active, is_panic, requeue-Keeps, update_status-Safe, cold_path-Safe, pre_checks-Keeps,
}
use agentic_autoscaler.Controller.Reads.{
  Answers, books, is_patch, read_metrics-Keeps, ask_forecast-Keeps, read_deployment-Keeps,
}
use agentic_autoscaler.Controller.Stored.{
  IsWell, IsSound, save-IsSound, delete-IsSound, get_or_create-IsSound, ensure_initialized-IsWell,
  observe-IsWell,
}

-- The plan of a reconcile of `aas` for a given rate, answer, Deployment and state.
abbrev pub plan_of :
    {F : Type 0} ⦃f : Float64 F⦄ {T : Type 0} ⦃t : GoTime T⦄
    → Reconciler F
    → Env F T
    → AgenticAutoscaler F T
    → F
    → RecommendResponse F
    → Deployment
    → PerCrState F T
    → Plan F T
plan_of r env aas current_rps response deploy state =
    decide aas current_rps response (resolve_effective_params (build_param_sources r.config aas))
      (deref_or deploy.replicas (pos 1)) state env.now_decision

module _ {F : Type 0} ⦃f : Float64 F⦄ {T : Type 0} ⦃t : GoTime T⦄ (r : Reconciler F) (env : Env F T)
    (P : Effect F T → Type 0) (E : Ending → Type 0)
    (others : (e : Effect F T) → is_patch e ≡ false → P e)
    (normal : (e : Ending) → is_panic e ≡ false → E e) where
  quiet : (e : Effect F T) → is_active e ≡ false → P e
  quiet = books r env P IsSound E others normal

  or_panic-Keeps :
      (key : NamespacedName) (o : Option (PerCrState F T)) (st : PerCrState F T)
      → o ≡ some st
      → IsWell st
      → Keeps P IsSound E (or_panic r env key o) IsWell
  or_panic-Keeps key o st e w = rw e (
      then_rule P IsSound E IsSound (get_rule P IsSound E) (λ s sound.
        seq_rule P IsSound E (put_rule P IsSound E (save-IsSound key st s sound w))
          (pure_rule P IsSound E st w)))

  pub refresh_state-Keeps :
      (key : NamespacedName) (aas : AgenticAutoscaler F T) (current_rps : F) (replicas : ℤ)
      → Keeps P IsSound E (refresh_state r env key aas current_rps replicas) IsWell
  unfolding refresh_state
  refresh_state-Keeps key aas current_rps replicas =
      then_rule P IsSound E IsSound (get_rule P IsSound E) (λ s sound.
        let made = get_or_create s key ring_buffer_capacity in
        let (well, kept) = get_or_create-IsSound key s sound in
        let started = ensure_initialized-IsWell aas made.0 well in
        let (next, seen, still) =
          observe-IsWell r.config current_rps replicas env.now_decision
            (ensure_initialized aas made.0) started in
        seq_rule P IsSound E (put_rule P IsSound E (save-IsSound key _ made.1 kept started))
          (or_panic-Keeps key _ next seen still))

  patched :
      (key : NamespacedName) (state : PerCrState F T) (plan : Plan F T) (o : Option String)
      → IsWell state
      → Safe P IsSound E (elim o [
        | some e ↦ stop_with (requeue_interval r env)
        | none ↦ do
          s ← get_store
          put_store (
              save key
                (if ltb_ℤ plan.current_replicas plan.cap_out.target
                  then record state { last_scale_up_time = plan.now }
                  else record state { last_scale_down_time = plan.now })
                s)
      ])
  patched key state plan (some e) w = requeue-Keeps r env P IsSound E quiet normal
  patched key state plan none w =
      then_rule P IsSound E IsSound (get_rule P IsSound E)
        (λ s sound. put_rule P IsSound E (save-IsSound key _ s sound (ground arith)))

  patch_scale-Safe :
      (key : NamespacedName) (state : PerCrState F T) (plan : Plan F T)
      → IsWell state
      → P (Effect.patch_scale plan.cap_out.target)
      → Safe P IsSound E (patch_scale r env key state plan)
  unfolding patch_scale
  patch_scale-Safe key state plan w h = when_rule P IsSound E plan.cap_out.should_patch (
      seq_rule P IsSound E (perform_rule P IsSound E h)
        (patched key state plan (env.update_scale plan.cap_out.target) w))

  announce-Safe :
      (aas : AgenticAutoscaler F T) (plan : Plan F T) → Safe P IsSound E (announce r env aas plan)
  unfolding announce
  announce-Safe aas plan =
      let done =
        λ (e : Effect F T) (h : is_patch e ≡ false). perform_rule P IsSound E (others e h) in
      seq_rule P IsSound E (done _ refl) (
        seq_rule P IsSound E (done _ refl)
          (seq_rule P IsSound E (done _ refl) (when_rule P IsSound E _ (done _ refl))))

  pub carry_out-Safe :
      (key : NamespacedName) (aas : AgenticAutoscaler F T) (state : PerCrState F T)
      (plan : Plan F T)
      → IsWell state
      → P (Effect.patch_scale plan.cap_out.target)
      → Safe P IsSound E (carry_out r env key aas state plan)
  unfolding carry_out
  carry_out-Safe key aas state plan w h =
      seq_rule P IsSound E (patch_scale-Safe key state plan w h) (
        seq_rule P IsSound E (announce-Safe aas plan) (
          seq_rule P IsSound E
            (update_status-Safe r env P IsSound E quiet normal (final_status r env aas plan))
            (requeue-Keeps r env P IsSound E quiet normal)))

  -- The plan that a reconcile may carry out patches as `P` allows.
  abbrev pub Patches : AgenticAutoscaler F T → Type 0
  Patches aas =
      (current_rps : F) (response : RecommendResponse F) (deploy : Deployment)
      (state : PerCrState F T)
      → Answers r env aas current_rps
      → ((request : RecommendRequest F) × (env.recommend request ≡ ok response))
      → env.get_deployment ≡ ok deploy
      → P (Effect.patch_scale (plan_of r env aas current_rps response deploy state).cap_out.target)

  scale-Safe :
      (key : NamespacedName) (aas : AgenticAutoscaler F T)
      → Patches aas
      → Safe P IsSound E (scale r env key aas)
  unfolding scale
  scale-Safe key aas h =
      then_rule P IsSound E _ (read_metrics-Keeps r env P IsSound E others normal aas)
        (λ metrics reading.
          then_rule P IsSound E _ (ask_forecast-Keeps r env P IsSound E others normal _ _)
            (λ response answered.
              then_rule P IsSound E _ (read_deployment-Keeps r env P IsSound E others normal key)
                (λ deploy got.
                  then_rule P IsSound E _ (refresh_state-Keeps key aas metrics.0 _) (λ state w.
                    carry_out-Safe key aas state _ w
                      (h metrics.0 response deploy state reading.0 (_, answered) got)))))

  forget-Safe : (key : NamespacedName) → Safe P IsSound E (forget r env key)
  unfolding forget
  forget-Safe key = then_rule P IsSound E IsSound (get_rule P IsSound E) (λ s sound.
      seq_rule P IsSound E (put_rule P IsSound E (delete-IsSound key s sound)) (
        seq_rule P IsSound E (when_rule P IsSound E _ (perform_rule P IsSound E (others _ refl)))
          (stop_rule P IsSound E (normal _ refl))))

  got :
      (key : NamespacedName) (a : Fetched (AgenticAutoscaler F T))
      → Keeps P IsSound E
          (elim a [
            | Fetched.found aas ↦ pure aas
            | Fetched.not_found ↦ do forget r env key; stop_with Ending.done
            | Fetched.failed e ↦ stop_with (Ending.failed e)
          ])
          (λ aas. a ≡ Fetched.found aas)
  got key (Fetched.found aas) = pure_rule P IsSound E aas refl
  got key Fetched.not_found =
      seq_rule P IsSound E (forget-Safe key) (stop_rule P IsSound E (normal _ refl))
  got key (Fetched.failed e) = stop_rule P IsSound E (normal _ refl)

  fetch-Keeps :
      (key : NamespacedName)
      → Keeps P IsSound E (fetch r env key) (λ aas. env.get_resource ≡ Fetched.found aas)
  unfolding fetch
  fetch-Keeps key = got key env.get_resource

  pub run-Safe :
      (key : NamespacedName)
      → ((aas : AgenticAutoscaler F T) → env.get_resource ≡ Fetched.found aas → Patches aas)
      → Safe P IsSound E (run r env key)
  unfolding run
  run-Safe key h = then_rule P IsSound E _ (fetch-Keeps key) (λ aas found.
      seq_rule P IsSound E (cold_path-Safe r env P IsSound E quiet normal key aas) (
        after_rule P IsSound E (pre_checks-Keeps r env P IsSound E quiet normal aas)
          (λ _. scale-Safe key aas (h aas found))))

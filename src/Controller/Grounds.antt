-- ===== src/Controller/Grounds.antt =====
-- What a patch of a reconcile rests on: the answers of the outside world, and the stored state as
-- the reconcile found it.
use agentic_autoscaler.Prelude.{ℤ, pos, [], false, ◌≡◌, ◌≢◌, refl, sym, All}
use mathlib.Core.Path.{subst}
use agentic_autoscaler.Go.Float.{Float64}
use agentic_autoscaler.Go.Time.{GoTime}
use agentic_autoscaler.Api.{NamespacedName, name_key, AgenticAutoscaler}
use agentic_autoscaler.Adapters.{ok, RecommendResponse}
use agentic_autoscaler.Decision.Params.{EffectiveParams, resolve_effective_params}
use agentic_autoscaler.Decision.Store.{PerCrState, StateStore, get_or_create}
use agentic_autoscaler.Controller.World.{
  Deployment, Env, Effect, Ending, Fetched, Flow, M, World, ◌>>=◌, ◌>>◌,
}
use agentic_autoscaler.Controller.Inputs.{
  build_param_sources, deref_or, ring_buffer_capacity, values_of,
}
use agentic_autoscaler.Controller.Decide.{ensure_initialized}
use agentic_autoscaler.Controller.Steps.{Reconciler, recommend_request}
use agentic_autoscaler.Controller.Reconcile.{refresh_state, carry_out, scale, run}
use agentic_autoscaler.Controller.Runs.{Holds, Ensures, Keeps}
use agentic_autoscaler.Controller.PreChecks.{is_active, is_panic, cold_path-Safe, pre_checks-Keeps}
use agentic_autoscaler.Controller.Reads.{
  Answers, books, is_patch, read_metrics-Keeps, ask_forecast-Keeps, read_deployment-Keeps,
}
use agentic_autoscaler.Controller.Stored.{
  IsSound, get_or_create-IsSound, ensure_initialized-IsWell, observe-IsWell, IsWell,
}
use agentic_autoscaler.Controller.Carry.{IsRefreshed, refresh_state_lem, next_bind}
use agentic_autoscaler.Controller.Outages.{fetch-Keeps}
use agentic_autoscaler.Controller.Safety.{plan_of, refresh_state-Keeps, carry_out-Safe, run-Safe}

module _ {F : Type 0} ⦃f : Float64 F⦄ {T : Type 0} ⦃t : GoTime T⦄ (r : Reconciler F)
    (env : Env F T) where
  abbrev pub params_of : AgenticAutoscaler F T → EffectiveParams
  params_of aas = resolve_effective_params (build_param_sources r.config aas)

  -- The count is the target of the plan for the resource, the rate, the answered forecast request,
  -- the Deployment, and the stored state refreshed with that rate.
  pub record Grounds (key : NamespacedName) (s : StateStore NamespacedName F T) (n : ℤ)
      : Type 0 where
    pub aas : AgenticAutoscaler F T
    pub current_rps : F
    pub answers : Answers r env aas current_rps
    pub response : RecommendResponse F
    pub deploy : Deployment
    pub state : PerCrState F T
    pub found : env.get_resource ≡ Fetched.found aas
    pub recommended :
        env.recommend (recommend_request r env key aas (params_of aas) (values_of answers.1))
        ≡ ok response
    pub got : env.get_deployment ≡ ok deploy
    pub refreshed : IsRefreshed r env aas current_rps deploy s key state
    pub target : n ≡ (plan_of r env aas current_rps response deploy state).cap_out.target

module _ {F : Type 0} ⦃f : Float64 F⦄ {T : Type 0} ⦃t : GoTime T⦄ (r : Reconciler F) (env : Env F T)
    (P : Effect F T → Type 0) (others : (e : Effect F T) → is_patch e ≡ false → P e)
    (key : NamespacedName) (s : StateStore NamespacedName F T) where
  abbrev Start : StateStore NamespacedName F T → Type 0
  Start x = x ≡ s

  abbrev Any : Ending → Type 0
  Any e = Unit {0}

  any : (e : Ending) → is_panic e ≡ false → Any e
  any e h = tt

  quiet : (e : Effect F T) → is_active e ≡ false → P e
  quiet = books r env P Start Any others any

  -- From the store `s`, the calls of the step are as `P` allows.
  record Calls {A : Type 0} (m : M F T A) : Type 0 where
    pub allowed : (w : World F T) → Holds P Start Any w → All P (m w).1.effects

  effects_of :
      {A : Type 0} (S : StateStore NamespacedName F T → Type 0) (Q : A → Type 0)
      (p : Flow A × World F T)
      → Ensures P S Any Q p
      → All P p.1.effects
  effects_of S Q (Flow.next a, w) h = h.1.0
  effects_of S Q (Flow.stop e, w) h = h.1.0

  Calls-bind :
      {A B : Type 0} (g : A → M F T B) (Q : A → Type 0)
      → ((a : A) → Q a → Calls (g a))
      → (p : Flow A × World F T) → Ensures P Start Any Q p
      → let q : Flow B × World F T = elim p.0 [
        | Flow.next a ↦ g a p.1
        | Flow.stop e ↦ (Flow.stop e, p.1)
      ] in
        All P q.1.effects
  Calls-bind g Q rest (Flow.next a, w) (q, i) = (rest a q).allowed w i
  Calls-bind g Q rest (Flow.stop e, w) h = h.1.0

  then-Calls :
      {A B : Type 0} {m : M F T A} {g : A → M F T B} (Q : A → Type 0)
      → Keeps P Start Any m Q
      → ((a : A) → Q a → Calls (g a))
      → Calls (m >>= g)
  unfolding ◌>>=◌
  then-Calls {m = m} {g = g} Q first rest = record {
    allowed = λ w i. Calls-bind g Q rest (m w) (first.holds w i);
  }

  seq-Calls :
      {B : Type 0} {m : M F T (Unit {0})} {k : M F T B} {G : Unit {0} → Type 0}
      → Keeps P Start Any m G
      → Calls k
      → Calls (m >> k)
  unfolding ◌>>◌
  seq-Calls {G = G} first rest = then-Calls G first (λ _ _. rest)

  abbrev Patches : Type 0
  Patches = (n : ℤ) → Grounds r env key s n → P (Effect.patch_scale n)

  -- The rest of the reconcile, on the store that `refresh_state` finds.
  refreshed-Calls :
      (sound : IsSound s) (aas : AgenticAutoscaler F T) (current_rps : F)
      (response : RecommendResponse F) (deploy : Deployment)
      → ((state : PerCrState F T)
          → IsRefreshed r env aas current_rps deploy s key state
          → P (
              Effect.patch_scale
                (plan_of r env aas current_rps response deploy state).cap_out.target))
      → Calls (
          refresh_state r env key aas current_rps (deref_or deploy.replicas (pos 1)) >>= (λ state.
            carry_out r env key aas state (plan_of r env aas current_rps response deploy state)))
  refreshed-Calls sound aas current_rps response deploy h = record {
    allowed = λ w i.
        let replicas = deref_or deploy.replicas (pos 1) in
        let held : IsSound w.store = subst IsSound (sym i.1) sound in
        let made = get_or_create w.store key ring_buffer_capacity in
        let started =
          ensure_initialized-IsWell aas made.0 (get_or_create-IsSound key w.store held).0 in
        let (state, seen, still) =
          observe-IsWell r.config current_rps replicas env.now_decision
            (ensure_initialized aas made.0) started in
        let (x, next) = refresh_state_lem r env aas current_rps deploy key state w seen in
        let (_, kept) = subst (Ensures P IsSound Any IsWell) next (
          (refresh_state-Keeps r env P Any others any key aas current_rps replicas).holds w
            (i.0, held)) in
        let plan = plan_of r env aas current_rps response deploy state in
        let allows =
          h state (subst (λ y. IsRefreshed r env aas current_rps deploy y key state) i.1 seen) in
        let rest =
          (carry_out-Safe r env P Any others any key aas state plan still allows).holds _ kept in
        subst (λ (p : Flow (Unit {0}) × World F T). All P p.1.effects)
          (sym (next_bind _ _ state w _ next)) (effects_of IsSound (λ _. Unit {0}) _ rest);
  }

  scale-Calls :
      (sound : IsSound s) (aas : AgenticAutoscaler F T)
      → env.get_resource ≡ Fetched.found aas
      → Patches
      → Calls (scale r env key aas)
  unfolding scale
  scale-Calls sound aas found h =
      then-Calls _ (read_metrics-Keeps r env P Start Any others any aas) (λ metrics reading.
        then-Calls _ (ask_forecast-Keeps r env P Start Any others any _ _) (λ response answered.
          then-Calls _ (read_deployment-Keeps r env P Start Any others any key) (λ deploy got.
            refreshed-Calls sound aas metrics.0 response deploy (λ state seen. h _ (record {
              aas = aas;
              current_rps = metrics.0;
              answers = reading.0;
              response = response;
              deploy = deploy;
              state = state;
              found = found;
              recommended =
                  subst
                    (λ history.
                      env.recommend (recommend_request r env key aas (params_of r env aas) history)
                      ≡ ok response)
                    reading.1 answered;
              got = got;
              refreshed = seen;
              target = refl;
            })))))

  run-Calls :
      (sound : IsSound s) (aas : AgenticAutoscaler F T)
      → env.get_resource ≡ Fetched.found aas
      → Patches
      → Calls (run r env key)
  unfolding run
  run-Calls sound aas found h =
      then-Calls _ (fetch-Keeps r env P Start Any key aas found) (λ x same.
        seq-Calls (cold_path-Safe r env P Start Any quiet any key x) (
          seq-Calls (pre_checks-Keeps r env P Start Any quiet any x) (
            scale-Calls sound x (subst (λ y. env.get_resource ≡ Fetched.found y) (sym same) found)
              h)))

  -- A call that is not a patch is allowed; so are all, if a patch with such grounds is.
  pub run-Grounds :
      (sound : IsSound s)
      → Patches
      → All P (run r env key (record { store = s; effects = [] })).1.effects
  run-Grounds sound h = of_answer env.get_resource refl
    where
      start : World F T
      start = record { store = s; effects = [] }

      unread :
          ((aas : AgenticAutoscaler F T) → env.get_resource ≢ Fetched.found aas)
          → All P (run r env key start).1.effects
      unread gone =
          let safe =
            run-Safe r env P Any others any key
              (λ aas found _ _ _ _ _ _ _. absurd (gone aas found)) in
          effects_of IsSound (λ _. Unit {0}) _ (safe.holds start (tt, sound))

      of_answer :
          (a : Fetched (AgenticAutoscaler F T))
          → env.get_resource ≡ a
          → All P (run r env key start).1.effects
      of_answer (Fetched.found aas) e = (run-Calls sound aas e h).allowed start (tt, refl)
      of_answer Fetched.not_found e = unread (λ aas same. cc)
      of_answer (Fetched.failed m) e = unread (λ aas same. cc)

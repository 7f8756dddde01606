-- ===== src/Controller/Outages.antt =====
-- A reconcile that must not act does not: a paused, deleted or conflicting resource, and an outage of
-- the metrics or of the forecast.
use agentic_autoscaler.Prelude.{◌⊎◌, inl, inr, [], true, false, ◌≡◌, ◌≢◌, refl, All, arith}
use agentic_autoscaler.Go.Float.{Float64}
use agentic_autoscaler.Go.Time.{GoTime}
use agentic_autoscaler.Api.{NamespacedName, AgenticAutoscaler}
use agentic_autoscaler.Adapters.{ok, RecommendRequest, RecommendResponse}
use agentic_autoscaler.Decision.Store.{StateStore}
use agentic_autoscaler.Controller.World.{
  Env, Effect, Ending, Fetched, Flow, World, pure, stop_with, ◌>>◌,
}
use agentic_autoscaler.Controller.Steps.{Reconciler, fetch, forget}
use agentic_autoscaler.Controller.Reconcile.{scale, run}
use agentic_autoscaler.Controller.Runs.{
  Keeps, Ensures, seq_rule, after_rule, then_rule, weaken_rule, pure_rule,
}
use agentic_autoscaler.Controller.PreChecks.{
  is_active, is_panic, is_paused, IsFree, cold_path-Safe, pre_checks-Keeps,
}
use agentic_autoscaler.Controller.Reads.{
  books, is_patch, read_metrics-Keeps, ask_forecast-Keeps, Answers,
}

-- The resource is paused, is being deleted, or cannot be shown to be free of another autoscaler.
abbrev pub IsHalted : {F T : Type 0} → AgenticAutoscaler F T → Env F T → Type 0
IsHalted aas env = (is_paused aas ≡ true) ⊎ (aas.being_deleted ≡ true) ⊎ ¬ IsFree aas env.list_hpas

-- The metrics are not answered with enough samples, or the forecast is not answered.
abbrev pub IsOut :
    {F : Type 0} ⦃f : Float64 F⦄ {T : Type 0} ⦃t : GoTime T⦄
    → Reconciler F
    → Env F T
    → AgenticAutoscaler F T
    → Type 0
IsOut {F} r env aas =
    ((current_rps : F) → ¬ Answers r env aas current_rps)
    ⊎ ((q : RecommendRequest F) (a : RecommendResponse F) → env.recommend q ≢ ok a)

module _ {F : Type 0} ⦃f : Float64 F⦄ {T : Type 0} ⦃t : GoTime T⦄ (r : Reconciler F)
    (env : Env F T) where
  fetched :
      (P : Effect F T → Type 0) (S : StateStore NamespacedName F T → Type 0) (E : Ending → Type 0)
      (key : NamespacedName) (aas : AgenticAutoscaler F T) (a : Fetched (AgenticAutoscaler F T))
      → a ≡ Fetched.found aas
      → Keeps P S E
          (elim a [
            | Fetched.found x ↦ pure x
            | Fetched.not_found ↦ do forget r env key; stop_with Ending.done
            | Fetched.failed e ↦ stop_with (Ending.failed e)
          ])
          (λ x. x ≡ aas)
  fetched P S E key aas (Fetched.found x) e = pure_rule P S E x (cc e)
  fetched P S E key aas Fetched.not_found e = absurd (ground arith)
  fetched P S E key aas (Fetched.failed x) e = absurd (ground arith)

  pub fetch-Keeps :
      (P : Effect F T → Type 0) (S : StateStore NamespacedName F T → Type 0) (E : Ending → Type 0)
      (key : NamespacedName) (aas : AgenticAutoscaler F T)
      → env.get_resource ≡ Fetched.found aas
      → Keeps P S E (fetch r env key) (λ x. x ≡ aas)
  unfolding fetch
  fetch-Keeps P S E key aas found = fetched P S E key aas env.get_resource found

  outcome :
      (P : Effect F T → Type 0) (S : StateStore NamespacedName F T → Type 0)
      (p : Flow (Unit {0}) × World F T)
      → Ensures P S (λ e. is_panic e ≡ false) {A = Unit {0}} (λ _. ⊥) p
      → All P p.1.effects
        × S p.1.store
        × ((e : Ending) × (p.0 ≡ Flow.stop e) × (is_panic e ≡ false))
  outcome P S (Flow.next a, w) (none_left, _) = absurd none_left
  outcome P S (Flow.stop e, w) (calm, i) = (i.0, i.1, (e, refl, calm))

  halts :
      (aas : AgenticAutoscaler F T)
      → IsHalted aas env
      → (is_paused aas ≡ false) × (aas.being_deleted ≡ false) × IsFree aas env.list_hpas
      → ⊥
  halts aas (inl paused) (clear, _, _) = cc
  halts aas (inr (inl deleted)) (_, kept, _) = cc
  halts aas (inr (inr bound)) (_, _, free) = bound free

  -- A resource that is paused, being deleted, or not shown to be free of another autoscaler is left
  -- alone: there is no query, no forecast, no patch and no notification, the stored states are as
  -- before, and the reconcile ends without a panic.
  pub run_halted :
      (key : NamespacedName) (aas : AgenticAutoscaler F T) (s : StateStore NamespacedName F T)
      → env.get_resource ≡ Fetched.found aas
      → IsHalted aas env
      → let out = run r env key (record { store = s; effects = [] }) in
        All (λ e. is_active e ≡ false) out.1.effects
        × (out.1.store ≡ s)
        × ((e : Ending) × (out.0 ≡ Flow.stop e) × (is_panic e ≡ false))
  unfolding run
  run_halted key aas s found halted =
      let P = λ (e : Effect F T). is_active e ≡ false in
      let S = λ (s' : StateStore NamespacedName F T). s' ≡ s in
      let E = λ (e : Ending). is_panic e ≡ false in
      let safe : Keeps P S E (run r env key) (λ _. ⊥) =
        then_rule P S E _ (fetch-Keeps P S E key aas found) (λ x same.
          seq_rule P S E (cold_path-Safe r env P S E (λ _ h. h) (λ _ h. h) key x) (
            after_rule P S E (pre_checks-Keeps r env P S E (λ _ h. h) (λ _ h. h) x)
              (λ clear. absurd (halts x (rw same halted) clear)))) in
      outcome P S _ (safe.holds (record { store = s; effects = [] }) (tt, refl))

  abbrev IsTold : RecommendResponse F → Type 0
  IsTold a = (q : RecommendRequest F) × (env.recommend q ≡ ok a)

  -- During an outage nothing is patched, the stored states are as before, and the reconcile ends
  -- without a panic.
  pub run_out :
      (key : NamespacedName) (aas : AgenticAutoscaler F T) (s : StateStore NamespacedName F T)
      → env.get_resource ≡ Fetched.found aas
      → IsOut r env aas
      → let out = run r env key (record { store = s; effects = [] }) in
        All (λ e. is_patch e ≡ false) out.1.effects
        × (out.1.store ≡ s)
        × ((e : Ending) × (out.0 ≡ Flow.stop e) × (is_panic e ≡ false))
  unfolding run scale
  run_out key aas s found out =
      let P = λ (e : Effect F T). is_patch e ≡ false in
      let S = λ (s' : StateStore NamespacedName F T). s' ≡ s in
      let E = λ (e : Ending). is_panic e ≡ false in
      let quiet = books r env P S E (λ _ h. h) (λ _ h. h) in
      let safe : Keeps P S E (run r env key) (λ _. ⊥) =
        then_rule P S E _ (fetch-Keeps P S E key aas found) (λ x same.
          seq_rule P S E (cold_path-Safe r env P S E quiet (λ _ h. h) key x) (
            after_rule P S E (pre_checks-Keeps r env P S E quiet (λ _ h. h) x) (λ _.
              then_rule P S E _ (read_metrics-Keeps r env P S E (λ _ h. h) (λ _ h. h) x)
                (λ m answers.
                  then_rule P S E IsTold
                    (weaken_rule P S E (ask_forecast-Keeps r env P S E (λ _ h. h) (λ _ h. h) _ _)
                      (λ response told. (_, told)))
                    (λ response told. absurd (elim out [
                      | inl no_metrics ↦ no_metrics m.0 (rw same at answers.0)
                      | inr no_forecast ↦ no_forecast told.0 response told.1
                    ])))))) in
      outcome P S _ (safe.holds (record { store = s; effects = [] }) (tt, refl))

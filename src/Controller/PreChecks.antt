-- ===== src/Controller/PreChecks.antt =====
-- The pre-checks keep any invariant of the store, and their effects are bookkeeping.
use agentic_autoscaler.Prelude.{
  String, str_eq, Option, some, none, List, Bool, true, false, ◌≡◌, refl,
}
use agentic_autoscaler.Go.Float.{Float64}
use agentic_autoscaler.Go.Time.{GoTime}
use agentic_autoscaler.Api.{NamespacedName, Status, AgenticAutoscaler}
use agentic_autoscaler.Adapters.{Fallible, ok, err}
use agentic_autoscaler.Reasoning
use agentic_autoscaler.Decision.Store.{StateStore}
use agentic_autoscaler.Controller.World.{Env, Effect, Ending, Hpa, pure, stop_with, perform}
use agentic_autoscaler.Controller.Inputs.{annotation, find_conflicting_hpa}
use agentic_autoscaler.Controller.Steps.{
  Reconciler, requeue_interval, warn, update_status, cold_path, handle_kill_switch, handle_conflict,
  check_conflict, pre_checks,
}
use agentic_autoscaler.Controller.Runs.{
  Keeps, Safe, perform_rule, seq_rule, after_rule, guard_rule, weaken_rule, when_rule, pure_rule,
  stop_rule,
}

abbrev pub is_panic : Ending → Bool
is_panic Ending.panicked = true
is_panic e = false

-- The effects that are more than bookkeeping: queries, the forecast, patches and what follows them.
abbrev pub is_active : {F T : Type 0} → Effect F T → Bool
is_active (Effect.query_instant q) = true
is_active (Effect.query_range q a b s) = true
is_active (Effect.ask_forecast q) = true
is_active (Effect.patch_scale n) = true
is_active (Effect.notify q) = true
is_active (Effect.observe_reconcile key a b c d) = true
is_active e = false

abbrev pub is_paused : {F T : Type 0} → AgenticAutoscaler F T → Bool
is_paused aas = str_eq (annotation Reasoning.annotation_kill_switch aas.annotations) "true"

-- No HPA of the list targets the same object.
abbrev pub IsFree : {F T : Type 0} → AgenticAutoscaler F T → Fallible (List Hpa) → Type 0
IsFree aas (ok hpas) = find_conflicting_hpa aas.spec hpas ≡ none
IsFree aas (err e) = ⊥

module _ {F : Type 0} ⦃f : Float64 F⦄ {T : Type 0} ⦃t : GoTime T⦄ (r : Reconciler F) (env : Env F T)
    (P : Effect F T → Type 0) (S : StateStore NamespacedName F T → Type 0) (E : Ending → Type 0)
    (books : (e : Effect F T) → is_active e ≡ false → P e)
    (normal : (e : Ending) → is_panic e ≡ false → E e) where
  pub done_perform : (e : Effect F T) → is_active e ≡ false → Safe P S E (perform e)
  done_perform e h = perform_rule P S E (books e h)

  pub requeue-Keeps :
      {A : Type 0} {Q : A → Type 0} → Keeps P S E {A = A} (stop_with (requeue_interval r env)) Q
  unfolding requeue_interval
  requeue-Keeps = stop_rule P S E (normal _ refl)

  pub warn-Safe : (token message : String) → Safe P S E (warn r env token message)
  unfolding warn
  warn-Safe token message = done_perform _ refl

  or_failed :
      (o : Option String)
      → Safe P S E (elim o [ none ↦ pure tt | some e ↦ stop_with (Ending.failed e) ])
  or_failed none = pure_rule P S E tt tt
  or_failed (some e) = stop_rule P S E (normal _ refl)

  pub update_status-Safe : (s : Status F T) → Safe P S E (update_status r env s)
  unfolding update_status
  update_status-Safe s = seq_rule P S E (done_perform _ refl) (or_failed (env.update_status s))

  pub cold_path-Safe :
      (key : NamespacedName) (aas : AgenticAutoscaler F T) → Safe P S E (cold_path r env key aas)
  unfolding cold_path
  cold_path-Safe key aas =
      when_rule P S E _
        (seq_rule P S E (done_perform _ refl) (when_rule P S E _ (done_perform _ refl)))

  pub handle_kill_switch-Keeps :
      {Q : Unit {0} → Type 0} (aas : AgenticAutoscaler F T)
      → Keeps P S E (handle_kill_switch r env aas) Q
  unfolding handle_kill_switch
  handle_kill_switch-Keeps aas =
      seq_rule P S E (when_rule P S E _ (seq_rule P S E (update_status-Safe _) (warn-Safe _ _)))
        requeue-Keeps

  handle_conflict-Keeps :
      {Q : Unit {0} → Type 0} (aas : AgenticAutoscaler F T) (hpa_name : String)
      → Keeps P S E (handle_conflict r env aas hpa_name) Q
  unfolding handle_conflict
  handle_conflict-Keeps aas hpa_name =
      seq_rule P S E (when_rule P S E _ (seq_rule P S E (update_status-Safe _) (warn-Safe _ _)))
        requeue-Keeps

  no_conflict :
      (aas : AgenticAutoscaler F T) (o : Option String)
      → Keeps P S E
          (elim o [ none ↦ pure tt | some hpa_name ↦ handle_conflict r env aas hpa_name ])
          (λ _. o ≡ none)
  no_conflict aas none = pure_rule P S E tt refl
  no_conflict aas (some hpa_name) = handle_conflict-Keeps aas hpa_name

  conflict_listed :
      (aas : AgenticAutoscaler F T) (l : Fallible (List Hpa))
      → Keeps P S E
          (elim l [
            | err e ↦ stop_with (Ending.failed e)
            | ok hpas ↦ elim (find_conflicting_hpa aas.spec hpas) [
              | none ↦ pure tt
              | some hpa_name ↦ handle_conflict r env aas hpa_name
            ]
          ])
          (λ _. IsFree aas l)
  conflict_listed aas (err e) = stop_rule P S E (normal _ refl)
  conflict_listed aas (ok hpas) = no_conflict aas (find_conflicting_hpa aas.spec hpas)

  -- The pre-checks let a resource pass only if it is neither paused, nor deleted, nor in conflict.
  pub pre_checks-Keeps :
      (aas : AgenticAutoscaler F T)
      → Keeps P S E
          (pre_checks r env aas)
          (λ _. (is_paused aas ≡ false) × (aas.being_deleted ≡ false) × IsFree aas env.list_hpas)
  unfolding pre_checks check_conflict
  pre_checks-Keeps aas =
      after_rule P S E (guard_rule P S E _ (handle_kill_switch-Keeps aas)) (λ unpaused.
        after_rule P S E (guard_rule P S E _ (stop_rule P S E (normal _ refl))) (λ kept.
          weaken_rule P S E (conflict_listed aas env.list_hpas) (λ _ free. (unpaused, kept, free))))

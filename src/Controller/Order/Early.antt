-- ===== src/Controller/Order/Early.antt =====
-- The cold path and the pre-checks of a reconcile, in the order of Controller.Calls.
use agentic_autoscaler.Prelude.{
  String, Option, some, none, List, Bool, true, ◌≡◌, ◌⊎◌, inl, inr, refl, ap, arith,
}
use agentic_autoscaler.Go.Float.{Float64}
use agentic_autoscaler.Go.Time.{GoTime}
use agentic_autoscaler.Api.{
  NamespacedName, name_key, Status, AgenticAutoscaler, phase_disabled, phase_conflict,
}
use agentic_autoscaler.Adapters.{Fallible, ok, err}
use agentic_autoscaler.Controller.World.{Env, Effect, Ending, Hpa, pure, stop_with, ◌>>◌, when}
use agentic_autoscaler.Controller.Inputs.{find_conflicting_hpa}
use agentic_autoscaler.Controller.Steps.{
  Reconciler, requeue_interval, warn, update_status, cold_path, handle_kill_switch, handle_conflict,
  check_conflict, pre_checks,
}
use agentic_autoscaler.Controller.Calls.{Stage, Call, is_early, is_settled, is_refusable}
use agentic_autoscaler.Controller.Leads.{
  Leads, LeadsTo, lead_seq, lead_perform, lead_call, lead_pure, lead_stop, lead_when, lead_guard,
  lead_weaken, lead_end,
}

early_settled : (a : Stage) → is_early a ≡ true → is_settled a ≡ true
early_settled a h = ground arith

early_refusable : (a : Stage) → is_early a ≡ true → is_refusable a ≡ true
early_refusable a h = ground arith

module _ {F : Type 0} ⦃f : Float64 F⦄ {T : Type 0} ⦃t : GoTime T⦄ (r : Reconciler F) (env : Env F T)
    (k : NamespacedName) where
  or_failed :
      (a : Stage) (o : Option String)
      → is_refusable a ≡ true
      → LeadsTo {F = F} {T = T} k a
          (elim o [ none ↦ pure tt | some e ↦ stop_with (Ending.failed e) ])
          a
  or_failed a none refusable = lead_pure a tt refl
  or_failed a (some e) refusable = lead_stop a (Ending.failed e) refusable

  pub update_status-LeadsTo :
      (a b : Stage) (s : Status F T)
      → Call k a (Effect.write_status s) b
      → is_refusable b ≡ true
      → LeadsTo k a (update_status r env s) b
  unfolding update_status
  update_status-LeadsTo a b s call refusable =
      lead_call call (or_failed b (env.update_status s) refusable)

  pub cold_path-Leads :
      (key : NamespacedName) (aas : AgenticAutoscaler F T)
      → Leads k Stage.opened (cold_path r env key aas) (λ _ b. is_early b ≡ true)
  unfolding cold_path
  cold_path-Leads key aas =
      lead_when Stage.opened r.has_classifier
        (lead_call (Call.watches aas.key) (
          lead_when Stage.watched _
            (lead_weaken (lead_perform (Call.signals key)) (λ _ _ same. ap is_early same)) refl))
        refl

  -- A pre-check that fails writes a status and warns, or calls nothing.
  halted-Leads :
      {Q : Unit {0} → Stage → Type 0} (a : Stage) (b : Bool) (s : Status F T)
      (token message : String)
      → is_early a ≡ true
      → (s.phase ≡ phase_disabled) ⊎ (s.phase ≡ phase_conflict)
      → Leads k a
          (do
            when b (do update_status r env s; warn r env token message)
            stop_with (requeue_interval r env))
          Q
  unfolding warn requeue_interval
  halted-Leads a b s token message early phase = lead_end (requeue_interval r env) (
      lead_when a b
        (lead_seq Stage.halted
          (update_status-LeadsTo a Stage.halted s (Call.halts a s early phase) refl)
          (lead_weaken (lead_perform (Call.explains_halt _ _)) (λ _ b same. ap is_settled same)))
        (early_settled a early))

  handle_kill_switch-Leads :
      {Q : Unit {0} → Stage → Type 0} (a : Stage) (aas : AgenticAutoscaler F T)
      → is_early a ≡ true
      → Leads k a (handle_kill_switch r env aas) Q
  unfolding handle_kill_switch
  handle_kill_switch-Leads a aas early = halted-Leads a _ _ _ _ early (inl refl)

  handle_conflict-Leads :
      {Q : Unit {0} → Stage → Type 0} (a : Stage) (aas : AgenticAutoscaler F T) (hpa_name : String)
      → is_early a ≡ true
      → Leads k a (handle_conflict r env aas hpa_name) Q
  unfolding handle_conflict
  handle_conflict-Leads a aas hpa_name early = halted-Leads a _ _ _ _ early (inr refl)

  no_conflict :
      (a : Stage) (aas : AgenticAutoscaler F T) (o : Option String)
      → is_early a ≡ true
      → LeadsTo {F = F} {T = T} k a
          (elim o [ none ↦ pure tt | some hpa_name ↦ handle_conflict r env aas hpa_name ])
          a
  no_conflict a aas none early = lead_pure a tt refl
  no_conflict a aas (some hpa_name) early = handle_conflict-Leads a aas hpa_name early

  listed :
      (a : Stage) (aas : AgenticAutoscaler F T) (l : Fallible (List Hpa))
      → is_early a ≡ true
      → LeadsTo {F = F} {T = T} k a
          (elim l [
            | err e ↦ stop_with (Ending.failed e)
            | ok hpas ↦ elim (find_conflicting_hpa aas.spec hpas) [
              | none ↦ pure tt
              | some hpa_name ↦ handle_conflict r env aas hpa_name
            ]
          ])
          a
  listed a aas (err e) early = lead_stop a (Ending.failed e) (early_refusable a early)
  listed a aas (ok hpas) early = no_conflict a aas (find_conflicting_hpa aas.spec hpas) early

  pub pre_checks-LeadsTo :
      (a : Stage) (aas : AgenticAutoscaler F T)
      → is_early a ≡ true
      → LeadsTo k a (pre_checks r env aas) a
  unfolding pre_checks check_conflict
  pre_checks-LeadsTo a aas early =
      lead_seq a (lead_guard a _ (handle_kill_switch-Leads a aas early)) (
        lead_seq a (lead_guard a _ (lead_stop a Ending.done (inr early)))
          (listed a aas env.list_hpas early))

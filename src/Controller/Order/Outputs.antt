-- ===== src/Controller/Order/Outputs.antt =====
-- The state, the patch, the reports and the status, in the order of Controller.Calls.
use agentic_autoscaler.Prelude.{
  ℤ, String, Option, some, none, Bool, true, false, ◌≡◌, refl, if◌then◌else◌, ltb_ℤ,
}
use agentic_autoscaler.Go.Float.{Float64}
use agentic_autoscaler.Go.Time.{GoTime}
use agentic_autoscaler.Api.{NamespacedName, name_key, Status, AgenticAutoscaler, phase_ready}
use agentic_autoscaler.Reasoning
use agentic_autoscaler.Decision.Store.{PerCrState, save}
use agentic_autoscaler.Controller.World.{
  Env, Effect, Ending, ExplainRequest, M, stop_with, perform, ◌>>=◌, ◌>>◌, get_store, put_store,
  when,
}
use agentic_autoscaler.Controller.Decide.{Plan}
use agentic_autoscaler.Controller.Steps.{Reconciler, requeue_interval}
use agentic_autoscaler.Controller.Reconcile.{
  or_panic, refresh_state, patch_scale, announce, explain_request, final_status, carry_out,
}
use agentic_autoscaler.Controller.Calls.{Stage, Call, Call-at, is_planned, is_settled}
use agentic_autoscaler.Controller.Leads.{
  Leads, LeadsTo, lead_seq, lead_perform, lead_call, lead_pure, lead_stop, lead_get, lead_put,
  lead_weaken, lead_and,
}
use agentic_autoscaler.Controller.Order.Early.{update_status-LeadsTo}

module _ {F : Type 0} ⦃f : Float64 F⦄ {T : Type 0} ⦃t : GoTime T⦄ (r : Reconciler F) (env : Env F T)
    (k : NamespacedName) where
  or_panic-LeadsTo :
      (a : Stage) (key : NamespacedName) (o : Option (PerCrState F T))
      → is_planned a ≡ true
      → LeadsTo k a (or_panic r env key o) a
  or_panic-LeadsTo a key none planned = lead_stop a Ending.panicked planned
  or_panic-LeadsTo a key (some state) planned =
      lead_get a (λ s. lead_seq a (lead_put a _) (lead_pure a state refl))

  pub refresh_state-LeadsTo :
      (a : Stage) (key : NamespacedName) (aas : AgenticAutoscaler F T) (rps : F) (replicas : ℤ)
      → is_planned a ≡ true
      → LeadsTo k a (refresh_state r env key aas rps replicas) a
  unfolding refresh_state
  refresh_state-LeadsTo a key aas rps replicas planned =
      lead_get a (λ s. lead_seq a (lead_put a _) (or_panic-LeadsTo a key _ planned))

  patched-LeadsTo :
      (key : NamespacedName) (state : PerCrState F T) (plan : Plan F T) (b : Stage)
      (o : Option String)
      → is_settled b ≡ true
      → LeadsTo k b
          (elim o [
            | some e ↦ stop_with (requeue_interval r env)
            | none ↦ do
              s ← get_store
              put_store (
                  save key
                    (if ltb_ℤ plan.current_replicas plan.cap_out.target
                      then record state { last_scale_up_time = plan.now }
                      else record state { last_scale_down_time = plan.now })
                    s)
          ])
          b
  unfolding requeue_interval
  patched-LeadsTo key state plan b (some e) settled = lead_stop b _ settled
  patched-LeadsTo key state plan b none settled = lead_get b (λ s. lead_put b _)

  -- The patch of a plan that asks for one, and the stage of one that does not.
  abbrev patched_to : Plan F T → Option ℤ
  patched_to plan = if plan.cap_out.should_patch then some plan.cap_out.target else none

  abbrev IsReady : Plan F T → Stage → Type 0
  IsReady plan b =
      (message : String)
      → Call {F = F} {T = T} k b
          (Effect.emit_event "Normal" (Reasoning.pascal_reason plan.cap_out.reason) message)
          (Stage.told plan.cap_out.reason (patched_to plan))

  patch_if :
      (a : Stage) (b : Bool) (n : ℤ) (reason : String) {m : M F T (Unit {0})}
      → is_planned a ≡ true
      → LeadsTo k (Stage.patched n) m (Stage.patched n)
      → Leads k a (when b (perform (Effect.patch_scale n) >> m)) (λ _ c.
        (message : String)
        → Call {F = F} {T = T} k c
            (Effect.emit_event "Normal" (Reasoning.pascal_reason reason) message)
            (Stage.told reason (if b then some n else none)))
  unfolding when
  patch_if a true n reason planned after =
      lead_call (Call.patches a n planned)
        (lead_weaken after (λ _ c same message. Call-at same (Call.tells_patch n reason message)))
  patch_if a false n reason planned after =
      lead_pure a tt (λ message. Call.tells_hold a reason message planned)

  patch_scale-Leads :
      (a : Stage) (key : NamespacedName) (state : PerCrState F T) (plan : Plan F T)
      → is_planned a ≡ true
      → Leads k a (patch_scale r env key state plan) (λ _ b. IsReady plan b)
  unfolding patch_scale
  patch_scale-Leads a key state plan planned =
      patch_if a plan.cap_out.should_patch plan.cap_out.target plan.cap_out.reason planned
        (patched-LeadsTo key state plan _ (env.update_scale plan.cap_out.target) refl)

  -- The status that may be written at a stage, with the count `n`.
  abbrev Reports : ℤ → Stage → Type 0
  Reports n c =
      (s : Status F T)
      → s.phase ≡ phase_ready
      → s.current_replicas ≡ n
      → Call {F = F} {T = T} k c (Effect.write_status s) Stage.closed

  explain_if :
      (b : Bool) (reason : String) (n : ℤ) (q : ExplainRequest F)
      → q.key ≡ k
      → q.reason ≡ reason
      → q.target_replicas ≡ n
      → Leads {F = F} {T = T} k
          (Stage.labelled reason (if b then some n else none))
          (when b (perform (Effect.notify q)))
          (λ _ c. Reports n c)
  unfolding when
  explain_if true reason n q who why count =
      lead_weaken (lead_perform (Call.explains reason n q who why count))
        (λ _ c same s ready counted. Call-at same (Call.writes_patch reason n s ready counted))
  explain_if false reason n q who why count =
      lead_pure (Stage.labelled reason none) tt (λ s ready counted. Call.writes_hold reason s ready)

  announce-Leads :
      (aas : AgenticAutoscaler F T) (plan : Plan F T) (b : Stage)
      → aas.key ≡ k
      → IsReady plan b
      → Leads k b (announce r env aas plan) (λ _ c. Reports plan.cap_out.target c)
  unfolding announce explain_request
  announce-Leads aas plan b same ready = lead_call (ready _) (
      lead_call (Call.counts _ _ _ _ _ _ same) (
        lead_call (Call.labels _ _ _ _ _ same) (
          explain_if plan.cap_out.should_patch plan.cap_out.reason plan.cap_out.target _ same refl
            refl)))

  pub carry_out-Leads :
      {Q : Unit {0} → Stage → Type 0} (a : Stage) (key : NamespacedName)
      (aas : AgenticAutoscaler F T) (state : PerCrState F T) (plan : Plan F T)
      → aas.key ≡ k
      → is_planned a ≡ true
      → Leads k a (carry_out r env key aas state plan) Q
  unfolding carry_out final_status requeue_interval
  carry_out-Leads a key aas state plan same planned =
      lead_and (IsReady plan) (patch_scale-Leads a key state plan planned) (λ b ready.
        lead_and (Reports plan.cap_out.target) (announce-Leads aas plan b same ready) (λ c reports.
          lead_seq Stage.closed
            (update_status-LeadsTo r env k c Stage.closed (final_status r env aas plan)
              (reports _ refl refl) refl)
            (lead_stop Stage.closed (requeue_interval r env) refl)))

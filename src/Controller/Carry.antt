-- ===== src/Controller/Carry.antt =====
-- The steps of a reconcile that change something: the refreshed state, the patch and the status.
use agentic_autoscaler.Prelude.{
  ℤ, pos, some, none, List, [], ◌∷◌, ◌++◌, Bool, true, false, Bool-cases, inl, inr, ◌≡◌, refl, ◌∙◌,
  sym, ap, ltb_ℤ, if◌then◌else◌,
}
use mathlib.Core.Path.{subst}
use mathlib.Core.List.{append_assoc, append-nil}
use agentic_autoscaler.Go.Float.{Float64}
use agentic_autoscaler.Go.Time.{GoTime}
use agentic_autoscaler.Go.Map.{lookup, lookup-insert, equal_refl}
use agentic_autoscaler.Api.{NamespacedName, name_key, Status, AgenticAutoscaler}
use agentic_autoscaler.Adapters.{Sample, RecommendResponse}
use agentic_autoscaler.Decision.Store.{PerCrState, StateStore, get_or_create, save}
use agentic_autoscaler.Controller.World.{
  Deployment, Env, Effect, Ending, Flow, M, World, pure, stop_with, perform, ◌>>=◌, ◌>>◌, get_store,
  put_store, when,
}
use agentic_autoscaler.Controller.Inputs.{deref_or, ring_buffer_capacity}
use agentic_autoscaler.Controller.Decide.{Plan, ensure_initialized, observe}
use agentic_autoscaler.Controller.Steps.{Reconciler, requeue_interval, update_status}
use agentic_autoscaler.Controller.Reconcile.{
  or_panic, refresh_state, patch_scale, final_status, carry_out,
}
use agentic_autoscaler.Controller.Quiet.{patches, statuses, patches-append, statuses-append, after}
use agentic_autoscaler.Controller.Quiet.Steps.{GoesThrough, announce-IsQuiet}

module _ {F T : Type 0} where
  when-true : {b : Bool} (m : M F T (Unit {0})) (w : World F T) → b ≡ true → when b m w ≡ m w
  unfolding when
  when-true m w e = rw e refl

  when-false :
      {b : Bool} (m : M F T (Unit {0})) (w : World F T) → b ≡ false → when b m w ≡ (Flow.next tt, w)
  unfolding when pure
  when-false m w e = rw e refl

  pub next_bind :
      {A B : Type 0} (m : M F T A) (g : A → M F T B) (a : A) (w v : World F T)
      → m w ≡ (Flow.next a, v)
      → (m >>= g) w ≡ g a v
  unfolding ◌>>=◌
  next_bind {B = B} m g a w v e =
      subst
        (λ p.
          elim p.0 as (λ x. Flow B × World F T) [
            | Flow.next c ↦ g c p.1
            | Flow.stop e ↦ (Flow.stop e, p.1)
          ]
          ≡ g a v)
        (sym e) refl

  pub next_seq :
      {B : Type 0} (m : M F T (Unit {0})) (k : M F T B) (w v : World F T)
      → m w ≡ (Flow.next tt, v)
      → (m >> k) w ≡ k v
  unfolding ◌>>◌
  next_seq m k w v e = next_bind m (λ _. k) tt w v e

  pub lookup-save :
      (key : NamespacedName) (st : PerCrState F T) (s : StateStore NamespacedName F T)
      → lookup key (save key st s) ≡ some st
  unfolding save
  lookup-save key st s = rw (lookup-insert key key st s, equal_refl key) refl

  -- The state after the reconcile: the time of a scale event is the time of the decision.
  abbrev pub stamped : Plan F T → PerCrState F T → PerCrState F T
  stamped plan st =
      if plan.cap_out.should_patch
      then if ltb_ℤ plan.current_replicas plan.cap_out.target
        then record st { last_scale_up_time = plan.now }
        else record st { last_scale_down_time = plan.now }
      else st

module _ {F : Type 0} ⦃f : Float64 F⦄ {T : Type 0} ⦃t : GoTime T⦄ (r : Reconciler F)
    (env : Env F T) where
  abbrev pub IsRefreshed :
      AgenticAutoscaler F T
      → F
      → Deployment
      → StateStore NamespacedName F T
      → NamespacedName
      → PerCrState F T
      → Type 0
  IsRefreshed aas current_rps deploy s key st =
      observe r.config current_rps (deref_or deploy.replicas (pos 1)) env.now_decision
        (ensure_initialized aas (get_or_create s key ring_buffer_capacity).0)
      ≡ some st

  pub refresh_state_lem :
      (aas : AgenticAutoscaler F T) (current_rps : F) (deploy : Deployment) (key : NamespacedName)
      (st : PerCrState F T) (w : World F T)
      → IsRefreshed aas current_rps deploy w.store key st
      → (s : StateStore NamespacedName F T) × (refresh_state r env key aas current_rps
            (deref_or deploy.replicas (pos 1))
            w
          ≡ (Flow.next st, record w { store = save key st s }))
  unfolding refresh_state ◌>>=◌ ◌>>◌ get_store put_store pure
  refresh_state_lem aas current_rps deploy key st w seen =
      let made = get_or_create w.store key ring_buffer_capacity in
      let begun = save key (ensure_initialized aas made.0) made.1 in
      (
        begun,
        subst
            (λ o.
              or_panic r env key o (record w { store = begun })
              ≡ (Flow.next st, record w { store = save key st begun }))
            (sym seen) refl,
      )

  -- The step ends the reconcile with a requeue, with this state stored, and these calls.
  pub record Ends (aas : AgenticAutoscaler F T) (key : NamespacedName) (st : PerCrState F T)
      (plan : Plan F T) (w : World F T) (out : Flow (Unit {0}) × World F T) : Type 0 where
    pub calls : List (Effect F T)
    pub ends : out.0 ≡ Flow.stop (Ending.requeue r.config.reconcile_interval)
    pub stored : lookup key out.1.store ≡ some (stamped plan st)
    pub effects : out.1.effects ≡ w.effects ++ calls
    pub patched :
        patches calls ≡ (if plan.cap_out.should_patch then plan.cap_out.target ∷ [] else [])
    pub status : statuses calls ≡ final_status r env aas plan ∷ []

  -- The patch leaves the stamped state, and is the only call.
  record IsPatched (key : NamespacedName) (st : PerCrState F T) (plan : Plan F T) (w : World F T)
      : Type 0 where
    store : StateStore NamespacedName F T
    pub calls : List (Effect F T)
    answers :
        patch_scale r env key st plan w
        ≡ (Flow.next tt, record w { store = store; effects = w.effects ++ calls })
    held : lookup key store ≡ some (stamped plan st)
    pub patched :
        patches calls ≡ (if plan.cap_out.should_patch then plan.cap_out.target ∷ [] else [])
    no_status : statuses calls ≡ []

  module _ {aas : AgenticAutoscaler F T} {current_rps : F} {samples : List (Sample F T)}
      {response : RecommendResponse F} {deploy : Deployment}
      (h : GoesThrough r env aas current_rps samples response deploy) where
    stamp_lem :
        (key : NamespacedName) (after : PerCrState F T) (n : ℤ) (w : World F T)
        → (perform (Effect.patch_scale n) >> elim (env.update_scale n) as (λ o. M F T (Unit {0})) [
          | some e ↦ stop_with (requeue_interval r env)
          | none ↦ do s ← get_store; put_store (save key after s)
        ])
            w
          ≡ (
            Flow.next tt,
            record w {
              store = save key after w.store;
              effects = w.effects ++ (Effect.patch_scale n ∷ []);
            },
          )
    unfolding perform ◌>>=◌ ◌>>◌ get_store put_store
    stamp_lem key after n w =
        subst
          (λ o.
            (elim o as (λ o. M F T (Unit {0})) [
              | some e ↦ stop_with (requeue_interval r env)
              | none ↦ do s ← get_store; put_store (save key after s)
            ])
              (record w { effects = w.effects ++ (Effect.patch_scale n ∷ []) })
            ≡ (
              Flow.next tt,
              record w {
                store = save key after w.store;
                effects = w.effects ++ (Effect.patch_scale n ∷ []);
              },
            ))
          (sym (h.scaled n)) refl

    patch_scale-IsPatched :
        (key : NamespacedName) (st : PerCrState F T) (plan : Plan F T) (w : World F T)
        → lookup key w.store ≡ some st
        → IsPatched key st plan w
    unfolding patch_scale
    patch_scale-IsPatched key st plan w held = elim (Bool-cases plan.cap_out.should_patch) [
      | inl moves ↦
          let after : PerCrState F T =
            if ltb_ℤ plan.current_replicas plan.cap_out.target
            then record st { last_scale_up_time = plan.now }
            else record st { last_scale_down_time = plan.now } in
          record {
            store = save key after w.store;
            calls = Effect.patch_scale plan.cap_out.target ∷ [];
            answers = when-true _ w moves ∙ stamp_lem key after plan.cap_out.target w;
            held = lookup-save key after w.store ∙ rw moves refl;
            patched = rw moves refl;
            no_status = refl;
          }
      | inr stays ↦ record {
        store = w.store;
        calls = [];
        answers = when-false _ w stays ∙ rw append-nil refl;
        held = held ∙ rw stays refl;
        patched = rw stays refl;
        no_status = refl;
      }
    ]

    update_status_lem :
        (s : Status F T) (w : World F T)
        → update_status r env s w
          ≡ (Flow.next tt, record w { effects = w.effects ++ (Effect.write_status s ∷ []) })
    unfolding update_status perform ◌>>=◌ ◌>>◌ pure
    update_status_lem s w =
        subst
          (λ o.
            (elim o as (λ o. M F T (Unit {0})) [
              | none ↦ pure tt
              | some e ↦ stop_with (Ending.failed e)
            ])
              (record w { effects = w.effects ++ (Effect.write_status s ∷ []) })
            ≡ (Flow.next tt, record w { effects = w.effects ++ (Effect.write_status s ∷ []) }))
          (sym (h.written s)) refl

    pub carry_out-Ends :
        (key : NamespacedName) (st : PerCrState F T) (plan : Plan F T) (w : World F T)
        → lookup key w.store ≡ some st
        → Ends aas key st plan w (carry_out r env key aas st plan w)
    unfolding carry_out requeue_interval stop_with
    carry_out-Ends key st plan w held =
        let done = patch_scale-IsPatched key st plan w held in
        let told = announce-IsQuiet r env aas plan in
        let status = final_status r env aas plan in
        let patched : World F T = record w {
          store = done.store;
          effects = w.effects ++ done.calls;
        } in
        let announced : World F T = record patched { effects = patched.effects ++ told.added } in
        let whole : carry_out r env key aas st plan w ≡ (
          Flow.stop (Ending.requeue r.config.reconcile_interval),
          record announced { effects = announced.effects ++ (Effect.write_status status ∷ []) },
        ) =
          next_seq _ _ w patched done.answers
          ∙ (next_seq _ _ patched announced (told.answers patched)
              ∙ next_seq _ _ announced _ (update_status_lem status announced)) in
        record {
          calls = done.calls ++ (told.added ++ (Effect.write_status status ∷ []));
          ends = ap (λ p. p.0) whole;
          stored = ap (λ p. lookup key p.1.store) whole ∙ done.held;
          effects = ap (λ p. p.1.effects) whole ∙ rw (append_assoc, append_assoc) refl;
          patched =
              patches-append done.calls _
              ∙ rw (done.patched, patches-append told.added, told.no_patch, append-nil) refl;
          status =
              statuses-append done.calls _
              ∙ rw (done.no_status, statuses-append told.added, told.no_status) refl;
        }

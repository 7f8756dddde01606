-- ===== src/Controller/Calls.antt =====
-- The order in which a reconcile may call out, as a step relation that knows nothing of the code: what
-- may follow what, and what the calls agree on.
use agentic_autoscaler.Prelude.{
  ℤ, String, Option, some, none, List, [], ◌∷◌, ◌++◌, Bool, true, false, ◌≡◌, ◌⊎◌, refl, sym,
}
use mathlib.Core.Path.{subst}
use agentic_autoscaler.Api.{NamespacedName, Status, phase_ready, phase_disabled, phase_conflict}
use agentic_autoscaler.Adapters.{RecommendRequest}
use agentic_autoscaler.Reasoning
use agentic_autoscaler.Controller.World.{Effect, Ending, ExplainRequest}

-- How far a reconcile has come. From `told` on, the reason of the decision, and the patched count if
-- there was a patch.
pub data Stage : Type 0 where
  opened watched signalled halted measured ranged asked seen blind unforecast closed : Stage
  patched : ℤ → Stage
  told counted labelled : String → Option ℤ → Stage
  explained : String → ℤ → Stage

-- Before the pre-checks have passed.
abbrev pub is_early : Stage → Bool
is_early Stage.opened = true
is_early Stage.watched = true
is_early Stage.signalled = true
is_early _ = false

-- With the forecast and the Deployment.
abbrev pub is_planned : Stage → Bool
is_planned Stage.asked = true
is_planned Stage.seen = true
is_planned _ = false

module _ {F T : Type 0} (k : NamespacedName) where
  -- What a reconcile of the resource `k` may call at a stage, and the stage after it.
  pub data Call : Stage → Effect F T → Stage → Type 0 where
    -- the resource is gone
    stops : (key : NamespacedName) → Call Stage.opened (Effect.stop_worker key) Stage.closed
    -- the cold path
    watches : (key : NamespacedName) → Call Stage.opened (Effect.ensure_worker key) Stage.watched
    signals :
        (key : NamespacedName) → Call Stage.watched (Effect.signal_reclassify key) Stage.signalled
    -- a pre-check fails
    halts :
        (a : Stage) (s : Status F T)
        → is_early a ≡ true
        → (s.phase ≡ phase_disabled) ⊎ (s.phase ≡ phase_conflict)
        → Call a (Effect.write_status s) Stage.halted
    explains_halt :
        (reason message : String)
        → Call Stage.halted (Effect.emit_event "Warning" reason message) Stage.closed
    -- the metrics
    measures :
        (a : Stage) (q : String)
        → is_early a ≡ true
        → Call a (Effect.query_instant q) Stage.measured
    ranges :
        (q : String) (from to : T) (step : ℤ)
        → Call Stage.measured (Effect.query_range q from to step) Stage.ranged
    loses_rate :
        (reason message : String)
        → Call Stage.measured (Effect.emit_event "Warning" reason message) Stage.blind
    loses_history :
        (reason message : String)
        → Call Stage.ranged (Effect.emit_event "Warning" reason message) Stage.blind
    counts_outage :
        (key : NamespacedName)
        → key ≡ k
        → Call Stage.blind (Effect.observe_metrics_unavailable key) Stage.closed
    -- the forecast
    asks : (q : RecommendRequest F) → Call Stage.ranged (Effect.ask_forecast q) Stage.asked
    loses_forecast :
        (reason message : String)
        → Call Stage.asked (Effect.emit_event "Warning" reason message) Stage.unforecast
    counts_failure :
        (key : NamespacedName)
        → key ≡ k
        → Call Stage.unforecast (Effect.observe_forecast_failure key) Stage.closed
    sees :
        (key : NamespacedName) (revision : String)
        → Call Stage.asked (Effect.observe_revision key revision) Stage.seen
    -- the decision: one reason for the event, the metrics and the explainer, and one count for the
    -- patch, the explainer and the status
    patches :
        (a : Stage) (n : ℤ) → is_planned a ≡ true → Call a (Effect.patch_scale n) (Stage.patched n)
    tells_hold :
        (a : Stage) (reason message : String)
        → is_planned a ≡ true
        → Call a
            (Effect.emit_event "Normal" (Reasoning.pascal_reason reason) message)
            (Stage.told reason none)
    tells_patch :
        (n : ℤ) (reason message : String)
        → Call
            (Stage.patched n)
            (Effect.emit_event "Normal" (Reasoning.pascal_reason reason) message)
            (Stage.told reason (some n))
    counts :
        (key : NamespacedName) (reason : String) (o : Option ℤ) (current predicted per_pod : F)
        → key ≡ k
        → Call
            (Stage.told reason o)
            (Effect.observe_reconcile key reason current predicted per_pod)
            (Stage.counted reason o)
    labels :
        (key : NamespacedName) (reason : String) (o : Option ℤ) (label confidence : String)
        → key ≡ k
        → Call
            (Stage.counted reason o)
            (Effect.observe_classification key label confidence)
            (Stage.labelled reason o)
    explains :
        (reason : String) (n : ℤ) (q : ExplainRequest F)
        → q.key ≡ k
        → q.reason ≡ reason
        → q.target_replicas ≡ n
        → Call (Stage.labelled reason (some n)) (Effect.notify q) (Stage.explained reason n)
    writes_hold :
        (reason : String) (s : Status F T)
        → s.phase ≡ phase_ready
        → Call (Stage.labelled reason none) (Effect.write_status s) Stage.closed
    writes_patch :
        (reason : String) (n : ℤ) (s : Status F T)
        → s.phase ≡ phase_ready
        → s.current_replicas ≡ n
        → Call (Stage.explained reason n) (Effect.write_status s) Stage.closed

module _ {F T : Type 0} where
  pub Call-at :
      {k : NamespacedName} {a b c : Stage} {e : Effect F T} → a ≡ b → Call k b e c → Call k a e c
  Call-at {k = k} {c = c} {e = e} same call = subst (λ x. Call k x e c) (sym same) call

  -- The calls lead from one stage to another.
  abbrev pub Follows : NamespacedName → Stage → List (Effect F T) → Stage → Type 0
  Follows k a [] c = a ≡ c
  Follows k a (e ∷ es) c = (b : Stage) × Call k a e b × Follows k b es c

  pub Follows-snoc :
      (k : NamespacedName) (a b c : Stage) (es : List (Effect F T)) (e : Effect F T)
      → Follows k a es b
      → Call k b e c
      → Follows k a (es ++ e ∷ []) c
  Follows-snoc k a b c [] e same call = (c, Call-at same call, refl)
  Follows-snoc k a b c (x ∷ es) e (d, first, rest) call =
      (d, first, Follows-snoc k d b c es e rest call)

-- The stages at which a reconcile may ask for another one: all is told, or nothing was due, or the
-- Deployment was not read, or its patch failed.
abbrev pub is_settled : Stage → Bool
is_settled Stage.closed = true
is_settled Stage.asked = true
is_settled (Stage.patched n) = true
is_settled a = is_early a

-- The stages at which a call to the API server may have failed.
abbrev pub is_refusable : Stage → Bool
is_refusable Stage.halted = true
is_refusable Stage.closed = true
is_refusable a = is_early a

-- How a reconcile may end at a stage.
abbrev pub Finishes : Ending → Stage → Type 0
Finishes Ending.done b = (b ≡ Stage.closed) ⊎ (is_early b ≡ true)
Finishes (Ending.requeue d) b = is_settled b ≡ true
Finishes (Ending.failed e) b = is_refusable b ≡ true
Finishes Ending.panicked b = is_planned b ≡ true

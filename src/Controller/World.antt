-- ===== src/Controller/World.antt =====
-- What one reconcile reads from outside, what it changes, and the monad that threads both:
-- a step continues with a value or ends the reconcile, and what was done stays done.
use agentic_autoscaler.Prelude.{ℤ, String, Option, List, [], ◌∷◌, ◌++◌, Bool}
use agentic_autoscaler.Go.Map.{Map}
use agentic_autoscaler.Api.{NamespacedName, TargetRef, Status, AgenticAutoscaler}
use agentic_autoscaler.Adapters.{Fallible, Sample, RecommendRequest, RecommendResponse}
use agentic_autoscaler.Decision.Store.{StateStore}

-- interfaces.go: what the ExplainWorker is told of a scaling event.
pub record ExplainRequest {ℓ} (F : Type ℓ) : Type ℓ where
  pub key : NamespacedName
  pub reason : String
  pub current_replicas : ℤ
  pub recommended_replicas : ℤ
  pub target_replicas : ℤ
  pub current_rps : F
  pub predicted_rps : F
  pub horizon_minutes : ℤ
  pub model_used : String
  pub pattern_name : String
  pub confidence : String
  pub effective_cooldown_up : ℤ
  pub effective_cooldown_down : ℤ
  pub effective_max_step : ℤ
  pub unbounded_recommended : ℤ
  pub max_replicas : ℤ
  pub min_replicas : ℤ
  pub baseline_rps : ℤ
  pub peak_p95_rps : ℤ
  pub hourly_profile_valid : Bool

pub record Hpa : Type 0 where
  pub name : String
  pub target_ref : TargetRef

pub record Deployment : Type 0 where
  pub annotations : Map String String
  pub replicas : Option ℤ

-- The answer of the API server to a Get of the resource.
pub data Fetched {ℓ} (A : Type ℓ) : Type ℓ where
  found : A → Fetched A
  not_found : Fetched A
  failed : String → Fetched A

-- The calls that leave the process, and the calls of the classifier manager, in their order. A
-- write to the API server is recorded also where the server refuses it.
pub data Effect {ℓ κ} (F : Type ℓ) (T : Type κ) : Type (ℓ ⊔ κ) where
  ensure_worker : NamespacedName → Effect F T
  stop_worker : NamespacedName → Effect F T
  signal_reclassify : NamespacedName → Effect F T
  observe_revision : NamespacedName → String → Effect F T
  query_instant : String → Effect F T
  query_range : String → T → T → ℤ → Effect F T
  ask_forecast : RecommendRequest F → Effect F T
  patch_scale : ℤ → Effect F T
  write_status : Status F T → Effect F T
  emit_event : String → String → String → Effect F T
  notify : ExplainRequest F → Effect F T
  observe_reconcile : NamespacedName → String → F → F → F → Effect F T
  observe_classification : NamespacedName → String → String → Effect F T
  observe_forecast_failure : NamespacedName → Effect F T
  observe_metrics_unavailable : NamespacedName → Effect F T

-- The outside world during one reconcile: the answers to its calls, and the clock at its three reads.
pub record Env {ℓ κ} (F : Type ℓ) (T : Type κ) : Type (ℓ ⊔ κ) where
  pub get_resource : Fetched (AgenticAutoscaler F T)
  pub list_hpas : Fallible (List Hpa)
  pub instant_query : String → Fallible F
  pub range_query : String → T → T → ℤ → Fallible (List (Sample F T))
  pub recommend : RecommendRequest F → Fallible (RecommendResponse F)
  pub get_deployment : Fallible Deployment
  -- the error of an update, if it fails
  pub update_scale : ℤ → Option String
  pub update_status : Status F T → Option String
  pub now_history : T
  pub now_context : T
  pub now_decision : T

-- fmt's %d, %.1f and %q, and NamespacedName.String().
pub record Formats {ℓ} (F : Type ℓ) : Type ℓ where
  pub int : ℤ → String
  pub fixed1 : F → String
  pub quoted : String → String
  pub key_text : NamespacedName → String

-- How a reconcile ends: Result{} without an error, a requeue, an error, or a panic.
pub data Ending : Type 0 where
  done : Ending
  requeue : ℤ → Ending
  failed : String → Ending
  panicked : Ending

pub data Flow {ℓ} (A : Type ℓ) : Type ℓ where
  next : A → Flow A
  stop : Ending → Flow A

pub record World {ℓ κ} (F : Type ℓ) (T : Type κ) : Type (ℓ ⊔ κ) where
  pub store : StateStore NamespacedName F T
  pub effects : List (Effect F T)

abbrev pub M {ℓ κ ι} : Type ℓ → Type κ → Type ι → Type (ℓ ⊔ κ ⊔ ι)
M F T A = World F T → Flow A × World F T

module _ {ℓ κ} {F : Type ℓ} {T : Type κ} where
  unfoldable pub pure {ι} : {A : Type ι} → A → M F T A
  pure a w = (Flow.next a, w)

  unfoldable pub stop_with {ι} : {A : Type ι} → Ending → M F T A
  stop_with e w = (Flow.stop e, w)

  unfoldable pub perform : Effect F T → M F T (Unit {0})
  perform e w = (Flow.next tt, record w { effects = w.effects ++ (e ∷ []) })

  infixl 5 ◌>>=◌ ◌>>◌
  unfoldable pub ◌>>=◌ {ι ο} : {A : Type ι} {B : Type ο} → M F T A → (A → M F T B) → M F T B
  ◌>>=◌ m g w =
      let (r, w') = m w in elim r [ Flow.next a ↦ g a w' | Flow.stop e ↦ (Flow.stop e, w') ]

  unfoldable pub ◌>>◌ {ι} : {B : Type ι} → M F T (Unit {0}) → M F T B → M F T B
  unfolding ◌>>=◌
  m >> k = m >>= λ _. k

  unfoldable pub get_store : M F T (StateStore NamespacedName F T)
  get_store w = (Flow.next w.store, w)

  unfoldable pub put_store : StateStore NamespacedName F T → M F T (Unit {0})
  put_store s w = (Flow.next tt, record w { store = s })

  unfoldable pub when : Bool → M F T (Unit {0}) → M F T (Unit {0})
  unfolding pure
  when b m = elim b [ Bool.true ↦ m | Bool.false ↦ pure tt ]

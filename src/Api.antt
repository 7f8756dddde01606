-- ===== src/Api.antt =====
-- api/v1alpha1/agenticautoscaler_types.go: the resource, as far as the controller reads and writes it.
-- An optional field, a pointer, is an Option. `F` is float64 and `T` is time.Time.
use agentic_autoscaler.Prelude.{
  ℤ, String, Option, List, Bool, ◌&&◌, str_eq, str_eq_iff, MapKey, ◌≡◌, ◌↔◌, true, arith,
}
use agentic_autoscaler.Go.Map.{Map}

-- types.NamespacedName
pub record NamespacedName : Type 0 where
  pub namespace : String
  pub name : String

abbrev pub same_name : NamespacedName → NamespacedName → Bool
same_name a b = str_eq a.namespace b.namespace && str_eq a.name b.name

pub same_name_iff : (a b : NamespacedName) → (same_name a b ≡ true) ↔ (a ≡ b)
same_name_iff a b = ground (arith, str_eq_iff a.namespace b.namespace, str_eq_iff a.name b.name)

instance abbrev pub name_key : MapKey NamespacedName
name_key = record { equal = same_name; equal_iff = same_name_iff }

pub record TargetRef : Type 0 where
  pub api_version : String
  pub kind : String
  pub name : String

pub record Spec : Type 0 where
  pub target_ref : TargetRef
  pub min_replicas : Option ℤ
  pub max_replicas : Option ℤ
  pub rps_per_pod_min : Option ℤ
  pub rps_per_pod_max : Option ℤ
  pub max_step_size : Option ℤ
  pub scale_up_cooldown_seconds : Option ℤ
  pub scale_down_cooldown_seconds : Option ℤ
  pub preferred_forecaster : Option String

pub record ContextFields {ℓ} (F : Type ℓ) : Type ℓ where
  pub baseline_rps : ℤ
  pub peak_p95_rps : ℤ
  pub trend24h_slope : F
  pub hourly_profile : List ℤ
  pub hourly_profile_valid : Bool

pub record ClassifiedParams {ℓ κ} (F : Type ℓ) (T : Type κ) : Type (ℓ ⊔ κ) where
  pub pattern_name : String
  pub scale_up_cooldown_seconds : ℤ
  pub scale_down_cooldown_seconds : ℤ
  pub max_step_size : ℤ
  pub preferred_forecaster : String
  pub classified_at : T
  pub history_points : ℤ
  pub confidence : String
  pub context : Option (ContextFields F)

abbrev pub phase_ready : String
phase_ready = "Ready"

abbrev pub phase_disabled : String
phase_disabled = "Disabled"

abbrev pub phase_conflict : String
phase_conflict = "Conflict"

pub record Status {ℓ κ} (F : Type ℓ) (T : Type κ) : Type (ℓ ⊔ κ) where
  pub phase : String
  pub conflict_reason : String
  pub current_replicas : ℤ
  pub recommended_replicas : ℤ
  pub unbounded_recommended : ℤ
  pub predicted_rps : ℤ
  pub rps_per_pod_current : ℤ
  pub last_scale_time : Option T
  pub classified_params : Option (ClassifiedParams F T)

-- The resource with the metadata that the controller reads; `being_deleted` says that
-- DeletionTimestamp is set.
pub record AgenticAutoscaler {ℓ κ} (F : Type ℓ) (T : Type κ) : Type (ℓ ⊔ κ) where
  pub key : NamespacedName
  pub annotations : Map String String
  pub being_deleted : Bool
  pub spec : Spec
  pub status : Status F T

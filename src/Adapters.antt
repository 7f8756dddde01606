-- ===== src/Adapters.antt =====
-- internal/adapters: the data that the clients exchange with Prometheus and the Forecast Service.
pub mod Http
pub mod Ollama
pub mod Forecast
pub mod Prometheus
use agentic_autoscaler.Prelude.{ℤ, String, List, Bool, Option}

-- An operation that may fail, with the text of its error.
pub data Fallible {ℓ} (A : Type ℓ) : Type ℓ where
  ok : A → Fallible A
  err : String → Fallible A

pub record Sample {ℓ κ} (F : Type ℓ) (T : Type κ) : Type (ℓ ⊔ κ) where
  pub timestamp : T
  pub value : F

pub record ContextPayload {ℓ} (F : Type ℓ) : Type ℓ where
  pub baseline_rps : ℤ
  pub peak_p95_rps : ℤ
  pub trend24h_slope : F
  pub hourly_profile : List ℤ
  pub hourly_profile_valid : Bool
  pub current_hour_utc : ℤ
  pub current_minute_utc : ℤ

pub record RecommendRequest {ℓ} (F : Type ℓ) : Type ℓ where
  pub rps_history : List F
  pub workload_id : String
  pub preferred_model : String
  pub context : Option (ContextPayload F)

pub record RecommendResponse {ℓ} (F : Type ℓ) : Type ℓ where
  pub predicted_rps : F
  pub horizon_minutes : ℤ
  pub model_used : String

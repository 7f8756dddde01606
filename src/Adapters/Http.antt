-- ===== src/Adapters/Http.antt =====
-- What the clients of internal/adapters see of an HTTP exchange: net/http and encoding/json are parameters.
use agentic_autoscaler.Prelude.{ℕ, ◌/◌, String, Bool, not, eqb, if◌then◌else◌}
use agentic_autoscaler.Adapters.{Fallible, err}

-- A request that is not sent or not answered, with the error; an answer, with its status code and its
-- body, which may fail to decode.
pub data Exchange {ℓ} (B : Type ℓ) : Type ℓ where
  unanswered : String → Exchange B
  answered : ℕ → Fallible B → Exchange B

-- A decoded JSON value of the Go type `any`.
pub data Json {ℓ} (F : Type ℓ) : Type ℓ where
  number : F → Json F
  text : String → Json F
  other : Json F

-- resp.StatusCode/100 != 2
unfoldable pub is_refused : ℕ → Bool
is_refused code = not (eqb (code / 100) 2)

-- The decoded body of an answer with a status of 200 to 299.
unfoldable pub body_of {ℓ} : {B : Type ℓ} → Exchange B → Fallible B
unfolding is_refused
body_of (unanswered e) = err e
body_of (answered code body) = if is_refused code then err "HTTP status" else body

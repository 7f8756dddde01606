-- ===== src/Adapters/Ollama.antt =====
-- internal/adapters/ollama: the chat request, and what Chat makes of the answer.
use agentic_autoscaler.Prelude.{ℕ, ℤ, String, List, [], ◌∷◌, Bool, false, eqb, if◌then◌else◌}
use agentic_autoscaler.Adapters.{Fallible, ok, err}
use agentic_autoscaler.Adapters.Http.{is_refused}

-- A text that is cut is its list of bytes.
abbrev pub Bytes : Type 0
Bytes = List ℕ

pub record ChatMessage : Type 0 where
  pub role : String
  pub content : String

pub record ChatRequest : Type 0 where
  pub model : String
  pub messages : List ChatMessage
  pub max_tokens : ℤ
  pub stream : Bool

-- The errors that a caller tells apart: the two of errors.go, a refused connection, and the others.
pub data ChatError : Type 0 where
  model_not_found empty_response connection_refused : ChatError
  other_error : String → ChatError

pub data Chatted : Type 0 where
  said : Bytes → Chatted
  failed : ChatError → Chatted

-- The contents of the choices of a decoded answer; or how the request failed.
pub data ChatExchange : Type 0 where
  unsent : ChatError → ChatExchange
  answered : ℕ → Fallible (List Bytes) → ChatExchange

abbrev pub status_not_found : ℕ
status_not_found = 404

unfoldable pub first_choice : List Bytes → Chatted
first_choice [] = Chatted.failed ChatError.empty_response
first_choice ([] ∷ rest) = Chatted.failed ChatError.empty_response
first_choice ((b ∷ bs) ∷ rest) = Chatted.said (b ∷ bs)

-- `send` answers the request.
unfoldable pub chat : (ChatRequest → ChatExchange) → ChatRequest → Chatted
unfolding first_choice is_refused
chat send req = elim (send (record req { stream = false })) [
  | unsent e ↦ Chatted.failed e
  | answered code body ↦
      if eqb code status_not_found
      then Chatted.failed ChatError.model_not_found
      else if is_refused code
      then Chatted.failed (ChatError.other_error "HTTP status")
      else elim body [
        | err e ↦ Chatted.failed (ChatError.other_error e)
        | ok choices ↦ first_choice choices
      ]
]

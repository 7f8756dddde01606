-- ===== src/Explainer/Worker.antt =====
-- internal/explainer/worker.go: the worker that asks for explanations and reports them as Events.
use agentic_autoscaler.Prelude.{ℤ, String, List, [], ◌∷◌, ◌++◌, Bool, false, ascii, if◌then◌else◌}
use agentic_autoscaler.Reasoning
use agentic_autoscaler.Api.{NamespacedName}
use agentic_autoscaler.Adapters.Ollama.{Bytes, ChatRequest, ChatError, Chatted}
use agentic_autoscaler.Controller.World.{ExplainRequest, Formats}
use agentic_autoscaler.Explainer.{build_prompt, trim_content, max_event_length}

pub record WorkerConfig : Type 0 where
  pub model : String
  pub max_tokens : ℤ
  pub timeout : ℤ

-- What stays the same while the worker runs. `has_sinks` says that neither the recorder nor the client
-- is nil.
pub record Setup {ℓ} (F : Type ℓ) : Type ℓ where
  pub config : WorkerConfig
  pub has_sinks : Bool
  pub formats : Formats F

-- The outside world during one request: Chat returns or panics, and the resource is there or not.
pub data Reply : Type 0 where
  returns : Chatted → Reply
  panics : Reply

pub record Answers : Type 0 where
  pub chat : ChatRequest → Reply
  pub get_resource : Bool

pub data Level : Type 0 where
  info error : Level

-- An Event on a resource: its reason and the bytes of its message.
pub record Explained : Type 0 where
  pub key : NamespacedName
  pub reason : String
  pub body : Bytes

pub record Done : Type 0 where
  pub asked : List ChatRequest
  pub logged : List Level
  pub events : List Explained

unfoldable pub log_ollama_err : ChatError → Level
log_ollama_err ChatError.model_not_found = Level.info
log_ollama_err ChatError.empty_response = Level.info
log_ollama_err ChatError.connection_refused = Level.info
log_ollama_err (ChatError.other_error e) = Level.error

abbrev pub logged : Level → Done → Done
logged level d = record d { logged = d.logged ++ (level ∷ []) }

-- reasoning.ScaleExplained + " "
abbrev pub prefix : Bytes
prefix = ascii "scale_explained "

-- What the select of Run finds: a request, a closed channel, or the end of the context.
pub data Turn {ℓ} (F : Type ℓ) : Type ℓ where
  received : Answers → ExplainRequest F → Turn F
  closed cancelled : Turn F

module _ {ℓ} {F : Type ℓ} where
  unfoldable pub emit_event : Setup F → Bool → ExplainRequest F → Bytes → Done → Done
  unfolding trim_content
  emit_event s there req message d =
      if s.has_sinks
      then if there
        then record d {
          events =
              d.events
              ++ (record {
                key = req.key;
                reason = Reasoning.pascal_reason Reasoning.scale_explained;
                body = trim_content (prefix ++ message) max_event_length;
              }
                  ∷ []);
        }
        else d
      else d

  abbrev pub chat_request : Setup F → ExplainRequest F → ChatRequest
  chat_request s req =
      let (sys, user) = build_prompt s.formats req in
      record {
        model = s.config.model;
        messages =
            record { role = "system"; content = sys }
            ∷ record { role = "user"; content = user }
            ∷ [];
        max_tokens = s.config.max_tokens;
        stream = false;
      }

  -- What follows the answer of Chat. A trimmed text is empty only where the text is.
  unfoldable pub report : Setup F → Bool → ExplainRequest F → Reply → Done → Done
  unfolding emit_event trim_content log_ollama_err
  report s there req panics d = logged Level.error d
  report s there req (returns (Chatted.failed e)) d = logged (log_ollama_err e) d
  report s there req (returns (Chatted.said content)) d =
      elim (trim_content content max_event_length) [
        | [] ↦ logged Level.info d
        | b ∷ bs ↦ emit_event s there req (b ∷ bs) d
      ]

  unfoldable pub handle_request : Setup F → Answers → ExplainRequest F → Done → Done
  unfolding report build_prompt
  handle_request s a req d =
      let ask = chat_request s req in
      report s a.get_resource req (a.chat ask) (record d { asked = d.asked ++ (ask ∷ []) })

  -- Run, over what its select finds in turn; it stops at the first turn that is no request.
  unfoldable pub run_turns : Setup F → List (Turn F) → Done → Done
  unfolding handle_request
  run_turns s [] d = d
  run_turns s (Turn.received a req ∷ turns) d = run_turns s turns (handle_request s a req d)
  run_turns s (_ ∷ turns) d = d

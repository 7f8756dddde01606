-- ===== src/Explainer/Reports.antt =====
-- The Events that the explainer's worker records.
use agentic_autoscaler.Prelude.{
  suc, Bool, ℕ, ◌+◌, ◌≤◌, List, [], ◌∷◌, ◌++◌, length, All, All-append, length-append, take, leb,
  ◌≡◌, refl, sym, ◌∙◌, ap, true, false, Bool-cases, inl, inr, arith, if◌then◌else◌,
}
use mathlib.Core.List.{append_assoc, append-nil}
use agentic_autoscaler.Reasoning
use agentic_autoscaler.Adapters.Ollama.{Bytes, Chatted}
use agentic_autoscaler.Controller.World.{ExplainRequest}
use agentic_autoscaler.Explainer.{trim_content, max_event_length}
use agentic_autoscaler.Explainer.Answers.{length-trim_content}
use agentic_autoscaler.Explainer.Worker.{
  Setup, Answers, Reply, returns, panics, Explained, Done, Turn, prefix, emit_event, report,
  handle_request, run_turns, chat_request, logged, Level, log_ollama_err,
}

-- An Event of this worker: of its reason, at most 500 bytes, which start with the token and a blank.
abbrev pub IsReport : Explained → Type 0
IsReport e = (e.reason ≡ "ScaleExplained") × (length e.body ≤ 500) × (take 16 e.body ≡ prefix)

-- From `before` to `after`, at most `n` Events are added, each a report, and none is lost.
abbrev pub Adds : ℕ → Done → Done → Type 0
Adds n before after =
    (new : List Explained) × (after.events ≡ before.events ++ new)
    × All IsReport new
    × (length new ≤ n)

trimmed-prefix :
    (message : Bytes) → take 16 (trim_content (prefix ++ message) max_event_length) ≡ prefix
unfolding trim_content
trimmed-prefix message = elim (Bool-cases (leb (length (prefix ++ message)) max_event_length)) [
  | inl fits ↦ rw fits refl
  | inr long ↦ rw long refl
]

trimmed-length :
    (message : Bytes) → length (trim_content (prefix ++ message) max_event_length) ≤ 500
trimmed-length message =
    ground (arith, (length-trim_content (prefix ++ message) max_event_length).0)

nothing : (d after : Done) (n : ℕ) → after.events ≡ d.events → Adds n d after
nothing d after n same = ([], same ∙ sym (append-nil d.events), tt, omega arith)

module _ {ℓ} {F : Type ℓ} (s : Setup F) where
  abbrev explained : ExplainRequest F → Bytes → Explained
  explained req message = record {
    key = req.key;
    reason = Reasoning.pascal_reason Reasoning.scale_explained;
    body = trim_content (prefix ++ message) max_event_length;
  }

  emit_event-Adds :
      (there : Bool) (req : ExplainRequest F) (message : Bytes) (d : Done)
      → Adds 1 d (emit_event s there req message d)
  unfolding emit_event Reasoning.pascal_reason
  emit_event-Adds there req message d =
      elim s.has_sinks
        as (λ b. Adds 1 d (
          if b
          then if there then record d { events = d.events ++ (explained req message ∷ []) } else d
          else d)) [
            | false ↦ nothing d d 1 refl
            | true ↦
                elim there
                  as (λ b. Adds 1 d (
                    if b
                    then record d { events = d.events ++ (explained req message ∷ []) }
                    else d)) [
                      | false ↦ nothing d d 1 refl
                      | true ↦ (
                        explained req message ∷ [],
                        refl,
                        ((refl, trimmed-length message, trimmed-prefix message), tt),
                        omega arith,
                      )
                    ]
          ]

  report-Adds :
      (there : Bool) (req : ExplainRequest F) (r : Reply) (d : Done)
      → Adds 1 d (report s there req r d)
  unfolding report
  report-Adds there req panics d = nothing d (logged Level.error d) 1 refl
  report-Adds there req (returns (Chatted.failed e)) d =
      nothing d (logged (log_ollama_err e) d) 1 refl
  report-Adds there req (returns (Chatted.said content)) d =
      elim (trim_content content max_event_length)
        as (λ o.
          Adds 1 d
            (elim o [ [] ↦ logged Level.info d | b ∷ bs ↦ emit_event s there req (b ∷ bs) d ])) [
              | [] ↦ nothing d (logged Level.info d) 1 refl
              | b ∷ bs ↦ emit_event-Adds there req (b ∷ bs) d
            ]

  handle_request-Adds :
      (a : Answers) (req : ExplainRequest F) (d : Done) → Adds 1 d (handle_request s a req d)
  unfolding handle_request
  handle_request-Adds a req d =
      report-Adds a.get_resource req (a.chat (chat_request s req))
        (record d { asked = d.asked ++ (chat_request s req ∷ []) })

  both : (m n k : ℕ) (d e f : Done) → m + n ≤ k → Adds m d e → Adds n e f → Adds k d f
  both m n k d e f room (new, at, good, few) (more, then_at, fine, fewer) = (
    new ++ more,
    then_at ∙ ap (λ es. es ++ more) at ∙ append_assoc d.events new more,
    All-append IsReport new more good fine,
    omega (arith, length-append new more),
  )

  -- Over any run of the explainer's worker, whatever the requests and the answers of the model are, each
  -- request adds at most one Event and none is lost; each new one has the reason ScaleExplained and at
  -- most 500 bytes, the first of which are the token and a blank.
  pub run_turns-Adds :
      (turns : List (Turn F)) (d : Done) → Adds (length turns) d (run_turns s turns d)
  unfolding run_turns
  run_turns-Adds [] d = nothing d d 0 refl
  run_turns-Adds (Turn.received a req ∷ turns) d =
      let after = handle_request s a req d in
      both 1 (length turns) (suc (length turns)) d after (run_turns s turns after) (omega arith)
        (handle_request-Adds a req d) (run_turns-Adds turns after)
  run_turns-Adds (Turn.closed ∷ turns) d = nothing d d (suc (length turns)) refl
  run_turns-Adds (Turn.cancelled ∷ turns) d = nothing d d (suc (length turns)) refl

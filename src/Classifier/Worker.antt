-- ===== src/Classifier/Worker.antt =====
-- internal/classifier/worker.go: one classification by the worker of a resource. The API server holds
-- the resource in `stored`; whether one of its calls fails, and what Prometheus and the clock say, is
-- the argument Answers. The calls of one classification are one step: an edit by another client between
-- the Get and the Update makes the Update fail.
pub mod Loop
pub mod Served
pub mod Endings
pub mod Stored
pub mod Runs
pub mod Outcome
use agentic_autoscaler.Prelude.{
  ℤ, pos, ◌-ℤ◌, ◌*ℤ◌, ltb_ℤ, leb_ℤ, wrap64, clamp_int32, String, concat, Option, some, none, List,
  [], ◌∷◌, ◌++◌, length, Bool, true, false, if◌then◌else◌,
}
use agentic_autoscaler.Go.Float.{Float64}
use agentic_autoscaler.Go.Time.{GoTime, minute, seconds}
use agentic_autoscaler.Go.Map.{lookup, delete}
use agentic_autoscaler.Reasoning
use agentic_autoscaler.Promql.{range_rps}
use agentic_autoscaler.Api.{
  NamespacedName, ContextFields, ClassifiedParams, Status, AgenticAutoscaler,
}
use agentic_autoscaler.Adapters.{Fallible, ok, err, Sample}
use agentic_autoscaler.Controller.World.{Flow, Ending, Formats}
use agentic_autoscaler.Controller.Inputs.{values_of}
use agentic_autoscaler.Classifier.Pipeline.{
  PipelineResult, PipelineConfig, ContextOutput, PipelineResultV2, run_pipeline, run_pipeline_v2,
}

pub record WorkerConfig {ℓ} (F : Type ℓ) : Type ℓ where
  pub interval : ℤ
  pub history_hours : ℤ
  pub min_points : ℤ
  pub high_conf_points : ℤ
  pub dedup_seconds : ℤ
  pub resolution_min : ℤ
  pub hourly_profile_min_hours : ℤ
  pub cv_guard_mean_rps : F

-- What stays the same while a worker runs. `has_recorder` says that EventRecorder is not nil.
pub record Setup {ℓ} (F : Type ℓ) : Type ℓ where
  pub key : NamespacedName
  pub deployment_name : String
  pub min_replicas : ℤ
  pub max_replicas : ℤ
  pub config : WorkerConfig F
  pub has_recorder : Bool
  pub formats : Formats F

-- A call of the Prometheus client returns, or panics.
pub data Reply {ℓ} (A : Type ℓ) : Type ℓ where
  returns : Fallible A → Reply A
  panics : Reply A

-- The outside world during one classification; the error of a call to the API server, if it fails.
pub record Answers {ℓ κ} (F : Type ℓ) (T : Type κ) : Type (ℓ ⊔ κ) where
  pub now_query : T
  pub now_patch : T
  pub now_done : T
  pub range_query : String → T → T → ℤ → Reply (List (Sample F T))
  pub get_for_patch : Option String
  pub update_status : Option String
  pub get_for_event : Option String

-- An Event as the recorder is given it: its type, its reason and its message.
pub record Event : Type 0 where
  pub kind : String
  pub reason : String
  pub message : String

pub record Worker {ℓ κ} (F : Type ℓ) (T : Type κ) : Type (ℓ ⊔ κ) where
  pub last_classify_at : T
  pub stored : Option (AgenticAutoscaler F T)
  pub queries : List (String × T × T × ℤ)
  pub events : List Event

unfoldable pub history_points_as_int32 : ℤ → ℤ
unfolding clamp_int32
history_points_as_int32 v = clamp_int32 v

-- A Get of the resource.
abbrev pub get_stored {ℓ} : {A : Type ℓ} → Option String → Option A → Option A
get_stored (some e) stored = none
get_stored none stored = stored

module _ {ℓ} {F : Type ℓ} where
  unfoldable pub format_classified_message : Formats F → PipelineResult F → String
  format_classified_message fmt r = concat (
      "pattern="
      ∷ r.pattern_name
      ∷ " confidence="
      ∷ r.confidence_label
      ∷ " historyPoints="
      ∷ fmt.int r.history_points
      ∷ " scaleUpCooldown="
      ∷ fmt.int r.params.scale_up_cooldown
      ∷ "s scaleDownCooldown="
      ∷ fmt.int r.params.scale_down_cooldown
      ∷ "s maxStep="
      ∷ fmt.int r.params.max_step
      ∷ " forecaster="
      ∷ r.params.preferred_forecaster
      ∷ [])

  abbrev insufficient_message : Setup F → ℤ → String
  insufficient_message s n = concat (
      "insufficient history: "
      ∷ s.formats.int n
      ∷ " points (need "
      ∷ s.formats.int s.config.min_points
      ∷ ")"
      ∷ [])

  abbrev pub context_fields : ContextOutput F → ContextFields F
  context_fields x = record {
    baseline_rps = x.baseline_rps;
    peak_p95_rps = x.peak_p95_rps;
    trend24h_slope = x.trend24h_slope;
    hourly_profile = x.hourly_profile;
    hourly_profile_valid = x.hourly_profile_valid;
  }

module _ {ℓ κ} {F : Type ℓ} {T : Type κ} where
  unfoldable pub emit_event : Setup F → Option String → String → String → Worker F T → Worker F T
  emit_event s get_error reason message w =
      if s.has_recorder
      then elim (get_stored get_error w.stored) [
        | none ↦ w
        | some aas ↦ record w {
          events =
              w.events
              ++ (record {
                kind = "Normal";
                reason = Reasoning.pascal_reason reason;
                message = concat (reason ∷ " " ∷ message ∷ []);
              }
                  ∷ []);
        }
      ]
      else w

  -- The parameters as both patches write them.
  unfoldable pub params_of : T → PipelineResult F → Option (ContextFields F) → ClassifiedParams F T
  unfolding history_points_as_int32
  params_of now r context = record {
    pattern_name = r.pattern_name;
    scale_up_cooldown_seconds = r.params.scale_up_cooldown;
    scale_down_cooldown_seconds = r.params.scale_down_cooldown;
    max_step_size = r.params.max_step;
    preferred_forecaster = r.params.preferred_forecaster;
    classified_at = now;
    history_points = history_points_as_int32 r.history_points;
    confidence = r.confidence_label;
    context = context;
  }

  abbrev pub with_params : ClassifiedParams F T → AgenticAutoscaler F T → AgenticAutoscaler F T
  with_params cp aas = record aas { status = record aas.status { classified_params = some cp } }

  -- Get, mutate, update; whether it succeeded.
  unfoldable pub put_params : Answers F T → ClassifiedParams F T → Worker F T → Bool × Worker F T
  put_params a cp w = elim (get_stored a.get_for_patch w.stored) [
    | none ↦ (false, w)
    | some aas ↦ elim a.update_status [
      | some e ↦ (false, w)
      | none ↦ (true, record w { stored = some (with_params cp aas) })
    ]
  ]

  unfoldable pub patch_status : Answers F T → PipelineResult F → Worker F T → Bool × Worker F T
  unfolding put_params params_of
  patch_status a r w = put_params a (params_of a.now_patch r none) w

  -- The context of a V2 result is never nil.
  unfoldable pub patch_status_v2 : Answers F T → PipelineResultV2 F → Worker F T → Bool × Worker F T
  unfolding put_params params_of
  patch_status_v2 a r w =
      put_params a (params_of a.now_patch r.base (some (context_fields r.context))) w

module _ {ℓ} {F : Type ℓ} where
  -- ResolutionMin minutes, or one minute where that is not positive.
  unfoldable pub query_step : WorkerConfig F → ℤ
  query_step c =
      let step = wrap64 (c.resolution_min *ℤ minute) in if leb_ℤ step (pos 0) then minute else step

module _ {ℓ κ} {F : Type ℓ} ⦃f : Float64 F⦄ {T : Type κ} ⦃t : GoTime T⦄ where
  unfoldable pub query_start : Setup F → Answers F T → T
  query_start s a = t.add a.now_query (pos 0 -ℤ s.config.history_hours)

  unfoldable pub pipeline_config : Setup F → Answers F T → PipelineConfig F
  unfolding query_start
  pipeline_config s a = record {
    resolution_min = s.config.resolution_min;
    hourly_profile_min_hours = s.config.hourly_profile_min_hours;
    cv_guard_mean_rps = s.config.cv_guard_mean_rps;
    start_hour_utc = t.utc_hour (query_start s a);
  }

  -- What follows the patch: the time and the Event of a success, or nothing.
  unfoldable pub finish :
      Setup F → Answers F T → PipelineResult F → Bool × Worker F T → Bool × Worker F T
  unfolding emit_event format_classified_message
  finish s a r (patched, w) =
      if patched
      then (
        true,
        emit_event s a.get_for_event Reasoning.pattern_classified
            (format_classified_message s.formats r) (record w { last_classify_at = a.now_done }),
      )
      else (false, w)

  unfoldable pub too_short : Setup F → Answers F T → ℤ → Worker F T → Bool × Worker F T
  unfolding emit_event
  too_short s a n w =
      (false, emit_event s a.get_for_event Reasoning.pattern_unknown (insufficient_message s n) w)

  -- From the values of the series on. `guard` is the package variable CVGuardMeanRPS.
  unfoldable pub classify_series :
      F → Setup F → Answers F T → List F → Worker F T → Bool × Worker F T
  unfolding finish too_short patch_status patch_status_v2 pipeline_config
  classify_series guard s a series w =
      let c = s.config in
      if ltb_ℤ (pos 0) c.resolution_min
      then elim (run_pipeline_v2 guard series c.high_conf_points c.min_points s.min_replicas
          s.max_replicas (pipeline_config s a)) [
            | none ↦ too_short s a (pos (length series)) w
            | some r ↦ finish s a r.base (patch_status_v2 a r w)
          ]
      else elim (run_pipeline guard series c.high_conf_points c.min_points s.min_replicas
          s.max_replicas) [
            | none ↦ too_short s a (pos (length series)) w
            | some r ↦ finish s a r (patch_status a r w)
          ]

  abbrev pub queried : Setup F → Answers F T → Worker F T → Worker F T
  queried s a w = record w {
    queries =
        w.queries
        ++ ((range_rps s.deployment_name, query_start s a, a.now_query, query_step s.config) ∷ []);
  }

  abbrev pub query_answer : Setup F → Answers F T → Reply (List (Sample F T))
  query_answer s a =
      a.range_query (range_rps s.deployment_name) (query_start s a) a.now_query
        (query_step s.config)

  unfoldable pub run_classification :
      F → Setup F → Answers F T → Worker F T → Flow Bool × Worker F T
  unfolding classify_series query_start query_step range_rps values_of
  run_classification guard s a w =
      let w1 = queried s a w in
      elim (query_answer s a) [
        | panics ↦ (Flow.stop Ending.panicked, w1)
        | returns answer ↦ elim answer [
          | err e ↦ (Flow.next false, w1)
          | ok samples ↦
              let (done, w2) = classify_series guard s a (values_of samples) w1 in
              (Flow.next done, w2)
        ]
      ]

-- ===== src/Classifier/Worker/Outcome.antt =====
-- What one classification leaves behind, on each of its paths.
use agentic_autoscaler.Prelude.{
  ℤ, pos, ◌≤ℤ◌, ◌<ℤ◌, ◌-ℤ◌, ltb_ℤ, IsInt32, ◌≡◌, ◌⊎◌, inl, inr, refl, sym, Bool, true, false,
  Bool-cases, arith, String, Option, some, none, Option-cases, List, length,
}
use mathlib.Core.Path.{subst}
use agentic_autoscaler.Go.Float.{Float64}
use agentic_autoscaler.Go.Time.{GoTime}
use agentic_autoscaler.Webhook.{is_forecaster}
use agentic_autoscaler.Api.{AgenticAutoscaler, ClassifiedParams}
use agentic_autoscaler.Adapters.{ok, err}
use agentic_autoscaler.Controller.World.{Flow, Ending}
use agentic_autoscaler.Controller.Inputs.{values_of}
use agentic_autoscaler.Classifier.Classify.{Features}
use agentic_autoscaler.Classifier.Confidence.{confidence, high, medium}
use agentic_autoscaler.Classifier.Pipeline.{
  PipelineResultV2, PipelineConfig, PipelineResult, result_of, run_pipeline, run_pipeline_v2,
}
use agentic_autoscaler.Classifier.Promises.{compute_params-IsAdmissible}
use agentic_autoscaler.Classifier.Worker.{
  Setup, Answers, Worker, returns, panics, get_stored, emit_event, params_of, with_params,
  put_params, patch_status, patch_status_v2, finish, too_short, classify_series, queried,
  query_answer, run_classification,
}

-- The bounds that the webhook asks of a spec's parameters, and a label of the classifier.
abbrev pub IsAdmissible {ℓ κ} : {F : Type ℓ} {T : Type κ} → Setup F → ClassifiedParams F T → Type 0
IsAdmissible s cp =
    ((pos 30 ≤ℤ cp.scale_up_cooldown_seconds) × (cp.scale_up_cooldown_seconds ≤ℤ pos 180))
    × ((pos 60 ≤ℤ cp.scale_down_cooldown_seconds) × (cp.scale_down_cooldown_seconds ≤ℤ pos 600))
    × ((pos 1 ≤ℤ cp.max_step_size) × (cp.max_step_size ≤ℤ s.max_replicas -ℤ s.min_replicas))
    × (is_forecaster cp.preferred_forecaster ≡ true)
    × ((cp.confidence ≡ high) ⊎ (cp.confidence ≡ medium))

-- Replica bounds that the webhook admits.
abbrev pub IsAdmitted {ℓ} : {F : Type ℓ} → Setup F → Type 0
IsAdmitted s =
    IsInt32 s.min_replicas
    × IsInt32 s.max_replicas
    × (pos 0 ≤ℤ s.min_replicas)
    × (s.min_replicas <ℤ s.max_replicas)

confidence-known :
    (n high_points min_points : ℤ)
    → min_points ≤ℤ n
    → (confidence n high_points min_points ≡ high) ⊎ (confidence n high_points min_points ≡ medium)
unfolding confidence
confidence-known n high_points min_points h = ground arith

pub get_stored-some {ℓ} :
    {A : Type ℓ} (o : Option String) (stored : Option A) (x : A)
    → get_stored o stored ≡ some x
    → stored ≡ some x
get_stored-some (some e) stored x h = ground arith
get_stored-some none stored x h = h

-- A result of either pipeline with such parameters.
abbrev IsGood {ℓ} : {F : Type ℓ} → Setup F → PipelineResult F → Type 0
IsGood s r =
    ((pos 30 ≤ℤ r.params.scale_up_cooldown) × (r.params.scale_up_cooldown ≤ℤ pos 180))
    × ((pos 60 ≤ℤ r.params.scale_down_cooldown) × (r.params.scale_down_cooldown ≤ℤ pos 600))
    × ((pos 1 ≤ℤ r.params.max_step) × (r.params.max_step ≤ℤ s.max_replicas -ℤ s.min_replicas))
    × (is_forecaster r.params.preferred_forecaster ≡ true)
    × ((r.confidence_label ≡ high) ⊎ (r.confidence_label ≡ medium))

module _ {ℓ} {F : Type ℓ} ⦃f : Float64 F⦄ where
  abbrev IsGood1 : Setup F → Option (PipelineResult F) → Type 0
  IsGood1 s none = Unit
  IsGood1 s (some r) = IsGood s r

  abbrev IsGood2 : Setup F → Option (PipelineResultV2 F) → Type 0
  IsGood2 s none = Unit
  IsGood2 s (some r) = IsGood s r.base

  abbrev run1 : F → Setup F → List F → Option (PipelineResult F)
  run1 guard s series =
      run_pipeline guard series s.config.high_conf_points s.config.min_points s.min_replicas
        s.max_replicas

  abbrev run2 : F → Setup F → List F → PipelineConfig F → Option (PipelineResultV2 F)
  run2 guard s series cfg =
      run_pipeline_v2 guard series s.config.high_conf_points s.config.min_points s.min_replicas
        s.max_replicas cfg

  result_of-IsGood :
      (guard : F) (s : Setup F) (series : List F) (x : Features F) (pattern_name : String)
      → IsAdmitted s
      → ltb_ℤ (pos (length series)) s.config.min_points ≡ false
      → IsGood s (
          result_of guard series s.config.high_conf_points s.config.min_points s.min_replicas
            s.max_replicas x pattern_name)
  result_of-IsGood guard s series x pattern_name (lo32, hi32, lo_nonneg, above) enough =
      let (up, down, step, known) =
        compute_params-IsAdmissible x pattern_name s.min_replicas s.max_replicas lo32 hi32 lo_nonneg
          above in
      (
        up,
        down,
        step,
        known,
        confidence-known (pos (length series)) s.config.high_conf_points s.config.min_points
            (ground arith),
      )

  run1-IsGood1 :
      (guard : F) (s : Setup F) (series : List F) → IsAdmitted s → IsGood1 s (run1 guard s series)
  unfolding run_pipeline
  run1-IsGood1 guard s series bounds =
      elim (Bool-cases (ltb_ℤ (pos (length series)) s.config.min_points)) [
        | inl short ↦ rw short tt
        | inr enough ↦ rw enough (result_of-IsGood guard s series _ _ bounds enough)
      ]

  run2-IsGood2 :
      (guard : F) (s : Setup F) (series : List F) (cfg : PipelineConfig F)
      → IsAdmitted s
      → IsGood2 s (run2 guard s series cfg)
  unfolding run_pipeline_v2
  run2-IsGood2 guard s series cfg bounds =
      elim (Bool-cases (ltb_ℤ (pos (length series)) s.config.min_points)) [
        | inl short ↦ rw short tt
        | inr enough ↦ rw enough (result_of-IsGood guard s series _ _ bounds enough)
      ]

module _ {ℓ κ} {F : Type ℓ} ⦃f : Float64 F⦄ {T : Type κ} ⦃t : GoTime T⦄ where
  -- A failure leaves the resource and the time of the last success; a success writes admissible
  -- parameters, with the time of the write, into the resource that was there, and nothing else of it.
  abbrev pub IsOutcome : Setup F → Answers F T → Worker F T → Bool × Worker F T → Type (ℓ ⊔ κ)
  IsOutcome s a w (false, after) =
      (after.stored ≡ w.stored) × (after.last_classify_at ≡ w.last_classify_at)
  IsOutcome s a w (true, after) =
      (after.last_classify_at ≡ a.now_done)
      × ((aas : AgenticAutoscaler F T) × (cp : ClassifiedParams F T) × (w.stored ≡ some aas)
          × (after.stored ≡ some (with_params cp aas))
          × (cp.classified_at ≡ a.now_patch)
          × IsAdmissible s cp)

  pub emit_event-stored :
      (s : Setup F) (o : Option String) (reason message : String) (w : Worker F T)
      → ((emit_event s o reason message w).stored ≡ w.stored)
        × ((emit_event s o reason message w).last_classify_at ≡ w.last_classify_at)
  unfolding emit_event
  emit_event-stored s o reason message w = ground (arith, Option-cases (get_stored o w.stored))

  pub put_params-cases :
      (a : Answers F T) (cp : ClassifiedParams F T) (w : Worker F T)
      → (put_params a cp w ≡ (false, w))
        ⊎ ((aas : AgenticAutoscaler F T) × (w.stored ≡ some aas)
            × (put_params a cp w ≡ (true, record w { stored = some (with_params cp aas) })))
  unfolding put_params
  put_params-cases a cp w = elim (Option-cases (get_stored a.get_for_patch w.stored)) [
    | inl missing ↦ inl (simp (put_params, missing))
    | inr (aas, there) ↦ elim (Option-cases a.update_status) [
      | inl fine ↦
          inr (
            aas,
            get_stored-some a.get_for_patch w.stored aas there,
            simp (put_params, there, fine),
          )
      | inr (e, refused) ↦ inl (simp (put_params, there, refused))
    ]
  ]

  -- A patch with admissible parameters, and what follows it.
  finish-IsOutcome :
      (s : Setup F) (a : Answers F T) (r : PipelineResult F) (cp : ClassifiedParams F T)
      (w : Worker F T)
      → cp.classified_at ≡ a.now_patch
      → IsAdmissible s cp
      → IsOutcome s a w (finish s a r (put_params a cp w))
  unfolding finish
  finish-IsOutcome s a r cp w now good = elim (put_params-cases a cp w) [
    | inl failed ↦ subst (λ q. IsOutcome s a w (finish s a r q)) (sym failed) (refl, refl)
    | inr (aas, there, done) ↦
        let same = emit_event-stored s a.get_for_event in
        subst (λ q. IsOutcome s a w (finish s a r q)) (sym done)
          ((same _ _ _).1, (aas, cp, there, (same _ _ _).0, now, good))
  ]

  after1-IsOutcome :
      (s : Setup F) (a : Answers F T) (n : ℤ) (w : Worker F T) (o : Option (PipelineResult F))
      → IsGood1 s o
      → IsOutcome s a w
          (elim o [ none ↦ too_short s a n w | some r ↦ finish s a r (patch_status a r w) ])
  unfolding too_short patch_status params_of
  after1-IsOutcome s a n w none good = emit_event-stored s a.get_for_event _ _ w
  after1-IsOutcome s a n w (some r) good = finish-IsOutcome s a r _ w refl good

  after2-IsOutcome :
      (s : Setup F) (a : Answers F T) (n : ℤ) (w : Worker F T) (o : Option (PipelineResultV2 F))
      → IsGood2 s o
      → IsOutcome s a w
          (elim o [ none ↦ too_short s a n w | some r ↦ finish s a r.base (patch_status_v2 a r w) ])
  unfolding too_short patch_status_v2 params_of
  after2-IsOutcome s a n w none good = emit_event-stored s a.get_for_event _ _ w
  after2-IsOutcome s a n w (some r) good = finish-IsOutcome s a r.base _ w refl good

  classify_series-IsOutcome :
      (guard : F) (s : Setup F) (a : Answers F T) (series : List F) (w : Worker F T)
      → IsAdmitted s
      → IsOutcome s a w (classify_series guard s a series w)
  unfolding classify_series
  classify_series-IsOutcome guard s a series w bounds =
      elim (Bool-cases (ltb_ℤ (pos 0) s.config.resolution_min)) [
        | inl v2 ↦ rw v2 (after2-IsOutcome s a _ w _ (run2-IsGood2 guard s series _ bounds))
        | inr v1 ↦ rw v1 (after1-IsOutcome s a _ w _ (run1-IsGood1 guard s series bounds))
      ]

  -- The same for the whole classification; a panic is a failure.
  abbrev pub Ends : Setup F → Answers F T → Worker F T → Flow Bool × Worker F T → Type (ℓ ⊔ κ)
  Ends s a w (Flow.next done, after) = IsOutcome s a w (done, after)
  Ends s a w (Flow.stop e, after) = IsOutcome s a w (false, after)

  -- For replica bounds that the webhook admits: a classification that fails or panics leaves the
  -- resource and the time of the last success as they were; one that succeeds writes parameters that the
  -- webhook would admit in a spec, with a label of the classifier, into the resource that was there,
  -- changes nothing else of it, and records its time.
  pub run_classification-Ends :
      (guard : F) (s : Setup F) (a : Answers F T) (w : Worker F T)
      → IsAdmitted s
      → Ends s a w (run_classification guard s a w)
  unfolding run_classification
  run_classification-Ends guard s a w bounds =
      elim (query_answer s a)
        as (λ o. Ends s a w (elim o [
          | panics ↦ (Flow.stop Ending.panicked, queried s a w)
          | returns answer ↦ elim answer [
            | err e ↦ (Flow.next false, queried s a w)
            | ok samples ↦
                let (done, w2) = classify_series guard s a (values_of samples) (queried s a w) in
                (Flow.next done, w2)
          ]
        ])) [
          | panics ↦ (refl, refl)
          | returns (err e) ↦ (refl, refl)
          | returns (ok samples) ↦
              classify_series-IsOutcome guard s a (values_of samples) (queried s a w) bounds
        ]

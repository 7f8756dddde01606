-- ===== src/Wiring/ColdPath.antt =====
-- The classifier's worker under the configuration that main gives it.
use agentic_autoscaler.Prelude.{
  arith, ◌≤ℤ◌, length, clamp_int32, wrap32-IsInt32, quot, pos_part, ◌+ℤ◌, add32, ℤ, pos, ltb_ℤ,
  Option, some, none, List, length, ◌*ℤ◌, wrap64, ◌≡◌, ◌⊎◌, inl, inr, refl, sym, Bool, false,
}
use mathlib.Core.Path.{subst}
use agentic_autoscaler.Go.Float.{Float64}
use agentic_autoscaler.Go.Time.{GoTime, minute}
use agentic_autoscaler.Api.{AgenticAutoscaler, ClassifiedParams}
use agentic_autoscaler.Adapters.{ok, err, Sample}
use agentic_autoscaler.Config.{Config, points_floor}
use agentic_autoscaler.Config.Load.{Texts, Environ, load_from_env}
use agentic_autoscaler.Config.Checked.{load_from_env-IsChecked}
use agentic_autoscaler.Classifier.Promises.{IsLabelled, run_pipeline-IsLabelled}
use agentic_autoscaler.Controller.World.{Flow, Ending}
use agentic_autoscaler.Controller.Inputs.{values_of}
use agentic_autoscaler.Classifier.Pipeline.{PipelineResult, run_pipeline}
use agentic_autoscaler.Classifier.Worker.{
  Setup, Answers, Worker, Reply, returns, panics, params_of, with_params, patch_status, finish,
  too_short, classify_series, queried, query_answer, query_step, history_points_as_int32,
  run_classification,
}
use agentic_autoscaler.Classifier.Worker.Outcome.{put_params-cases, emit_event-stored}
use agentic_autoscaler.Wiring.{classifier_config}

above : (n m k : ℤ) → n ≤ℤ clamp_int32 m → m ≤ℤ k → n ≤ℤ clamp_int32 k
unfolding clamp_int32
above n m k low h = ground arith

floor_clamped :
    (resolution m : ℤ) → points_floor resolution ≤ℤ m → points_floor resolution ≤ℤ clamp_int32 m
unfolding clamp_int32 points_floor add32
floor_clamped resolution m h =
    ground (arith, wrap32-IsInt32 (quot (pos 60) (pos_part resolution) +ℤ pos 10))

module _ {ℓ κ} {F : Type ℓ} ⦃f : Float64 F⦄ {T : Type κ} ⦃t : GoTime T⦄ where
  -- The resource is as it was, or has parameters without a context, from at least `n` points.
  abbrev pub IsPlain : ℤ → Worker F T → Worker F T → Type (ℓ ⊔ κ)
  IsPlain n w after =
      (after.stored ≡ w.stored)
      ⊎ ((aas : AgenticAutoscaler F T) × (cp : ClassifiedParams F T) × (after.stored
            ≡ some (with_params cp aas))
          × (cp.context ≡ none)
          × (n ≤ℤ cp.history_points))

  finish-IsPlain :
      (n : ℤ) (s : Setup F) (a : Answers F T) (r : PipelineResult F) (w : Worker F T)
      → n ≤ℤ history_points_as_int32 r.history_points
      → IsPlain n w (finish s a r (patch_status a r w)).1
  unfolding finish patch_status params_of
  finish-IsPlain n s a r w enough = elim (put_params-cases a (params_of a.now_patch r none) w) [
    | inl failed ↦ subst (λ q. IsPlain n w (finish s a r q).1) (sym failed) (inl refl)
    | inr (aas, there, done) ↦
        subst (λ q. IsPlain n w (finish s a r q).1) (sym done)
          (inr (
            aas,
            params_of a.now_patch r none,
            (emit_event-stored s a.get_for_event _ _ _).0,
            refl,
            enough,
          ))
  ]

  -- What the legacy pipeline's branch does with its result.
  abbrev legacy :
      Setup F → Answers F T → ℤ → Worker F T → Option (PipelineResult F) → Bool × Worker F T
  legacy s a n w o = elim o [
    | none ↦ too_short s a n w
    | some r ↦ finish s a r (patch_status a r w)
  ]

  legacy-IsPlain :
      (n : ℤ) (s : Setup F) (a : Answers F T) (series : List F) (w : Worker F T)
      (o : Option (PipelineResult F))
      → n ≤ℤ clamp_int32 s.config.min_points
      → IsLabelled series s.config.high_conf_points s.config.min_points o
      → IsPlain n w (legacy s a (pos (length series)) w o).1
  unfolding too_short history_points_as_int32
  legacy-IsPlain n s a series w none low labelled =
      inl (emit_event-stored s a.get_for_event _ _ w).0
  legacy-IsPlain n s a series w (some r) low (enough, counted, label) =
      finish-IsPlain n s a r w
        (above n s.config.min_points r.history_points low (rw counted enough))

  takes_legacy :
      (guard : F) (s : Setup F) (a : Answers F T) (series : List F) (w : Worker F T)
      → ltb_ℤ (pos 0) s.config.resolution_min ≡ false
      → classify_series guard s a series w
        ≡ legacy s a (pos (length series)) w (
            run_pipeline guard series s.config.high_conf_points s.config.min_points s.min_replicas
              s.max_replicas)
  unfolding classify_series
  takes_legacy guard s a series w v1 = simp (classify_series, v1)

  series-IsPlain :
      (n : ℤ) (guard : F) (s : Setup F) (a : Answers F T) (series : List F) (w : Worker F T)
      → n ≤ℤ clamp_int32 s.config.min_points
      → ltb_ℤ (pos 0) s.config.resolution_min ≡ false
      → IsPlain n w (classify_series guard s a series w).1
  series-IsPlain n guard s a series w low v1 =
      subst (λ q. IsPlain n w q.1) (sym (takes_legacy guard s a series w v1))
        (legacy-IsPlain n s a series w _ low (
          run_pipeline-IsLabelled guard series s.config.high_conf_points s.config.min_points
            s.min_replicas s.max_replicas))

  abbrev answered :
      F → Setup F → Answers F T → Worker F T → Reply (List (Sample F T)) → Flow Bool × Worker F T
  answered guard s a w o = elim o [
    | panics ↦ (Flow.stop Ending.panicked, queried s a w)
    | returns answer ↦ elim answer [
      | err e ↦ (Flow.next false, queried s a w)
      | ok samples ↦
          let (done, w2) = classify_series guard s a (values_of samples) (queried s a w) in
          (Flow.next done, w2)
    ]
  ]

  -- Under the configuration that main makes of an environment that loads, whatever its
  -- CONTEXT_DOWNSAMPLE_RESOLUTION_MIN is: the worker asks for a point each minute; a classification
  -- leaves the resource as it was, or writes parameters without a context, from at least as many points
  -- as the floor at that resolution.
  pub run_classification-IsPlain :
      (guard : F) (x : Texts F) (env : Environ) (cfg : Config F) (s : Setup F) (a : Answers F T)
      (w : Worker F T)
      → load_from_env x env ≡ inl cfg
      → s.config ≡ classifier_config cfg
      → IsPlain (points_floor cfg.context_resolution_minutes) w (run_classification guard s a w).1
        × (query_step s.config ≡ minute)
  unfolding run_classification classifier_config query_step ◌*ℤ◌ wrap64
  run_classification-IsPlain guard x env cfg s a w loaded wired = (
    elim (query_answer s a)
        as (λ o.
          IsPlain (points_floor cfg.context_resolution_minutes) w (answered guard s a w o).1) [
            | panics ↦ inl refl
            | returns (err e) ↦ inl refl
            | returns (ok samples) ↦
                series-IsPlain _ guard s a (values_of samples) (queried s a w)
                  (rw wired
                    (floor_clamped _ _ (load_from_env-IsChecked x env cfg loaded).min_points))
                  (rw wired refl)
          ],
    rw wired refl,
  )

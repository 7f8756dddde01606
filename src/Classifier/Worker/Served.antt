-- ===== src/Classifier/Worker/Served.antt =====
-- What a served signal leaves behind.
use agentic_autoscaler.Prelude.{
  ltb_ℤ, String, ◌≡◌, ◌⊎◌, inl, inr, refl, ap, ◌∙◌, Bool, Bool-cases, true, false, Option, some,
  none, if◌then◌else◌, text_key, ◌==◌,
}
use agentic_autoscaler.Go.Float.{Float64}
use agentic_autoscaler.Go.Time.{GoTime, seconds}
use mathlib.Core.Path.{subst}
use agentic_autoscaler.Go.Channel.{try_receive}
use agentic_autoscaler.Go.Map.{lookup, lookup-delete}
use agentic_autoscaler.Reasoning
use agentic_autoscaler.Api.{AgenticAutoscaler, ClassifiedParams}
use agentic_autoscaler.Controller.World.{Flow}
use agentic_autoscaler.Classifier.Worker.{Setup, Answers, Worker, run_classification, with_params}
use agentic_autoscaler.Classifier.Worker.Outcome.{
  IsAdmissible, IsAdmitted, Ends, run_classification-Ends,
}
use agentic_autoscaler.Classifier.Worker.Stored.{remove_reclassify_annotation-cases, stripped}
use agentic_autoscaler.Classifier.Worker.Loop.{
  Loop, Removal, classify_in, should_run_on_generation, strip_after, serve_reclassify,
  serve_generation,
}

same_value {ι} : {A : Type ι} {o : Option A} {x y : A} → o ≡ some x → o ≡ some y → x ≡ y
same_value h k = cc (h, k)

module _ {ℓ κ} {F : Type ℓ} ⦃f : Float64 F⦄ {T : Type κ} ⦃t : GoTime T⦄ where
  -- When the last success was, after a classification from `w`.
  abbrev pub last_success : Answers F T → Worker F T → Flow Bool → T
  last_success a w (Flow.next true) = a.now_done
  last_success a w _ = w.last_classify_at

  remembered :
      (s : Setup F) (a : Answers F T) (w : Worker F T) (r : Flow Bool × Worker F T)
      → Ends s a w r
      → r.1.last_classify_at ≡ last_success a w r.0
  remembered s a w (Flow.next true, after) (at, _) = at
  remembered s a w (Flow.next false, after) (_, at) = at
  remembered s a w (Flow.stop e, after) (_, at) = at

  -- The loop after a generation signal has been received, and a classification if it is `due`.
  abbrev pub IsAnswered : F → Setup F → Answers F T → Loop F T → Bool → Loop F T → Type (ℓ ⊔ κ)
  IsAnswered guard s a l due after =
      (after.worker ≡ (if due then (run_classification guard s a l.worker).1 else l.worker))
      × (after.generation_ch ≡ try_receive l.generation_ch)
      × (after.reclassify_ch ≡ l.reclassify_ch)

  answered :
      (guard : F) (s : Setup F) (now : T) (a : Answers F T) (l : Loop F T)
      → IsAnswered guard s a l
          (ltb_ℤ (seconds s.config.dedup_seconds) (t.sub now l.worker.last_classify_at))
          (serve_generation guard s now a l)
  unfolding serve_generation classify_in should_run_on_generation
  answered guard s now a l =
      elim (Bool-cases
        (ltb_ℤ (seconds s.config.dedup_seconds) (t.sub now l.worker.last_classify_at))) [
          | inl due ↦ rw due (refl, refl, refl)
          | inr early ↦ rw early (refl, refl, refl)
        ]

  -- For replica bounds that the webhook admits: a generation signal that is served after a
  -- classification is received, and runs another one exactly when more than the window has passed since
  -- the last success; that is the classification itself if it succeeded, and the one before it if it
  -- failed or panicked. Otherwise the worker stays as it was.
  pub serve_generation-IsDeduped :
      (guard : F) (s : Setup F) (a b : Answers F T) (now : T) (l : Loop F T)
      → IsAdmitted s
      → let (flow, w) = run_classification guard s a l.worker in
        IsAnswered guard s b
          (record l { worker = w })
          (ltb_ℤ (seconds s.config.dedup_seconds) (t.sub now (last_success a l.worker flow)))
          (serve_generation guard s now b (record l { worker = w }))
  serve_generation-IsDeduped guard s a b now l bounds =
      let r = run_classification guard s a l.worker in
      subst
        (λ at.
          IsAnswered guard s b (record l { worker = r.1 })
            (ltb_ℤ (seconds s.config.dedup_seconds) (t.sub now at))
            (serve_generation guard s now b (record l { worker = r.1 })))
        (remembered s a l.worker r (run_classification-Ends guard s a l.worker bounds))
        (answered guard s now b (record l { worker = r.1 }))

  -- The resource after a reclassify signal: its annotations are as they were, or only the reclassify
  -- annotation is gone and the parameters are those of a classification that just succeeded.
  abbrev pub IsServed :
      Setup F → Answers F T → AgenticAutoscaler F T → AgenticAutoscaler F T → Type (ℓ ⊔ κ)
  IsServed s a before after =
      (after.annotations ≡ before.annotations)
      ⊎ (((k : String)
            → lookup k after.annotations ≡ (
                if k == Reasoning.annotation_reclassify then none else lookup k before.annotations))
          × ((cp : ClassifiedParams F T) × (after.status.classified_params ≡ some cp)
              × (cp.classified_at ≡ a.now_patch)
              × IsAdmissible s cp))

  served :
      (s : Setup F) (a : Answers F T) (answers : Removal) (w : Worker F T)
      (aas : AgenticAutoscaler F T) (flow : Flow Bool) (after : Worker F T)
      → w.stored ≡ some aas
      → Ends s a w (flow, after)
      → (aas1 : AgenticAutoscaler F T) × ((strip_after answers flow after).stored ≡ some aas1)
        × IsServed s a aas aas1
  unfolding strip_after
  served s a answers w aas (Flow.stop e) after there (same, _) = (aas, same ∙ there, inl refl)
  served s a answers w aas (Flow.next false) after there (same, _) = (aas, same ∙ there, inl refl)
  served s a answers w aas (Flow.next true) after there (_, (old, cp, was, put, now, good)) =
      elim (remove_reclassify_annotation-cases answers after) [
        | inl kept ↦ (
          with_params cp aas,
          ap (λ v. v.stored) kept ∙ put ∙ ap (λ o. some (with_params cp o)) (same_value was there),
          inl refl,
        )
        | inr (x, here, done) ↦ (
          stripped (with_params cp aas),
          ap (λ v. v.stored) done
              ∙ ap (λ o. some (stripped o))
                  (same_value here put ∙ ap (with_params cp) (same_value was there)),
          inr (
            λ k. lookup-delete Reasoning.annotation_reclassify k aas.annotations,
            (cp, refl, now, good),
          ),
        )
      ]

  -- For replica bounds that the webhook admits and a resource that is there: a reclassify signal leaves
  -- its annotations alone, or removes the reclassify annotation and no other; and it removes it only
  -- after a classification has just written admissible parameters.
  pub serve_reclassify-IsServed :
      (guard : F) (s : Setup F) (a : Answers F T) (answers : Removal) (l : Loop F T)
      (aas : AgenticAutoscaler F T)
      → IsAdmitted s
      → l.worker.stored ≡ some aas
      → (aas1 : AgenticAutoscaler F T) × ((serve_reclassify guard s a answers l).worker.stored
          ≡ some aas1)
        × IsServed s a aas aas1
  unfolding serve_reclassify
  serve_reclassify-IsServed guard s a answers l aas bounds there =
      served s a answers l.worker aas _ _ there (run_classification-Ends guard s a l.worker bounds)

-- ===== src/Classifier/Worker/Stored.antt =====
-- What each step of a worker's loop keeps of the stored resource's parameters.
use agentic_autoscaler.Prelude.{
  ◌≡◌, ◌⊎◌, inl, inr, refl, sym, Bool, true, false, Bool-cases, Option, some, none, Option-cases,
  text_key, if◌then◌else◌,
}
use mathlib.Core.Path.{subst}
use mathlib.Core.Option as Optional
use agentic_autoscaler.Go.Float.{Float64}
use agentic_autoscaler.Go.Time.{GoTime}
use agentic_autoscaler.Go.Map.{lookup, delete}
use agentic_autoscaler.Reasoning
use agentic_autoscaler.Api.{ClassifiedParams, AgenticAutoscaler}
use agentic_autoscaler.Controller.World.{Flow}
use agentic_autoscaler.Classifier.Worker.{Setup, Answers, Worker, run_classification, get_stored}
use agentic_autoscaler.Classifier.Worker.Outcome.{
  get_stored-some, IsAdmissible, IsAdmitted, Ends, run_classification-Ends,
}
use agentic_autoscaler.Classifier.Worker.Loop.{
  Loop, Move, Removal, classify_in, enter, serve_reclassify, serve_generation,
  remove_reclassify_annotation, step, strip_after, should_run_on_generation, get_or_else,
  without_params,
}

-- The value of an option, where there is one, satisfies `P`.
abbrev pub OnSome {ℓ κ} : {A : Type ℓ} → (A → Type κ) → Option A → Type κ
OnSome P none = Unit
OnSome P (some a) = P a

module _ {ℓ κ} {F : Type ℓ} ⦃f : Float64 F⦄ {T : Type κ} ⦃t : GoTime T⦄ where
  pub guard_move-OnSome {ι} :
      (P : Loop F T → Type ι) (b : Bool) (l : Loop F T)
      → (b ≡ true → P l)
      → OnSome P (if b then some l else none)
  guard_move-OnSome P true l h = h refl
  guard_move-OnSome P false l h = tt

  abbrev pub stripped : AgenticAutoscaler F T → AgenticAutoscaler F T
  stripped aas = record aas { annotations = delete Reasoning.annotation_reclassify aas.annotations }

  pub remove_reclassify_annotation-cases :
      (answers : Removal) (w : Worker F T)
      → (remove_reclassify_annotation answers w ≡ w)
        ⊎ ((aas : AgenticAutoscaler F T) × (w.stored ≡ some aas)
            × (remove_reclassify_annotation answers w ≡ record w { stored = some (stripped aas) }))
  unfolding remove_reclassify_annotation
  remove_reclassify_annotation-cases answers w =
      elim (Option-cases (get_stored answers.get_error w.stored)) [
        | inl missing ↦ inl (simp (remove_reclassify_annotation, missing))
        | inr (aas, there) ↦
            elim (Option-cases (lookup Reasoning.annotation_reclassify aas.annotations)) [
              | inl absent ↦ inl (simp (remove_reclassify_annotation, there, absent))
              | inr (v, present) ↦ elim (Option-cases answers.update_error) [
                | inl fine ↦ inr (
                  aas,
                  get_stored-some answers.get_error w.stored aas there,
                  simp (remove_reclassify_annotation, there, present, fine),
                )
                | inr (e, refused) ↦
                    inl (simp (remove_reclassify_annotation, there, present, refused))
              ]
            ]
      ]

module _ {ℓ κ} {F : Type ℓ} {T : Type κ} where
  -- The parameters of the resource, if it is there and has any, satisfy `Good`.
  abbrev pub HasGood {ι} : (ClassifiedParams F T → Type ι) → Option (AgenticAutoscaler F T) → Type ι
  HasGood Good stored = OnSome (λ aas. OnSome Good aas.status.classified_params) stored

  pub HasGood-weaken {ι} :
      {P Q : ClassifiedParams F T → Type ι} (o : Option (AgenticAutoscaler F T))
      → ((cp : ClassifiedParams F T) → P cp → Q cp)
      → HasGood P o
      → HasGood Q o
  HasGood-weaken none weaker h = tt
  HasGood-weaken {P} {Q} (some aas) weaker h =
      elim aas.status.classified_params as (λ o. OnSome P o → OnSome Q o) [
        | none ↦ λ h. tt
        | some cp ↦ λ h. weaker cp h
      ]
        h

module _ {ℓ κ ι} {F : Type ℓ} {T : Type κ} (Good : ClassifiedParams F T → Type ι) where
  -- A change that keeps the parameters.
  pub map-HasGood :
      (g : AgenticAutoscaler F T → AgenticAutoscaler F T) (o : Option (AgenticAutoscaler F T))
      → ((aas : AgenticAutoscaler F T)
          → (g aas).status.classified_params ≡ aas.status.classified_params)
      → HasGood Good o
      → HasGood Good (Optional.map g o)
  map-HasGood g none same old = tt
  map-HasGood g (some aas) same old = subst (OnSome Good) (sym (same aas)) old

  pub created-HasGood :
      (aas : AgenticAutoscaler F T) (o : Option (AgenticAutoscaler F T))
      → HasGood Good o
      → HasGood Good (some (get_or_else (without_params aas) o))
  created-HasGood aas none old = tt
  created-HasGood aas (some x) old = old

module _ {ℓ κ ι} {F : Type ℓ} ⦃f : Float64 F⦄ {T : Type κ} ⦃t : GoTime T⦄ (s : Setup F)
    (Good : ClassifiedParams F T → Type ι)
    (good_of : (cp : ClassifiedParams F T) → IsAdmissible s cp → Good cp) where
  Ends-HasGood :
      (a : Answers F T) (w : Worker F T) (r : Flow Bool × Worker F T)
      → Ends s a w r
      → HasGood Good w.stored
      → HasGood Good r.1.stored
  Ends-HasGood a w (Flow.next true, after) (at, (aas, cp, there, put, now, good)) old =
      rw put (good_of cp good)
  Ends-HasGood a w (Flow.next false, after) (same, at) old = subst (HasGood Good) (sym same) old
  Ends-HasGood a w (Flow.stop e, after) (same, at) old = subst (HasGood Good) (sym same) old

  run-HasGood :
      (guard : F) (a : Answers F T) (w : Worker F T)
      → IsAdmitted s
      → HasGood Good w.stored
      → HasGood Good (run_classification guard s a w).1.stored
  run-HasGood guard a w bounds old =
      Ends-HasGood a w _ (run_classification-Ends guard s a w bounds) old

  removed-HasGood :
      (answers : Removal) (w : Worker F T)
      → HasGood Good w.stored
      → HasGood Good (remove_reclassify_annotation answers w).stored
  removed-HasGood answers w old = elim (remove_reclassify_annotation-cases answers w) [
    | inl same ↦ subst (λ v. HasGood Good v.stored) (sym same) old
    | inr (aas, there, done) ↦
        subst (λ v. HasGood Good v.stored) (sym done) (subst (HasGood Good) there old)
  ]

  stripped-HasGood :
      (answers : Removal) (flow : Flow Bool) (w : Worker F T)
      → HasGood Good w.stored
      → HasGood Good (strip_after answers flow w).stored
  unfolding strip_after
  stripped-HasGood answers (Flow.next true) w old = removed-HasGood answers w old
  stripped-HasGood answers (Flow.next false) w old = old
  stripped-HasGood answers (Flow.stop e) w old = old

  generation-HasGood :
      (guard : F) (now : T) (a : Answers F T) (l : Loop F T)
      → IsAdmitted s
      → HasGood Good l.worker.stored
      → HasGood Good (serve_generation guard s now a l).worker.stored
  unfolding serve_generation classify_in
  generation-HasGood guard now a l bounds old =
      elim (Bool-cases (should_run_on_generation s now l.worker)) [
        | inl runs ↦ rw (serve_generation, runs) (run-HasGood guard a l.worker bounds old)
        | inr deduped ↦ rw (serve_generation, deduped) old
      ]

  -- The stored resource of a loop has good parameters, or none.
  abbrev pub HoldsGood : Loop F T → Type ι
  HoldsGood l = HasGood Good l.worker.stored

  pub step-HoldsGood :
      (guard : F)
      → IsAdmitted s
      → (m : Move F T) (l : Loop F T) → HoldsGood l
      → OnSome HoldsGood (step guard s m l)
  unfolding step enter classify_in serve_reclassify
  step-HoldsGood guard bounds (Move.begin a) l h =
      guard_move-OnSome HoldsGood _ _ (λ _. run-HasGood guard a l.worker bounds h)
  step-HoldsGood guard bounds (Move.tick a) l h =
      guard_move-OnSome HoldsGood _ _ (λ _. run-HasGood guard a l.worker bounds h)
  step-HoldsGood guard bounds (Move.reclassify a answers) l h =
      guard_move-OnSome HoldsGood _ _
        (λ _. stripped-HasGood answers _ _ (run-HasGood guard a l.worker bounds h))
  step-HoldsGood guard bounds (Move.generation now a) l h =
      guard_move-OnSome HoldsGood _ _ (λ _. generation-HasGood guard now a l bounds h)
  step-HoldsGood guard bounds Move.resume l h = guard_move-OnSome HoldsGood _ _ (λ _. h)
  step-HoldsGood guard bounds Move.leave l h = guard_move-OnSome HoldsGood _ _ (λ _. h)
  step-HoldsGood guard bounds Move.signal_reclassify l h = h
  step-HoldsGood guard bounds Move.signal_generation l h = h
  step-HoldsGood guard bounds Move.cancel l h = h
  step-HoldsGood guard bounds (Move.edit spec annotations being_deleted) l h =
      map-HasGood Good _ l.worker.stored (λ aas. refl) h
  step-HoldsGood guard bounds (Move.set_status st) l h =
      map-HasGood Good _ l.worker.stored (λ aas. refl) h
  step-HoldsGood guard bounds (Move.create aas) l h = created-HasGood Good aas l.worker.stored h
  step-HoldsGood guard bounds Move.remove l h = tt

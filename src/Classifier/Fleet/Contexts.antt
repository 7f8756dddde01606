-- ===== src/Classifier/Fleet/Contexts.antt =====
-- The workers' contexts, and the cancellations of the manager.
use agentic_autoscaler.Prelude.{
  ℕ, ◌≡◌, refl, sym, ◌∙◌, ap, true, false, Bool-cases, eqb, eqb_iff, if◌then◌else◌, Option, some,
  none, Option-cases, inl, inr, List, [], ◌∷◌, All,
}
use mathlib.Core.Path.{subst}
use agentic_autoscaler.Go.Float.{Float64}
use agentic_autoscaler.Go.Time.{GoTime}
use agentic_autoscaler.Go.Map.{lookup}
use agentic_autoscaler.Api.{NamespacedName, name_key, AgenticAutoscaler}
use agentic_autoscaler.Classifier.Manager.{
  Start, WorkerHandle, Manager, start_of, ensure, stop_worker, signal_reclassify,
  observe_deployment_revision,
}
use agentic_autoscaler.Classifier.Manager.Running.{
  is_cancelled, Reaches, ensure-none, rewritten, received,
}
use agentic_autoscaler.Classifier.Manager.Numbers.{reach-IsNumbered, fresh-not_cancelled}
use agentic_autoscaler.Classifier.Worker.{Setup, Answers}
use agentic_autoscaler.Classifier.Worker.Stored.{OnSome, guard_move-OnSome}
use agentic_autoscaler.Classifier.Worker.Loop.{
  Loop, Move, classify_in, enter, serve_reclassify, serve_generation, should_run_on_generation,
  new_loop, step,
}
use agentic_autoscaler.Classifier.Fleet.{
  Crew, Fleet, Act, setup_of, is_own, is_write, noticed, all_notice, find, replace, facing, moved,
  wrote, ensured, worked, act,
}

rewritten-cancelled :
    (write : WorkerHandle → WorkerHandle) (key : NamespacedName) (m : Manager)
    (o : Option WorkerHandle)
    → (rewritten write key m o).cancelled ≡ m.cancelled
rewritten-cancelled write key m none = refl
rewritten-cancelled write key m (some h) = refl

module _ {ℓ κ} {F : Type ℓ} {T : Type κ} where
  -- The loop of a worker sees whether the manager has cancelled it.
  abbrev pub IsSeen : List ℕ → Crew F T → Type 0
  IsSeen cancelled c = c.loop.cancelled ≡ is_cancelled c.start.id cancelled

  noticed-cancelled :
      (m : Manager) (x : Start) (o : Option WorkerHandle) (l : Loop F T)
      → (noticed m x o l).cancelled ≡ is_cancelled x.id m.cancelled
  noticed-cancelled m x none l = refl
  noticed-cancelled m x (some h) l = refl

  all_notice-AllSeen :
      (m : Manager) (cs : List (Crew F T)) → All (IsSeen m.cancelled) (all_notice m cs)
  all_notice-AllSeen m [] = tt
  all_notice-AllSeen m (c ∷ cs) =
      (noticed-cancelled m c.start (lookup c.start.key m.workers) c.loop, all_notice-AllSeen m cs)

  found-IsSeen :
      (cancelled : List ℕ) (id : ℕ) (cs : List (Crew F T))
      → All (IsSeen cancelled) cs
      → OnSome (IsSeen cancelled) (find id cs)
  found-IsSeen cancelled id [] all = tt
  found-IsSeen cancelled id (c ∷ cs) all =
      elim (eqb c.start.id id)
        as (λ b. OnSome (IsSeen cancelled) (if b then some c else find id cs)) [
          | true ↦ all.0
          | false ↦ found-IsSeen cancelled id cs all.1
        ]

  replaced-AllSeen :
      (cancelled : List ℕ) (id : ℕ) (l : Loop F T) (cs : List (Crew F T))
      → l.cancelled ≡ is_cancelled id cancelled
      → All (IsSeen cancelled) cs
      → All (IsSeen cancelled) (replace id l cs)
  replaced-AllSeen cancelled id l [] own all = tt
  replaced-AllSeen cancelled id l (c ∷ cs) own all = (
    elim (Bool-cases (eqb c.start.id id)) [
      | inl same ↦
          rw same (own ∙ ap (λ n. is_cancelled n cancelled) (sym ((eqb_iff c.start.id id).0 same)))
      | inr other ↦ rw other all.0
    ],
    replaced-AllSeen cancelled id l cs own all.1,
  )

  moved-AllSeen :
      (v : Fleet F T) (x : Start) (o : Option (Loop F T))
      → OnSome (λ l. l.cancelled ≡ is_cancelled x.id v.manager.cancelled) o
      → All (IsSeen v.manager.cancelled) v.crews
      → All (IsSeen (moved v x o).manager.cancelled) (moved v x o).crews
  moved-AllSeen v x none own all = all
  moved-AllSeen v x (some l) own all =
      subst (λ gone. All (IsSeen gone) (replace x.id l v.crews))
        (sym (
          rewritten-cancelled (received x.id l.reclassify_ch l.generation_ch) x.key v.manager
            (lookup x.key v.manager.workers)))
        (replaced-AllSeen v.manager.cancelled x.id l v.crews own all)

  wrote-AllSeen :
      (v : Fleet F T) (key : NamespacedName) (o : Option (Loop F T))
      → All (IsSeen v.manager.cancelled) v.crews
      → All (IsSeen (wrote v key o).manager.cancelled) (wrote v key o).crews
  wrote-AllSeen v key none all = all
  wrote-AllSeen v key (some l) all = all

module _ {ℓ κ} {F : Type ℓ} ⦃f : Float64 F⦄ {T : Type κ} ⦃t : GoTime T⦄ (guard : F) where
  generation-cancelled :
      (s : Setup F) (now : T) (a : Answers F T) (l : Loop F T)
      → (serve_generation guard s now a l).cancelled ≡ l.cancelled
  unfolding serve_generation classify_in
  generation-cancelled s now a l = elim (Bool-cases (should_run_on_generation s now l.worker)) [
    | inl runs ↦ rw (serve_generation, runs) refl
    | inr deduped ↦ rw (serve_generation, deduped) refl
  ]

  abbrev HasContext : Loop F T → Loop F T → Type 0
  HasContext l n = n.cancelled ≡ l.cancelled

  -- A worker's own move does not touch its context.
  step-cancelled :
      (s : Setup F) (m : Move F T) (l : Loop F T)
      → is_own m ≡ true
      → OnSome (HasContext l) (step guard s m l)
  unfolding step enter classify_in serve_reclassify
  step-cancelled s (Move.begin a) l own = guard_move-OnSome (HasContext l) _ _ (λ _. refl)
  step-cancelled s (Move.tick a) l own = guard_move-OnSome (HasContext l) _ _ (λ _. refl)
  step-cancelled s (Move.reclassify a answers) l own =
      guard_move-OnSome (HasContext l) _ _ (λ _. refl)
  step-cancelled s (Move.generation now a) l own =
      guard_move-OnSome (HasContext l) _ _ (λ _. generation-cancelled s now a l)
  step-cancelled s Move.resume l own = guard_move-OnSome (HasContext l) _ _ (λ _. refl)
  step-cancelled s Move.leave l own = guard_move-OnSome (HasContext l) _ _ (λ _. refl)
  step-cancelled s Move.signal_reclassify l own = refl
  step-cancelled s Move.signal_generation l own = refl
  step-cancelled s Move.cancel l own = absurd (cc own)
  step-cancelled s (Move.edit spec annotations being_deleted) l own = refl
  step-cancelled s (Move.set_status st) l own = refl
  step-cancelled s (Move.create aas) l own = refl
  step-cancelled s Move.remove l own = refl

module _ {ℓ κ} {F : Type ℓ} ⦃f : Float64 F⦄ {T : Type κ} ⦃t : GoTime T⦄ (guard : F)
    (base : Setup F) where
  abbrev pub AllSeen : Fleet F T → Type 0
  AllSeen v = All (IsSeen v.manager.cancelled) v.crews

  ensured-AllSeen :
      (aas : AgenticAutoscaler F T) (v : Fleet F T)
      → Reaches F T v.manager
      → AllSeen v
      → AllSeen (ensured guard base aas (lookup aas.key v.manager.workers) v)
  unfolding ensured start_of new_loop
  ensured-AllSeen aas v r all = elim (Option-cases (lookup aas.key v.manager.workers)) [
    | inr (h, held) ↦ rw held all
    | inl missing ↦ rw missing (
      sym (
          ap (λ m. is_cancelled v.manager.next_id m.cancelled) (ensure-none aas v.manager missing)
          ∙ fresh-not_cancelled v.manager (reach-IsNumbered v.manager r)),
      all_notice-AllSeen (ensure aas v.manager) v.crews,
    )
  ]

  worked-AllSeen :
      (move : Move F T) (v : Fleet F T) (o : Option (Crew F T))
      → is_own move ≡ true
      → OnSome (IsSeen v.manager.cancelled) o
      → AllSeen v
      → AllSeen (worked guard base move v o)
  unfolding worked
  worked-AllSeen move v none own seen all = all
  worked-AllSeen move v (some c) own seen all =
      moved-AllSeen v c.start (step guard (setup_of base c.start) move (facing v c))
        (subst
          (λ b.
            OnSome (λ l. l.cancelled ≡ b) (step guard (setup_of base c.start) move (facing v c)))
          seen (step-cancelled guard (setup_of base c.start) move (facing v c) own))
        all

  pub act-AllSeen :
      (a : Act F T) (v : Fleet F T)
      → Reaches F T v.manager
      → AllSeen v
      → AllSeen (act guard base a v)
  unfolding act
  act-AllSeen (Act.ensures aas) v r all = ensured-AllSeen aas v r all
  act-AllSeen (Act.stops key) v r all = all_notice-AllSeen (stop_worker key v.manager) v.crews
  act-AllSeen (Act.signals key) v r all =
      all_notice-AllSeen (signal_reclassify false key v.manager) v.crews
  act-AllSeen (Act.observes key revision) v r all =
      all_notice-AllSeen (observe_deployment_revision false key revision v.manager).0 v.crews
  act-AllSeen (Act.works id move) v r all = elim (Bool-cases (is_own move)) [
    | inl own ↦ rw own (
        worked-AllSeen move v (find id v.crews) own
          (found-IsSeen v.manager.cancelled id v.crews all) all)
    | inr other ↦ rw other all
  ]
  act-AllSeen (Act.writes key move) v r all = elim (Bool-cases (is_write move)) [
    | inl write ↦
        rw write (wrote-AllSeen v key (step guard base move (new_loop (lookup key v.stored))) all)
    | inr other ↦ rw other all
  ]

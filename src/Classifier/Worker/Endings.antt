-- ===== src/Classifier/Worker/Endings.antt =====
-- What becomes of a pending signal.
use agentic_autoscaler.Prelude.{◌≡◌, true, List, ◌∷◌, All, Bool-cases, inl, inr}
use agentic_autoscaler.Go.Float.{Float64}
use agentic_autoscaler.Go.Time.{GoTime}
use agentic_autoscaler.Classifier.Worker.{Setup, Answers}
use agentic_autoscaler.Classifier.Worker.Stored.{OnSome, guard_move-OnSome}
use agentic_autoscaler.Classifier.Worker.Runs.{run_moves-keeps_each, IsSlot, pushed-IsSlot}
use agentic_autoscaler.Classifier.Worker.Loop.{
  should_run_on_generation, Loop, Move, classify_in, enter, serve_generation, step, run_moves,
  pending,
}

module _ {ℓ κ} {F : Type ℓ} ⦃f : Float64 F⦄ {T : Type κ} ⦃t : GoTime T⦄ (guard : F)
    (s : Setup F) where
  abbrev pub IsNotServing : Move F T → Type 0
  IsNotServing (Move.reclassify a answers) = ⊥
  IsNotServing _ = Unit

  -- One reclassify signal is pending.
  abbrev pub IsPending : Loop F T → Type 0
  IsPending l = IsSlot l.reclassify_ch × (pending l.reclassify_ch ≡ true)

  generation-IsPending :
      (now : T) (a : Answers F T) (l : Loop F T)
      → IsPending l
      → IsPending (serve_generation guard s now a l)
  unfolding serve_generation classify_in
  generation-IsPending now a l p = elim (Bool-cases (should_run_on_generation s now l.worker)) [
    | inl runs ↦ rw (serve_generation, runs) p
    | inr deduped ↦ rw (serve_generation, deduped) p
  ]

  step-IsPending :
      (m : Move F T) (l : Loop F T)
      → IsNotServing m
      → IsPending l
      → OnSome IsPending (step guard s m l)
  unfolding step enter classify_in
  step-IsPending (Move.begin a) l q p = guard_move-OnSome IsPending _ _ (λ _. p)
  step-IsPending (Move.tick a) l q p = guard_move-OnSome IsPending _ _ (λ _. p)
  step-IsPending (Move.reclassify a answers) l q p = absurd q
  step-IsPending (Move.generation now a) l q p =
      guard_move-OnSome IsPending _ _ (λ _. generation-IsPending now a l p)
  step-IsPending Move.resume l q p = guard_move-OnSome IsPending _ _ (λ _. p)
  step-IsPending Move.leave l q p = guard_move-OnSome IsPending _ _ (λ _. p)
  step-IsPending Move.signal_reclassify l q p = pushed-IsSlot l.reclassify_ch p.0
  step-IsPending Move.signal_generation l q p = p
  step-IsPending Move.cancel l q p = p
  step-IsPending (Move.edit spec annotations being_deleted) l q p = p
  step-IsPending (Move.set_status st) l q p = p
  step-IsPending (Move.create aas) l q p = p
  step-IsPending Move.remove l q p = p

  -- A reclassify signal is not lost: from a channel of capacity 1 within it, after the signal and until
  -- the worker serves one, exactly one is pending, whatever else happens, panics and the end of the
  -- context included.
  pub signal_reclassify-IsPending :
      (l : Loop F T) (ms : List (Move F T))
      → IsSlot l.reclassify_ch
      → All IsNotServing ms
      → OnSome IsPending (run_moves guard s (Move.signal_reclassify ∷ ms) l)
  unfolding run_moves step
  signal_reclassify-IsPending l ms slot others =
      run_moves-keeps_each guard s IsNotServing IsPending step-IsPending ms _ others
        (pushed-IsSlot l.reclassify_ch slot)

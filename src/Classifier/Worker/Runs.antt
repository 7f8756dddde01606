-- ===== src/Classifier/Worker/Runs.antt =====
-- What holds over every sequence of moves of a worker and its surroundings.
use agentic_autoscaler.Prelude.{
  ◌≤◌, ◌≡◌, inl, inr, refl, true, false, Bool-cases, arith, Option, some, none, List, [], ◌∷◌,
  length, All,
}
use agentic_autoscaler.Go.Float.{Float64}
use agentic_autoscaler.Go.Time.{GoTime}
use agentic_autoscaler.Go.Channel.{Channel, try_receive, rest}
use agentic_autoscaler.Api.{AgenticAutoscaler}
use agentic_autoscaler.Classifier.Manager.{Signal}
use agentic_autoscaler.Controller.Notifier.{drop_and_push, notify-newest}
use agentic_autoscaler.Classifier.Worker.{Setup, Answers}
use agentic_autoscaler.Classifier.Worker.Outcome.{IsAdmissible, IsAdmitted}
use agentic_autoscaler.Classifier.Worker.Stored.{OnSome, guard_move-OnSome, HasGood, step-HoldsGood}
use agentic_autoscaler.Classifier.Worker.Loop.{
  Loop, Move, classify_in, enter, serve_reclassify, serve_generation, step, run_moves, new_loop,
  pending, should_run_on_generation,
}

module _ {ℓ κ} {F : Type ℓ} ⦃f : Float64 F⦄ {T : Type κ} ⦃t : GoTime T⦄ where
  -- A property that each of the moves keeps holds after their run.
  pub run_moves-keeps_each {ι ο} :
      (guard : F) (s : Setup F) (Q : Move F T → Type ο) (P : Loop F T → Type ι)
      → ((m : Move F T) (l : Loop F T) → Q m → P l → OnSome P (step guard s m l))
      → (ms : List (Move F T)) (l : Loop F T) → All Q ms
      → P l
      → OnSome P (run_moves guard s ms l)
  unfolding run_moves
  run_moves-keeps_each guard s Q P keeps [] l q p = p
  run_moves-keeps_each guard s Q P keeps (m ∷ ms) l (q, qs) p =
      elim (step guard s m l)
          as (λ o.
            OnSome P o → OnSome P (elim o [ none ↦ none | some l1 ↦ run_moves guard s ms l1 ])) [
              | none ↦ λ _. tt
              | some l1 ↦ λ p1. run_moves-keeps_each guard s Q P keeps ms l1 qs p1
            ]
        (keeps m l q p)

  any_move : (ms : List (Move F T)) → All (λ m. Unit {0}) ms
  any_move [] = tt
  any_move (m ∷ ms) = (tt, any_move ms)

  pub run_moves-keeps {ι} :
      (guard : F) (s : Setup F) (P : Loop F T → Type ι)
      → ((m : Move F T) (l : Loop F T) → P l → OnSome P (step guard s m l))
      → (ms : List (Move F T)) (l : Loop F T) → P l
      → OnSome P (run_moves guard s ms l)
  run_moves-keeps guard s P keeps ms l p =
      run_moves-keeps_each guard s (λ m. Unit {0}) P (λ m n _ h. keeps m n h) ms l (any_move ms) p

-- A channel of capacity 1 within it.
abbrev pub IsSlot : Channel Signal → Type 0
IsSlot ch = (ch.limit ≡ 1) × (length ch.queue ≤ 1)

pub pushed-IsSlot :
    (ch : Channel Signal)
    → IsSlot ch
    → IsSlot (drop_and_push false tt ch) × (pending (drop_and_push false tt ch) ≡ true)
unfolding drop_and_push
pushed-IsSlot ch (one, few) = ground (arith, notify-newest false tt ch one few)

length-rest : (xs : List Signal) → length (rest xs) ≤ length xs
length-rest [] = omega arith
length-rest (x ∷ xs) = omega arith

received-IsSlot : (ch : Channel Signal) → IsSlot ch → IsSlot (try_receive ch)
unfolding try_receive
received-IsSlot ch (one, few) = (one, omega (arith, length-rest ch.queue))

module _ {ℓ κ} {F : Type ℓ} ⦃f : Float64 F⦄ {T : Type κ} ⦃t : GoTime T⦄ where
  -- The parameters of the resource, if it is there and has any, are admissible.
  abbrev pub HasAdmissible : Setup F → Option (AgenticAutoscaler F T) → Type 0
  HasAdmissible s = HasGood (IsAdmissible s)

  abbrev HasSlots : Loop F T → Type 0
  HasSlots l = IsSlot l.reclassify_ch × IsSlot l.generation_ch

  abbrev pub IsSafe : Setup F → Loop F T → Type 0
  IsSafe s l = IsSlot l.reclassify_ch × IsSlot l.generation_ch × HasAdmissible s l.worker.stored

  generation-HasSlots :
      (guard : F) (s : Setup F) (now : T) (a : Answers F T) (l : Loop F T)
      → HasSlots l
      → HasSlots (serve_generation guard s now a l)
  unfolding serve_generation classify_in
  generation-HasSlots guard s now a l (r, g) =
      elim (Bool-cases (should_run_on_generation s now l.worker)) [
        | inl runs ↦ rw (serve_generation, runs) (r, received-IsSlot l.generation_ch g)
        | inr deduped ↦ rw (serve_generation, deduped) (r, received-IsSlot l.generation_ch g)
      ]

  step-HasSlots :
      (guard : F) (s : Setup F) (m : Move F T) (l : Loop F T)
      → HasSlots l
      → OnSome HasSlots (step guard s m l)
  unfolding step enter classify_in serve_reclassify
  step-HasSlots guard s (Move.begin a) l h = guard_move-OnSome HasSlots _ _ (λ _. h)
  step-HasSlots guard s (Move.tick a) l h = guard_move-OnSome HasSlots _ _ (λ _. h)
  step-HasSlots guard s (Move.reclassify a answers) l (r, g) =
      guard_move-OnSome HasSlots _ _ (λ _. (received-IsSlot l.reclassify_ch r, g))
  step-HasSlots guard s (Move.generation now a) l h =
      guard_move-OnSome HasSlots _ _ (λ _. generation-HasSlots guard s now a l h)
  step-HasSlots guard s Move.resume l h = guard_move-OnSome HasSlots _ _ (λ _. h)
  step-HasSlots guard s Move.leave l h = guard_move-OnSome HasSlots _ _ (λ _. h)
  step-HasSlots guard s Move.signal_reclassify l (r, g) = ((pushed-IsSlot l.reclassify_ch r).0, g)
  step-HasSlots guard s Move.signal_generation l (r, g) = (r, (pushed-IsSlot l.generation_ch g).0)
  step-HasSlots guard s Move.cancel l h = h
  step-HasSlots guard s (Move.edit spec annotations being_deleted) l h = h
  step-HasSlots guard s (Move.set_status st) l h = h
  step-HasSlots guard s (Move.create aas) l h = h
  step-HasSlots guard s Move.remove l h = h

  both-IsSafe :
      (s : Setup F) (o : Option (Loop F T))
      → OnSome HasSlots o
      → OnSome (λ l. HasAdmissible s l.worker.stored) o
      → OnSome (IsSafe s) o
  both-IsSafe s none slots good = tt
  both-IsSafe s (some l) (r, g) good = (r, g, good)

  step-IsSafe :
      (guard : F) (s : Setup F)
      → IsAdmitted s
      → (m : Move F T) (l : Loop F T) → IsSafe s l
      → OnSome (IsSafe s) (step guard s m l)
  step-IsSafe guard s bounds m l (r, g, h) =
      both-IsSafe s (step guard s m l) (step-HasSlots guard s m l (r, g))
        (step-HoldsGood s (IsAdmissible s) (λ cp good. good) guard bounds m l h)

  -- For replica bounds that the webhook admits, and a resource whose parameters are admissible if it
  -- has any: whatever a worker and its surroundings do, in any order, the resource's parameters stay
  -- admissible, and each signal channel holds at most one signal.
  pub run_moves-IsSafe :
      (guard : F) (s : Setup F) (stored : Option (AgenticAutoscaler F T)) (ms : List (Move F T))
      → IsAdmitted s
      → HasAdmissible s stored
      → OnSome (IsSafe s) (run_moves guard s ms (new_loop stored))
  unfolding new_loop
  run_moves-IsSafe guard s stored ms bounds old =
      run_moves-keeps guard s (IsSafe s) (step-IsSafe guard s bounds) ms (new_loop stored)
        ((refl, omega arith), (refl, omega arith), old)

-- ===== src/Classifier/Fleet/Starts.antt =====
-- The starts of the manager and those of the workers, across the fleet's changes.
use agentic_autoscaler.Prelude.{
  ℕ, String, ◌≡◌, refl, sym, ◌==◌, true, false, eqb, if◌then◌else◌, Option, some, none, List, [],
  ◌∷◌, All,
}
use mathlib.Core.Path.{subst}
use mathlib.Core.List.{Memᴰ}
use agentic_autoscaler.Go.Map.{Map, lookup, lookup-insert, lookup-delete}
use agentic_autoscaler.Api.{NamespacedName, name_key, AgenticAutoscaler}
use agentic_autoscaler.Classifier.Manager.{
  Start, WorkerHandle, Manager, signal_reclassify, observe_deployment_revision,
}
use agentic_autoscaler.Classifier.Manager.Running.{rewritten, signal-rewritten, observe-rewritten}
use agentic_autoscaler.Classifier.Worker.Stored.{OnSome}
use agentic_autoscaler.Classifier.Worker.Loop.{Loop}
use agentic_autoscaler.Classifier.Fleet.{Crew, all_notice, find, replace, put_back}

-- Starts are never forgotten.
abbrev pub IsLater : Manager → Manager → Type 0
IsLater m n = (x : Start) → Memᴰ x m.started → Memᴰ x n.started

pub same-IsLater : (m n : Manager) → n.started ≡ m.started → IsLater m n
same-IsLater m n e x mem = subst (Memᴰ x) (sym e) mem

pub rewritten-started :
    (write : WorkerHandle → WorkerHandle) (key : NamespacedName) (m : Manager)
    (o : Option WorkerHandle)
    → (rewritten write key m o).started ≡ m.started
rewritten-started write key m none = refl
rewritten-started write key m (some h) = refl

pub rewritten-IsLater :
    (write : WorkerHandle → WorkerHandle) (key : NamespacedName) (m : Manager)
    → IsLater m (rewritten write key m (lookup key m.workers))
rewritten-IsLater write key m =
    same-IsLater m (rewritten write key m (lookup key m.workers))
      (rewritten-started write key m (lookup key m.workers))

pub signal-IsLater :
    (key : NamespacedName) (m : Manager) → IsLater m (signal_reclassify false key m)
signal-IsLater key m =
    subst (IsLater m) (sym (signal-rewritten false key m)) (rewritten-IsLater _ key m)

pub observe-IsLater :
    (key : NamespacedName) (revision : String) (m : Manager)
    → IsLater m (observe_deployment_revision false key revision m).0
observe-IsLater key revision m =
    subst (IsLater m) (sym (observe-rewritten false key revision m)) (rewritten-IsLater _ key m)

module _ {ℓ κ} {F : Type ℓ} {T : Type κ} where
  -- What holds of the starts of the crews holds of them after a change of their loops.
  abbrev pub AllStarts : (Start → Type 0) → List (Crew F T) → Type 0
  AllStarts P cs = All (λ c. P c.start) cs

  pub noticed-AllStarts :
      (P : Start → Type 0) (m : Manager) (cs : List (Crew F T))
      → AllStarts P cs
      → AllStarts P (all_notice m cs)
  noticed-AllStarts P m [] all = tt
  noticed-AllStarts P m (c ∷ cs) all = (all.0, noticed-AllStarts P m cs all.1)

  pub replaced-AllStarts :
      (P : Start → Type 0) (id : ℕ) (l : Loop F T) (cs : List (Crew F T))
      → AllStarts P cs
      → AllStarts P (replace id l cs)
  replaced-AllStarts P id l [] all = tt
  replaced-AllStarts P id l (c ∷ cs) all = (all.0, replaced-AllStarts P id l cs all.1)

  pub found-OnSome :
      (P : Start → Type 0) (id : ℕ) (cs : List (Crew F T))
      → AllStarts P cs
      → OnSome (λ c. P c.start) (find id cs)
  found-OnSome P id [] all = tt
  found-OnSome P id (c ∷ cs) all =
      elim (eqb c.start.id id)
        as (λ b. OnSome (λ d. P d.start) (if b then some c else find id cs)) [
          | true ↦ all.0
          | false ↦ found-OnSome P id cs all.1
        ]

  pub lookup-put_back :
      (key j : NamespacedName) (o : Option (AgenticAutoscaler F T))
      (resources : Map NamespacedName (AgenticAutoscaler F T))
      → lookup j (put_back key o resources) ≡ (if j == key then o else lookup j resources)
  lookup-put_back key j none resources = lookup-delete key j resources
  lookup-put_back key j (some aas) resources = lookup-insert key j aas resources

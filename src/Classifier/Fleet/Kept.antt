-- ===== src/Classifier/Fleet/Kept.antt =====
-- The resources' parameters, across everything that the fleet and its surroundings do.
use agentic_autoscaler.Prelude.{◌≡◌, ◌⊎◌, sym, ◌==◌, Bool-cases, Option, inl, inr, List, All-map}
use mathlib.Core.Path.{subst}
use mathlib.Core.List.{Memᴰ}
use agentic_autoscaler.Go.Float.{Float64}
use agentic_autoscaler.Go.Time.{GoTime}
use agentic_autoscaler.Go.Map.{Map, lookup}
use agentic_autoscaler.Api.{
  NamespacedName, name_key, same_name_iff, ClassifiedParams, AgenticAutoscaler,
}
use agentic_autoscaler.Classifier.Manager.{Start, Manager, start_of}
use agentic_autoscaler.Classifier.Manager.Running.{Reaches}
use agentic_autoscaler.Classifier.Worker.{Setup}
use agentic_autoscaler.Classifier.Worker.Outcome.{IsAdmissible, IsAdmitted}
use agentic_autoscaler.Classifier.Worker.Stored.{HasGood, HasGood-weaken}
use agentic_autoscaler.Classifier.Fleet.{Fleet, Act, setup_of, manage, put_back}
use agentic_autoscaler.Classifier.Fleet.Starts.{
  IsLater, AllStarts, noticed-AllStarts, lookup-put_back,
}

-- A worker of the manager, with replica bounds that the webhook admits.
abbrev pub IsEnlisted {ℓ} : {F : Type ℓ} → Setup F → List Start → Start → Type 0
IsEnlisted base starts x = Memᴰ x starts × IsAdmitted (setup_of base x)

module _ {ℓ κ} {F : Type ℓ} {T : Type κ} where
  -- The parameters are among the old ones, or were written by a worker that was started for the
  -- resource, and are admissible for the replica bounds that this worker was started with.
  abbrev pub IsBacked :
      Setup F
      → (NamespacedName → ClassifiedParams F T → Type (ℓ ⊔ κ))
      → List Start
      → NamespacedName
      → ClassifiedParams F T
      → Type (ℓ ⊔ κ)
  IsBacked base Old starts key cp =
      Old key cp ⊎ ((x : Start) × Memᴰ x starts × (x.key ≡ key) × IsAdmissible (setup_of base x) cp)

  abbrev pub AllBacked :
      Setup F
      → (NamespacedName → ClassifiedParams F T → Type (ℓ ⊔ κ))
      → List Start
      → Map NamespacedName (AgenticAutoscaler F T)
      → Type (ℓ ⊔ κ)
  AllBacked base Old starts resources =
      (key : NamespacedName) → HasGood (IsBacked base Old starts key) (lookup key resources)

module _ {ℓ κ} {F : Type ℓ} {T : Type κ} (base : Setup F)
    (Old : NamespacedName → ClassifiedParams F T → Type (ℓ ⊔ κ)) where
  pub put_back-AllBacked :
      (starts : List Start) (key : NamespacedName) (o : Option (AgenticAutoscaler F T))
      (resources : Map NamespacedName (AgenticAutoscaler F T))
      → HasGood (IsBacked base Old starts key) o
      → AllBacked base Old starts resources
      → AllBacked base Old starts (put_back key o resources)
  put_back-AllBacked starts key o resources new old j =
      subst (HasGood (IsBacked base Old starts j)) (sym (lookup-put_back key j o resources))
        (elim (Bool-cases (j == key)) [
          | inl same ↦ rw same (
              subst (λ k. HasGood (IsBacked base Old starts k) o)
                (sym ((same_name_iff j key).0 same)) new)
          | inr other ↦ rw other (old j)
        ])

  abbrev pub IsKept : Fleet F T → Type (ℓ ⊔ κ)
  IsKept v =
      Reaches F T v.manager
      × AllStarts (IsEnlisted base v.manager.started) v.crews
      × AllBacked base Old v.manager.started v.stored

  later-IsBacked :
      (m n : Manager) (key : NamespacedName) (cp : ClassifiedParams F T)
      → IsLater m n
      → IsBacked base Old m.started key cp
      → IsBacked base Old n.started key cp
  later-IsBacked m n key cp later (inl old) = inl old
  later-IsBacked m n key cp later (inr (x, mem, own, good)) = inr (x, later x mem, own, good)

  pub later-IsKept :
      (n : Manager) (v : Fleet F T)
      → Reaches F T n
      → IsLater v.manager n
      → IsKept v
      → IsKept (record v { manager = n })
  later-IsKept n v reached later (r, crews, backed) = (
    reached,
    All-map v.crews (λ c p. (later c.start p.0, p.1)) crews,
    λ key.
        HasGood-weaken (lookup key v.stored) (λ cp. later-IsBacked v.manager n key cp later)
          (backed key),
  )

  pub manage-IsKept :
      (n : Manager) (v : Fleet F T)
      → Reaches F T n
      → IsLater v.manager n
      → IsKept v
      → IsKept (manage n v)
  manage-IsKept n v reached later kept =
      let (r, crews, backed) = later-IsKept n v reached later kept in
      (r, noticed-AllStarts (IsEnlisted base n.started) n v.crews crews, backed)

module _ {ℓ κ} {F : Type ℓ} ⦃f : Float64 F⦄ {T : Type κ} ⦃t : GoTime T⦄ (guard : F)
    (base : Setup F) where
  -- Every resource that a worker is started for has replica bounds that the webhook admits.
  abbrev pub IsGranted : Act F T → Type 0
  IsGranted (Act.ensures aas) = IsAdmitted (setup_of base (start_of 0 aas))
  IsGranted _ = Unit {0}

-- ===== src/Classifier/Fleet/Sound.antt =====
-- What holds of the manager, its workers and the resources together, whatever happens in any order.
use agentic_autoscaler.Prelude.{
  ◌≡◌, ◌⊎◌, refl, inl, inr, sym, ◌∙◌, true, false, ◌==◌, Option, some, none, List, [], ◌∷◌, All,
  All-map, All-pair,
}
use mathlib.Core.Path.{subst}
use mathlib.Core.List.{Memᴰ}
use agentic_autoscaler.Go.Float.{Float64}
use agentic_autoscaler.Go.Time.{GoTime}
use agentic_autoscaler.Go.Map.{Map, lookup}
use agentic_autoscaler.Api.{NamespacedName, name_key, ClassifiedParams, AgenticAutoscaler}
use agentic_autoscaler.Classifier.Manager.{Manager, new_manager}
use agentic_autoscaler.Classifier.Manager.Running.{Reaches}
use agentic_autoscaler.Classifier.Manager.Single.{IsApart, reach-AllApart}
use agentic_autoscaler.Classifier.Worker.{Setup}
use agentic_autoscaler.Classifier.Worker.Stored.{OnSome, HasGood}
use agentic_autoscaler.Classifier.Fleet.{Crew, Fleet, Act, act, run_acts, new_fleet}
use agentic_autoscaler.Classifier.Fleet.Kept.{AllBacked, IsEnlisted, IsKept, IsGranted}
use agentic_autoscaler.Classifier.Fleet.Acts.{act-IsKept}
use agentic_autoscaler.Classifier.Fleet.Contexts.{IsSeen, AllSeen, act-AllSeen}

module _ {ℓ} {A : Type ℓ} where
  member-All : (P : A → Type 0) (x : A) (xs : List A) → Memᴰ x xs → All P xs → P x
  member-All P x [] mem all = elim mem [ ]
  member-All P x (y ∷ ys) (Memᴰ.head e) all = subst P (sym e) all.0
  member-All P x (y ∷ ys) (Memᴰ.tail mem) all = member-All P x ys mem all.1

module _ {ℓ κ} {F : Type ℓ} {T : Type κ} where
  -- The context of one of two workers has ended, or they are for different resources, or they have
  -- the same number.
  abbrev pub AreApart : Crew F T → Crew F T → Type 0
  AreApart c d =
      (c.loop.cancelled ≡ true)
      ⊎ (d.loop.cancelled ≡ true)
      ⊎ ((c.start.key == d.start.key) ≡ false)
      ⊎ (c.start.id ≡ d.start.id)

  -- The parameters that a resource had at first.
  abbrev pub WasThere :
      Map NamespacedName (AgenticAutoscaler F T)
      → NamespacedName
      → ClassifiedParams F T
      → Type (ℓ ⊔ κ)
  WasThere resources key cp =
      (aas : AgenticAutoscaler F T) × (lookup key resources ≡ some aas)
      × (aas.status.classified_params ≡ some cp)

  abbrev pub IsSound :
      Setup F → Map NamespacedName (AgenticAutoscaler F T) → Fleet F T → Type (ℓ ⊔ κ)
  IsSound base resources v =
      All (λ c. All (AreApart c) v.crews) v.crews
      × AllBacked base (WasThere resources) v.manager.started v.stored

  seen-AreApart :
      (m : Manager) (c d : Crew F T)
      → IsSeen m.cancelled c
      → IsSeen m.cancelled d
      → IsApart m c.start d.start
      → AreApart c d
  seen-AreApart m c d here there (inl gone) = inl (here ∙ gone)
  seen-AreApart m c d here there (inr (inl gone)) = inr (inl (there ∙ gone))
  seen-AreApart m c d here there (inr (inr rest)) = inr (inr rest)

  crews-AreApart :
      (base : Setup F) (m : Manager) (cs : List (Crew F T))
      → Reaches F T m
      → All (λ c. IsEnlisted base m.started c.start × IsSeen m.cancelled c) cs
      → All (λ c. All (AreApart c) cs) cs
  crews-AreApart base m cs r all =
      All-map cs
        (λ c p.
          All-map cs
            (λ d q. seen-AreApart m c d p.1 q.1 (
              member-All _ d.start m.started q.0.0
                (member-All _ c.start m.started p.0.0 (reach-AllApart m r))))
            all)
        all

  first-HasGood :
      (resources : Map NamespacedName (AgenticAutoscaler F T)) (key : NamespacedName)
      (Q : ClassifiedParams F T → Type (ℓ ⊔ κ)) (o : Option (AgenticAutoscaler F T))
      → ((aas : AgenticAutoscaler F T) (cp : ClassifiedParams F T)
          → o ≡ some aas
          → aas.status.classified_params ≡ some cp
          → Q cp)
      → HasGood Q o
  first-HasGood resources key Q none was = tt
  first-HasGood resources key Q (some aas) was =
      at aas.status.classified_params (λ cp e. was aas cp refl e)
    where
      at :
          (p : Option (ClassifiedParams F T))
          → ((cp : ClassifiedParams F T) → p ≡ some cp → Q cp)
          → OnSome Q p
      at none all = tt
      at (some cp) all = all cp refl

module _ {ℓ κ} {F : Type ℓ} ⦃f : Float64 F⦄ {T : Type κ} ⦃t : GoTime T⦄ (guard : F) (base : Setup F)
    (resources : Map NamespacedName (AgenticAutoscaler F T)) where
  acts-IsSound :
      (acts : List (Act F T)) (v : Fleet F T)
      → All (IsGranted guard base) acts
      → IsKept base (WasThere resources) v
      → AllSeen guard base v
      → IsSound base resources (run_acts guard base acts v)
  unfolding run_acts
  acts-IsSound [] v granted (r, crews, backed) seen =
      (crews-AreApart base v.manager v.crews r (All-pair _ _ v.crews crews seen), backed)
  acts-IsSound (a ∷ acts) v (g, gs) kept seen =
      acts-IsSound acts (act guard base a v) gs
        (act-IsKept guard base (WasThere resources) a v g kept)
        (act-AllSeen guard base a v kept.0 seen)

  -- The manager, its workers and the other clients of the API server act in any order, and a worker
  -- is only started for a resource whose replica bounds the webhook admits. Then of any two workers
  -- for one resource the context of one has ended, or they have the same number; and the parameters
  -- that a resource has are those that it had at first, or were written by a worker that was started
  -- for that resource and are admissible for the replica bounds of that start.
  pub run_acts-IsSound :
      (acts : List (Act F T))
      → All (IsGranted guard base) acts
      → IsSound base resources (run_acts guard base acts (new_fleet resources))
  unfolding new_fleet new_manager
  run_acts-IsSound acts granted =
      acts-IsSound acts (new_fleet resources) granted
        (
          Reaches.at_start,
          tt,
          λ key.
              first-HasGood resources key _ (lookup key resources)
                (λ aas cp there has. inl (aas, there, has)),
        )
        tt

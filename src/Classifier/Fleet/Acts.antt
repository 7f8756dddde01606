-- ===== src/Classifier/Fleet/Acts.antt =====
-- Each act of the fleet keeps what Kept says of the resources' parameters.
use agentic_autoscaler.Prelude.{
  ◌≡◌, refl, sym, ap, true, false, Bool-cases, Option, some, none, Option-cases, inl, inr,
}
use mathlib.Core.Path.{subst}
use mathlib.Core.List.{Memᴰ}
use agentic_autoscaler.Go.Float.{Float64}
use agentic_autoscaler.Go.Time.{GoTime}
use agentic_autoscaler.Go.Map.{lookup}
use agentic_autoscaler.Api.{NamespacedName, name_key, ClassifiedParams, AgenticAutoscaler}
use agentic_autoscaler.Classifier.Manager.{Start, start_of, ensure, stop_worker}
use agentic_autoscaler.Classifier.Manager.Running.{
  Reaches, ensure-none, rewritten, received, stop_worker-started,
}
use agentic_autoscaler.Classifier.Worker.{Setup}
use agentic_autoscaler.Classifier.Worker.Outcome.{IsAdmitted}
use agentic_autoscaler.Classifier.Worker.Stored.{
  OnSome, HasGood, map-HasGood, created-HasGood, step-HoldsGood,
}
use agentic_autoscaler.Classifier.Worker.Loop.{Loop, Move, new_loop, step}
use agentic_autoscaler.Classifier.Fleet.{
  Crew, Fleet, Act, setup_of, is_own, is_write, find, facing, moved, wrote, ensured, worked, act,
}
use agentic_autoscaler.Classifier.Fleet.Starts.{
  same-IsLater, rewritten-started, rewritten-IsLater, signal-IsLater, observe-IsLater,
  replaced-AllStarts, found-OnSome,
}
use agentic_autoscaler.Classifier.Fleet.Kept.{
  IsBacked, IsEnlisted, IsKept, IsGranted, put_back-AllBacked, later-IsKept, manage-IsKept,
}

module _ {ℓ κ} {F : Type ℓ} ⦃f : Float64 F⦄ {T : Type κ} ⦃t : GoTime T⦄ (guard : F) (base : Setup F)
    (Old : NamespacedName → ClassifiedParams F T → Type (ℓ ⊔ κ)) where
  ensured-IsKept :
      (aas : AgenticAutoscaler F T) (v : Fleet F T)
      → IsAdmitted (setup_of base (start_of 0 aas))
      → IsKept base Old v
      → IsKept base Old (ensured guard base aas (lookup aas.key v.manager.workers) v)
  unfolding ensured start_of setup_of
  ensured-IsKept aas v bounds (r, crews0, backed0) =
      elim (Option-cases (lookup aas.key v.manager.workers)) [
        | inr (h, held) ↦ rw held (r, crews0, backed0)
        | inl missing ↦ rw missing (
            let n = ensure aas v.manager in
            let e = ap (λ m. m.started) (ensure-none aas v.manager missing) in
            let (r1, crews, backed) =
              manage-IsKept base Old n v (Reaches.ensures aas v.manager r)
                (λ x mem. subst (Memᴰ x) (sym e) (Memᴰ.tail mem)) (r, crews0, backed0) in
            (r1, ((subst (Memᴰ _) (sym e) (Memᴰ.head refl), bounds), crews), backed))
      ]

  moved-IsKept :
      (v : Fleet F T) (x : Start) (o : Option (Loop F T))
      → IsKept base Old v
      → OnSome (λ l. HasGood (IsBacked base Old v.manager.started x.key) l.worker.stored) o
      → IsKept base Old (moved v x o)
  moved-IsKept v x none kept good = kept
  moved-IsKept v x (some l) (r, crews0, backed0) good =
      let n =
        rewritten (received x.id l.reclassify_ch l.generation_ch) x.key v.manager
          (lookup x.key v.manager.workers) in
      let (r1, crews, backed) =
        later-IsKept base Old n v
          (Reaches.receives x.id l.reclassify_ch l.generation_ch x.key v.manager r)
          (rewritten-IsLater _ x.key v.manager) (r, crews0, backed0) in
      (
        r1,
        replaced-AllStarts (IsEnlisted base n.started) x.id l v.crews crews,
        put_back-AllBacked base Old n.started x.key l.worker.stored v.stored
            (subst (λ starts. HasGood (IsBacked base Old starts x.key) l.worker.stored)
              (sym (rewritten-started _ x.key v.manager (lookup x.key v.manager.workers))) good)
            backed,
      )

  worked-IsKept :
      (move : Move F T) (v : Fleet F T) (o : Option (Crew F T))
      → IsKept base Old v
      → OnSome (λ c. IsEnlisted base v.manager.started c.start) o
      → IsKept base Old (worked guard base move v o)
  unfolding worked
  worked-IsKept move v none kept enlisted = kept
  worked-IsKept move v (some c) (r, crews, backed) (mem, bounds) =
      moved-IsKept v c.start (step guard (setup_of base c.start) move (facing v c))
        (r, crews, backed)
        (step-HoldsGood (setup_of base c.start) (IsBacked base Old v.manager.started c.start.key)
          (λ cp good. inr (c.start, mem, refl, good)) guard bounds move (facing v c)
          (backed c.start.key))

  wrote-IsKept :
      (v : Fleet F T) (key : NamespacedName) (o : Option (Loop F T))
      → IsKept base Old v
      → OnSome (λ l. HasGood (IsBacked base Old v.manager.started key) l.worker.stored) o
      → IsKept base Old (wrote v key o)
  wrote-IsKept v key none kept good = kept
  wrote-IsKept v key (some l) (r, crews, backed) good = (
    r,
    crews,
    put_back-AllBacked base Old v.manager.started key l.worker.stored v.stored good backed,
  )

  -- Another client's write changes no parameters.
  write-HasGood :
      (Good : ClassifiedParams F T → Type (ℓ ⊔ κ)) (move : Move F T)
      (o : Option (AgenticAutoscaler F T))
      → is_write move ≡ true
      → HasGood Good o
      → OnSome (λ l. HasGood Good l.worker.stored) (step guard base move (new_loop o))
  unfolding step new_loop
  write-HasGood Good (Move.edit spec annotations being_deleted) o write old =
      map-HasGood Good _ o (λ aas. refl) old
  write-HasGood Good (Move.set_status st) o write old = map-HasGood Good _ o (λ aas. refl) old
  write-HasGood Good (Move.create aas) o write old = created-HasGood Good aas o old
  write-HasGood Good Move.remove o write old = tt
  write-HasGood Good (Move.begin a) o write old = absurd (cc write)
  write-HasGood Good (Move.tick a) o write old = absurd (cc write)
  write-HasGood Good (Move.reclassify a answers) o write old = absurd (cc write)
  write-HasGood Good (Move.generation now a) o write old = absurd (cc write)
  write-HasGood Good Move.resume o write old = absurd (cc write)
  write-HasGood Good Move.leave o write old = absurd (cc write)
  write-HasGood Good Move.signal_reclassify o write old = absurd (cc write)
  write-HasGood Good Move.signal_generation o write old = absurd (cc write)
  write-HasGood Good Move.cancel o write old = absurd (cc write)

  pub act-IsKept :
      (a : Act F T) (v : Fleet F T)
      → IsGranted guard base a
      → IsKept base Old v
      → IsKept base Old (act guard base a v)
  unfolding act
  act-IsKept (Act.ensures aas) v bounds kept = ensured-IsKept aas v bounds kept
  act-IsKept (Act.stops key) v granted (r, crews0, backed0) =
      manage-IsKept base Old (stop_worker key v.manager) v (Reaches.stops key v.manager r)
        (same-IsLater v.manager (stop_worker key v.manager) (stop_worker-started key v.manager))
        (r, crews0, backed0)
  act-IsKept (Act.signals key) v granted (r, crews0, backed0) =
      manage-IsKept base Old _ v (Reaches.signals false key v.manager r)
        (signal-IsLater key v.manager) (r, crews0, backed0)
  act-IsKept (Act.observes key revision) v granted (r, crews0, backed0) =
      manage-IsKept base Old _ v (Reaches.observes false key revision v.manager r)
        (observe-IsLater key revision v.manager) (r, crews0, backed0)
  act-IsKept (Act.works id move) v granted (r, crews, backed) = elim (Bool-cases (is_own move)) [
    | inl own ↦ rw own (
        worked-IsKept move v (find id v.crews) (r, crews, backed)
          (found-OnSome (IsEnlisted base v.manager.started) id v.crews crews))
    | inr other ↦ rw other (r, crews, backed)
  ]
  act-IsKept (Act.writes key move) v granted (r, crews, backed) =
      elim (Bool-cases (is_write move)) [
        | inl write ↦ rw write (
            wrote-IsKept v key (step guard base move (new_loop (lookup key v.stored)))
              (r, crews, backed) (write-HasGood _ move (lookup key v.stored) write (backed key)))
        | inr other ↦ rw other (r, crews, backed)
      ]

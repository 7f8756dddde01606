-- ===== src/Classifier/Manager/Numbers.antt =====
-- The numbers of the starts that the manager holds and has cancelled.
use agentic_autoscaler.Prelude.{
  ℕ, ◌<◌, ◌≡◌, refl, sym, false, Option, some, none, Option-cases, inl, inr, List, [], ◌∷◌, All,
  arith, All-map,
}
use mathlib.Core.Path.{subst}
use agentic_autoscaler.Go.Map.{lookup, lookup-insert, lookup-delete}
use agentic_autoscaler.Api.{NamespacedName, name_key, AgenticAutoscaler}
use agentic_autoscaler.Classifier.Manager.{
  WorkerHandle, Manager, new_manager, new_handle, ensure, stop_worker,
}
use agentic_autoscaler.Classifier.Manager.Running.{
  is_cancelled, Reaches, begun, ensure-none, ensure-some, rewritten, signal-rewritten,
  observe-rewritten, observed-id,
}

-- Numbers below the next one.
abbrev pub IsNumbered : Manager → Type 0
IsNumbered m =
    All (λ id. id < m.next_id) m.cancelled
    × ((key : NamespacedName) (h : WorkerHandle) → lookup key m.workers ≡ some h → h.id < m.next_id)

module _ {ℓ κ} {F : Type ℓ} {T : Type κ} where
  begun-IsNumbered :
      (aas : AgenticAutoscaler F T) (m : Manager) → IsNumbered m → IsNumbered (begun aas m)
  unfolding new_handle
  begun-IsNumbered aas m (gone, held) = (
    All-map m.cancelled (λ id below. omega (arith, below)) gone,
    λ key h there.
        ground
          (arith, lookup-insert aas.key key (new_handle m.next_id) m.workers, there, held key h),
  )

  ensure-IsNumbered :
      (aas : AgenticAutoscaler F T) (m : Manager) → IsNumbered m → IsNumbered (ensure aas m)
  ensure-IsNumbered aas m old = elim (Option-cases (lookup aas.key m.workers)) [
    | inl missing ↦ subst IsNumbered (sym (ensure-none aas m missing)) (begun-IsNumbered aas m old)
    | inr (h, held) ↦ subst IsNumbered (sym (ensure-some aas m h held)) old
  ]

stop_worker-IsNumbered :
    (key : NamespacedName) (m : Manager) → IsNumbered m → IsNumbered (stop_worker key m)
unfolding stop_worker
stop_worker-IsNumbered key m (gone, held) = elim (Option-cases (lookup key m.workers)) [
  | inl missing ↦ rw (stop_worker, missing) (gone, held)
  | inr (h, there) ↦
      rw (stop_worker, there)
        (
          (held key h there, gone),
          λ j k kept. ground (arith, lookup-delete key j m.workers, kept, held j k),
        )
]

rewritten-IsNumbered :
    (write : WorkerHandle → WorkerHandle) (key : NamespacedName) (m : Manager)
    (o : Option WorkerHandle)
    → lookup key m.workers ≡ o
    → ((h : WorkerHandle) → (write h).id ≡ h.id)
    → IsNumbered m
    → IsNumbered (rewritten write key m o)
rewritten-IsNumbered write key m none there same old = old
rewritten-IsNumbered write key m (some h) there same (gone, held) = (
  gone,
  λ j k kept.
      ground
        (arith, lookup-insert key j (write h) m.workers, kept, held j k, held key h there, same h),
)

module _ {ℓ κ} {F : Type ℓ} {T : Type κ} where
  pub reach-IsNumbered : (m : Manager) → Reaches F T m → IsNumbered m
  unfolding new_manager lookup
  reach-IsNumbered _ Reaches.at_start = (tt, λ key h there. absurd (cc there))
  reach-IsNumbered _ (Reaches.ensures aas m before) =
      ensure-IsNumbered aas m (reach-IsNumbered m before)
  reach-IsNumbered _ (Reaches.stops key m before) =
      stop_worker-IsNumbered key m (reach-IsNumbered m before)
  reach-IsNumbered _ (Reaches.signals gap key m before) =
      subst IsNumbered (sym (signal-rewritten gap key m)) (
        rewritten-IsNumbered _ key m (lookup key m.workers) refl (λ h. refl)
          (reach-IsNumbered m before))
  reach-IsNumbered _ (Reaches.observes gap key revision m before) =
      subst IsNumbered (sym (observe-rewritten gap key revision m)) (
        rewritten-IsNumbered _ key m (lookup key m.workers) refl (observed-id gap revision)
          (reach-IsNumbered m before))
  reach-IsNumbered _ (Reaches.receives id reclassify generation key m before) =
      rewritten-IsNumbered _ key m (lookup key m.workers) refl (λ h. refl)
        (reach-IsNumbered m before)

next-not_cancelled :
    (id : ℕ) (cancelled : List ℕ) → All (λ c. c < id) cancelled → is_cancelled id cancelled ≡ false
next-not_cancelled id [] below = refl
next-not_cancelled id (c ∷ cs) (b, below) = ground (arith, next-not_cancelled id cs below)

-- A new worker's context has not ended.
pub fresh-not_cancelled : (m : Manager) → IsNumbered m → is_cancelled m.next_id m.cancelled ≡ false
fresh-not_cancelled m (gone, held) = next-not_cancelled m.next_id m.cancelled gone

-- ===== src/Classifier/Manager/Running.antt =====
-- Which workers run, over every sequence of calls of the manager.
use agentic_autoscaler.Prelude.{
  ℕ, ◌+◌, String, Option, some, none, Option-cases, inl, inr, ◌⊎◌, Bool, true, false, ◌||◌, List,
  [], ◌∷◌, All, All-map, if◌then◌else◌, eqb, ◌≡◌, refl, sym, ◌∙◌, arith,
}
use mathlib.Core.Path.{subst}
use agentic_autoscaler.Go.Map.{lookup, insert, lookup-insert, lookup-delete, equal_refl}
use agentic_autoscaler.Api.{NamespacedName, name_key, same_name_iff, AgenticAutoscaler}
use agentic_autoscaler.Controller.Notifier.{drop_and_push}
use agentic_autoscaler.Go.Channel.{Channel}
use agentic_autoscaler.Classifier.Manager.{
  Signal, Start, WorkerHandle, Manager, new_manager, new_handle, start_of, ensure, stop_worker,
  signal_reclassify, observed, observe_deployment_revision,
}

abbrev pub is_cancelled : ℕ → List ℕ → Bool
is_cancelled id [] = false
is_cancelled id (c ∷ cs) = eqb id c || is_cancelled id cs

-- The worker of a start has been cancelled, or is the one of its resource.
abbrev pub IsAccounted : Manager → Start → Type 0
IsAccounted m x =
    (is_cancelled x.id m.cancelled ≡ true)
    ⊎ ((h : WorkerHandle) × (lookup x.key m.workers ≡ some h) × (h.id ≡ x.id))

-- The manager after a write through the handle of a resource, if it has one.
abbrev pub rewritten :
    (WorkerHandle → WorkerHandle) → NamespacedName → Manager → Option WorkerHandle → Manager
rewritten write key m none = m
rewritten write key m (some h) = record m { workers = insert key (write h) m.workers }

-- A handle once its worker, the one of `id`, has received: what its channels hold then.
abbrev pub received : ℕ → Channel Signal → Channel Signal → WorkerHandle → WorkerHandle
received id reclassify generation h = record h {
  reclassify_ch = if eqb h.id id then reclassify else h.reclassify_ch;
  generation_ch = if eqb h.id id then generation else h.generation_ch;
}

-- The calls of the manager, and the receives of its workers, in any order, for any resources.
pub data Reaches {ℓ κ} (F : Type ℓ) (T : Type κ) : Manager → Type (ℓ ⊔ κ) where
  at_start : Reaches F T new_manager
  ensures : (aas : AgenticAutoscaler F T) (m : Manager) → Reaches F T m → Reaches F T (ensure aas m)
  stops : (key : NamespacedName) (m : Manager) → Reaches F T m → Reaches F T (stop_worker key m)
  signals :
      (gap : Bool) (key : NamespacedName) (m : Manager)
      → Reaches F T m
      → Reaches F T (signal_reclassify gap key m)
  observes :
      (gap : Bool) (key : NamespacedName) (revision : String) (m : Manager)
      → Reaches F T m
      → Reaches F T (observe_deployment_revision gap key revision m).0
  receives :
      (id : ℕ) (reclassify generation : Channel Signal) (key : NamespacedName) (m : Manager)
      → Reaches F T m
      → Reaches F T (rewritten (received id reclassify generation) key m (lookup key m.workers))

module _ {ℓ κ} {F : Type ℓ} {T : Type κ} where
  -- The manager after a start.
  abbrev pub begun : AgenticAutoscaler F T → Manager → Manager
  begun aas m = record m {
    workers = insert aas.key (new_handle m.next_id) m.workers;
    started = start_of m.next_id aas ∷ m.started;
    next_id = m.next_id + 1;
  }

  begun-IsAccounted :
      (aas : AgenticAutoscaler F T) (m : Manager) (x : Start)
      → lookup aas.key m.workers ≡ none
      → IsAccounted m x
      → IsAccounted (begun aas m) x
  begun-IsAccounted aas m x missing old = ground (
    arith,
    lookup-insert aas.key x.key (new_handle m.next_id) m.workers,
    same_name_iff x.key aas.key,
  )

  first-IsAccounted :
      (aas : AgenticAutoscaler F T) (m : Manager)
      → IsAccounted (begun aas m) (start_of m.next_id aas)
  unfolding start_of new_handle
  first-IsAccounted aas m = inr (
    new_handle m.next_id,
    lookup-insert aas.key aas.key (new_handle m.next_id) m.workers ∙ rw (equal_refl aas.key) refl,
    refl,
  )

  pub ensure-none :
      (aas : AgenticAutoscaler F T) (m : Manager)
      → lookup aas.key m.workers ≡ none
      → ensure aas m ≡ begun aas m
  unfolding ensure
  ensure-none aas m e = rw (ensure, e) refl

  pub ensure-some :
      (aas : AgenticAutoscaler F T) (m : Manager) (h : WorkerHandle)
      → lookup aas.key m.workers ≡ some h
      → ensure aas m ≡ m
  unfolding ensure
  ensure-some aas m h e = rw (ensure, e) refl

  ensure-AllAccounted :
      (aas : AgenticAutoscaler F T) (m : Manager)
      → All (IsAccounted m) m.started
      → All (IsAccounted (ensure aas m)) (ensure aas m).started
  ensure-AllAccounted aas m all = elim (Option-cases (lookup aas.key m.workers)) [
    | inl missing ↦
        rw (ensure-none aas m missing)
          (first-IsAccounted aas m, All-map m.started (λ x. begun-IsAccounted aas m x missing) all)
    | inr (h, held) ↦ rw (ensure-some aas m h held) all
  ]

stop_worker-IsAccounted :
    (key : NamespacedName) (m : Manager) (x : Start)
    → IsAccounted m x
    → IsAccounted (stop_worker key m) x
unfolding stop_worker
stop_worker-IsAccounted key m x old = ground (
  arith,
  Option-cases (lookup key m.workers),
  lookup-delete key x.key m.workers,
  same_name_iff x.key key,
)

-- A write through a handle keeps the worker.
rewritten-IsAccounted :
    (key : NamespacedName) (m : Manager) (h after : WorkerHandle) (x : Start)
    → lookup key m.workers ≡ some h
    → after.id ≡ h.id
    → IsAccounted m x
    → IsAccounted (record m { workers = insert key after m.workers }) x
rewritten-IsAccounted key m h after x held same old =
    ground (arith, lookup-insert key x.key after m.workers, same_name_iff x.key key)

pub observed-id :
    (gap : Bool) (revision : String) (h : WorkerHandle) → (observed gap revision h).0.id ≡ h.id
unfolding observed
observed-id gap revision h = ground arith

rewritten-AllAccounted :
    (write : WorkerHandle → WorkerHandle) (key : NamespacedName) (m : Manager)
    (o : Option WorkerHandle)
    → lookup key m.workers ≡ o
    → ((h : WorkerHandle) → (write h).id ≡ h.id)
    → All (IsAccounted m) m.started
    → All (IsAccounted (rewritten write key m o)) (rewritten write key m o).started
rewritten-AllAccounted write key m none held same all = all
rewritten-AllAccounted write key m (some h) held same all =
    All-map m.started (λ x. rewritten-IsAccounted key m h (write h) x held (same h)) all

pub signal-rewritten :
    (gap : Bool) (key : NamespacedName) (m : Manager)
    → signal_reclassify gap key m
      ≡ rewritten
          (λ h. record h { reclassify_ch = drop_and_push gap tt h.reclassify_ch })
          key
          m
          (lookup key m.workers)
unfolding signal_reclassify
signal-rewritten gap key m = elim (Option-cases (lookup key m.workers)) [
  | inl missing ↦ rw (signal_reclassify, missing) refl
  | inr (h, held) ↦ rw (signal_reclassify, held) refl
]

pub observe-rewritten :
    (gap : Bool) (key : NamespacedName) (revision : String) (m : Manager)
    → (observe_deployment_revision gap key revision m).0
      ≡ rewritten (λ h. (observed gap revision h).0) key m (lookup key m.workers)
unfolding observe_deployment_revision
observe-rewritten gap key revision m = elim (Option-cases (lookup key m.workers)) [
  | inl missing ↦ rw (observe_deployment_revision, missing) refl
  | inr (h, held) ↦ rw (observe_deployment_revision, held) refl
]

pub stop_worker-started :
    (key : NamespacedName) (m : Manager) → (stop_worker key m).started ≡ m.started
unfolding stop_worker
stop_worker-started key m = ground (arith, Option-cases (lookup key m.workers))

module _ {ℓ κ} {F : Type ℓ} {T : Type κ} where
  -- Whatever calls the manager has served, every worker that was started and has not been cancelled
  -- is the one that the manager holds for the worker's resource.
  pub reach-AllAccounted : (m : Manager) → Reaches F T m → All (IsAccounted m) m.started
  unfolding new_manager
  reach-AllAccounted _ Reaches.at_start = tt
  reach-AllAccounted _ (Reaches.ensures aas m before) =
      ensure-AllAccounted aas m (reach-AllAccounted m before)
  reach-AllAccounted _ (Reaches.stops key m before) =
      subst (All (IsAccounted (stop_worker key m))) (sym (stop_worker-started key m))
        (All-map m.started (stop_worker-IsAccounted key m) (reach-AllAccounted m before))
  reach-AllAccounted _ (Reaches.signals gap key m before) =
      subst (λ n. All (IsAccounted n) n.started) (sym (signal-rewritten gap key m))
        (rewritten-AllAccounted _ key m (lookup key m.workers) refl (λ h. refl)
          (reach-AllAccounted m before))
  reach-AllAccounted _ (Reaches.observes gap key revision m before) =
      subst (λ n. All (IsAccounted n) n.started) (sym (observe-rewritten gap key revision m))
        (rewritten-AllAccounted _ key m (lookup key m.workers) refl (observed-id gap revision)
          (reach-AllAccounted m before))
  reach-AllAccounted _ (Reaches.receives id reclassify generation key m before) =
      rewritten-AllAccounted _ key m (lookup key m.workers) refl (λ h. refl)
        (reach-AllAccounted m before)

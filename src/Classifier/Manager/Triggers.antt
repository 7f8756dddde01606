-- ===== src/Classifier/Manager/Triggers.antt =====
-- What the manager's calls do to the workers and their triggers.
use agentic_autoscaler.Prelude.{
  String, str_eq, str_eq_iff, ◌≤◌, length, Bool-cases, Option, some, none, Option-cases, inl, inr,
  Bool, true, false, ◌≡◌, ◌≢◌, ◌↔◌, refl, arith, if◌then◌else◌, List, [], ◌∷◌, ◌++◌, ℕ, ◌==◌,
}
use agentic_autoscaler.Go.Map.{lookup, insert, lookup-insert, lookup-delete, equal_refl}
use agentic_autoscaler.Api.{NamespacedName, name_key, same_name_iff, AgenticAutoscaler}
use agentic_autoscaler.Controller.Notifier.{notify-newest}
use agentic_autoscaler.Classifier.Manager.{
  WorkerHandle, Manager, ensure, stop_worker, observed, observe_deployment_revision, has_worker,
  new_handle,
}

module _ {ℓ κ} {F : Type ℓ} {T : Type κ} where
  -- Ensure starts at most one worker: after it the resource has a worker, and a second call changes
  -- nothing; no other resource's worker changes.
  pub ensure-once :
      (aas : AgenticAutoscaler F T) (m : Manager) (j : NamespacedName)
      → let once = ensure aas m in
        (ensure aas once ≡ once)
        × (has_worker aas.key once ≡ true)
        × (has_worker j once ≡ (if j == aas.key then true else has_worker j m))
  unfolding ensure has_worker
  ensure-once aas m j = ground (
    arith,
    Option-cases (lookup aas.key m.workers),
    lookup-insert aas.key aas.key (new_handle m.next_id) m.workers,
    lookup-insert aas.key j (new_handle m.next_id) m.workers,
    equal_refl aas.key,
    same_name_iff j aas.key,
  )

observed_again :
    (gap gap' : Bool) (revision : String) (h : WorkerHandle)
    → observed gap' revision (observed gap revision h).0 ≡ ((observed gap revision h).0, false)
unfolding observed
observed_again gap gap' revision h =
    ground (arith, str_eq_iff revision revision, str_eq_iff h.last_deployment_revision revision)

observed_iff :
    (gap : Bool) (revision : String) (h : WorkerHandle)
    → ((observed gap revision h).1 ≡ true)
      ↔ ((h.revision_initialized ≡ true) × (h.last_deployment_revision ≢ revision))
unfolding observed
observed_iff gap revision h = ground (arith, str_eq_iff h.last_deployment_revision revision)

-- The revision is new to a worker that has seen one before.
abbrev pub IsRollout : String → Option WorkerHandle → Type 0
IsRollout revision none = ⊥
IsRollout revision (some h) =
    (h.revision_initialized ≡ true) × (h.last_deployment_revision ≢ revision)

observe-none :
    (gap : Bool) (key : NamespacedName) (revision : String) (m : Manager)
    → lookup key m.workers ≡ none
    → observe_deployment_revision gap key revision m ≡ (m, false)
unfolding observe_deployment_revision
observe-none gap key revision m e = rw (observe_deployment_revision, e) refl

observe-some :
    (gap : Bool) (key : NamespacedName) (revision : String) (m : Manager) (h : WorkerHandle)
    → lookup key m.workers ≡ some h
    → observe_deployment_revision gap key revision m ≡ (
      record m { workers = insert key (observed gap revision h).0 m.workers },
      (observed gap revision h).1,
    )
unfolding observe_deployment_revision
observe-some gap key revision m h e = rw (observe_deployment_revision, e) refl

kept_again :
    (key j : NamespacedName) (h : WorkerHandle) (m : Manager)
    → lookup key m.workers ≡ some h
    → lookup j (insert key h m.workers) ≡ lookup j m.workers
kept_again key j h m e = ground (arith, lookup-insert key j h m.workers, same_name_iff j key)

-- What an observation does to the channel of generation signals: one signal is pending, or it is as it
-- was. The worker and its other channel stay.
abbrev pub Signals : Bool → WorkerHandle → WorkerHandle → Type 0
Signals true h after =
    (length after.generation_ch.queue ≡ 1)
    × (after.reclassify_ch ≡ h.reclassify_ch)
    × (after.id ≡ h.id)
Signals false h after =
    (after.generation_ch ≡ h.generation_ch)
    × (after.reclassify_ch ≡ h.reclassify_ch)
    × (after.id ≡ h.id)

abbrev pub AllSignals : Bool → Option WorkerHandle → Option WorkerHandle → Type 0
AllSignals b none after = (b ≡ false) × (after ≡ none)
AllSignals b (some h) none = ⊥
AllSignals b (some h) (some after) = Signals b h after

observed-Signals :
    (gap : Bool) (revision : String) (h : WorkerHandle)
    → h.generation_ch.limit ≡ 1
    → length h.generation_ch.queue ≤ 1
    → Signals (observed gap revision h).1 h (observed gap revision h).0
unfolding observed
observed-Signals gap revision h one few = elim (Bool-cases h.revision_initialized) [
  | inr first ↦ rw first (refl, refl, refl)
  | inl later ↦ elim (Bool-cases (str_eq h.last_deployment_revision revision)) [
    | inl same ↦ rw (later, same) (refl, refl, refl)
    | inr fresh ↦ rw (later, fresh) ((notify-newest gap tt h.generation_ch one few).1, refl, refl)
  ]
]

-- For a worker whose channel has capacity 1 and is within it: an observation signals a new
-- classification exactly when the resource has a worker that has seen
-- another revision before; then one signal is pending on the worker's channel, and else the channel is
-- as it was; the same revision observed again does not signal, and leaves every worker as it was.
-- Whether the worker receives in between does not matter.
pub observe_deployment_revision-once :
    (gap gap' : Bool) (key j : NamespacedName) (revision : String) (m : Manager)
    → ((h : WorkerHandle) → lookup key m.workers ≡ some h → h.generation_ch.limit ≡ 1)
    → ((h : WorkerHandle) → lookup key m.workers ≡ some h → length h.generation_ch.queue ≤ 1)
    → let seen = observe_deployment_revision gap key revision m in
      let again = observe_deployment_revision gap' key revision seen.0 in
      ((seen.1 ≡ true) ↔ IsRollout revision (lookup key m.workers))
      × AllSignals seen.1 (lookup key m.workers) (lookup key seen.0.workers)
      × (again.1 ≡ false)
      × (lookup j again.0.workers ≡ lookup j seen.0.workers)
observe_deployment_revision-once gap gap' key j revision m ones fews =
    elim (Option-cases (lookup key m.workers)) [
      | inl missing ↦
          rw
            (
              observe-none gap key revision m missing,
              observe-none gap' key revision m missing,
              missing,
            )
            ((λ e. ground arith, λ impossible. absurd impossible), (refl, refl), refl, refl)
      | inr (h, held) ↦
          let after = (observed gap revision h).0 in
          let seen : Manager = record m { workers = insert key after m.workers } in
          let kept : lookup key seen.workers ≡ some after =
            rw (lookup-insert key key after m.workers, equal_refl key) refl in
          rw
            (
              observe-some gap key revision m h held,
              observe-some gap' key revision seen after kept,
              observed_again gap gap' revision h,
              held,
              kept,
            )
            (
              observed_iff gap revision h,
              observed-Signals gap revision h (ones h held) (fews h held),
              refl,
              kept_again key j after seen kept,
            )
    ]

abbrev pub ids_of : Option WorkerHandle → List ℕ
ids_of none = []
ids_of (some h) = h.id ∷ []

-- Stop cancels the worker of its resource and no other: afterwards that resource has none, every other
-- resource has the one it had, and a second call changes nothing.
pub stop_worker-only :
    (key j : NamespacedName) (m : Manager)
    → let stopped = stop_worker key m in
      (lookup j stopped.workers ≡ (if j == key then none else lookup j m.workers))
      × (stopped.cancelled ≡ ids_of (lookup key m.workers) ++ m.cancelled)
      × (stop_worker key stopped ≡ stopped)
unfolding stop_worker
stop_worker-only key j m = ground (
  arith,
  Option-cases (lookup key m.workers),
  lookup-delete key key m.workers,
  lookup-delete key j m.workers,
  equal_refl key,
  same_name_iff j key,
)

-- ===== src/Classifier/Manager.antt =====
-- internal/classifier/manager.go: the workers that run, one for each resource, and their triggers. The
-- manager's mutex makes each method one step. A worker is known by the number of its start; the
-- context that it runs under is cancelled by that number.
pub mod Triggers
pub mod Running
pub mod Single
pub mod Numbers
use agentic_autoscaler.Prelude.{
  ℕ, ◌+◌, ℤ, pos, String, str_eq, Option, some, none, List, [], ◌∷◌, Bool, true, false, not,
  if◌then◌else◌,
}
use agentic_autoscaler.Go.Channel.{Channel, make}
use agentic_autoscaler.Go.Map.{Map, lookup, insert, delete}
use agentic_autoscaler.Api.{NamespacedName, name_key, AgenticAutoscaler}
use agentic_autoscaler.Controller.Inputs.{deref_or}
use agentic_autoscaler.Controller.Notifier.{drop_and_push}

abbrev pub Signal : Type 0
Signal = Unit {0}

-- What the goroutine of a worker is started with, as far as the resource decides it.
pub record Start : Type 0 where
  pub id : ℕ
  pub key : NamespacedName
  pub deployment_name : String
  pub min_replicas : ℤ
  pub max_replicas : ℤ

pub record WorkerHandle : Type 0 where
  pub id : ℕ
  pub reclassify_ch : Channel Signal
  pub generation_ch : Channel Signal
  pub last_deployment_revision : String
  pub revision_initialized : Bool

-- `started` and `cancelled` are the starts and the cancellations so far, newest first.
pub record Manager : Type 0 where
  pub workers : Map NamespacedName WorkerHandle
  pub started : List Start
  pub cancelled : List ℕ
  pub next_id : ℕ

unfoldable pub new_manager : Manager
new_manager = record { workers = []; started = []; cancelled = []; next_id = 0 }

unfoldable pub new_handle : ℕ → WorkerHandle
unfolding make
new_handle id = record {
  id = id;
  reclassify_ch = make 1;
  generation_ch = make 1;
  last_deployment_revision = "";
  revision_initialized = false;
}

module _ {ℓ κ} {F : Type ℓ} {T : Type κ} where
  unfoldable pub start_of : ℕ → AgenticAutoscaler F T → Start
  unfolding deref_or
  start_of id aas = record {
    id = id;
    key = aas.key;
    deployment_name = aas.spec.target_ref.name;
    min_replicas = deref_or aas.spec.min_replicas (pos 2);
    max_replicas = deref_or aas.spec.max_replicas (pos 10);
  }

  unfoldable pub ensure : AgenticAutoscaler F T → Manager → Manager
  unfolding start_of new_handle
  ensure aas m = elim (lookup aas.key m.workers) [
    | some handle ↦ m
    | none ↦ record m {
      workers = insert aas.key (new_handle m.next_id) m.workers;
      started = start_of m.next_id aas ∷ m.started;
      next_id = m.next_id + 1;
    }
  ]

unfoldable pub stop_worker : NamespacedName → Manager → Manager
stop_worker key m = elim (lookup key m.workers) [
  | none ↦ m
  | some handle ↦ record m { workers = delete key m.workers; cancelled = handle.id ∷ m.cancelled }
]

-- The channel of a handle is shared with the worker: a push is a write through the handle. `gap` is
-- whether the worker receives in the middle of dropAndPush.
unfoldable pub signal_reclassify : Bool → NamespacedName → Manager → Manager
unfolding drop_and_push
signal_reclassify gap key m = elim (lookup key m.workers) [
  | none ↦ m
  | some handle ↦ record m {
    workers =
        insert key (record handle { reclassify_ch = drop_and_push gap tt handle.reclassify_ch })
          m.workers;
  }
]

-- The handle after an observation, and whether it signalled.
unfoldable pub observed : Bool → String → WorkerHandle → WorkerHandle × Bool
unfolding drop_and_push
observed gap revision handle =
    if not handle.revision_initialized
    then (record handle { last_deployment_revision = revision; revision_initialized = true }, false)
    else if str_eq handle.last_deployment_revision revision
    then (handle, false)
    else (
      record handle {
        last_deployment_revision = revision;
        generation_ch = drop_and_push gap tt handle.generation_ch;
      },
      true,
    )

unfoldable pub observe_deployment_revision :
    Bool → NamespacedName → String → Manager → Manager × Bool
unfolding observed
observe_deployment_revision gap key revision m = elim (lookup key m.workers) [
  | none ↦ (m, false)
  | some handle ↦
      let (after, signalled) = observed gap revision handle in
      (record m { workers = insert key after m.workers }, signalled)
]

unfoldable pub last_deployment_revision_of : NamespacedName → Manager → String
last_deployment_revision_of key m = elim (lookup key m.workers) [
  | none ↦ ""
  | some handle ↦ handle.last_deployment_revision
]

unfoldable pub has_worker : NamespacedName → Manager → Bool
has_worker key m = elim (lookup key m.workers) [ none ↦ false | some handle ↦ true ]

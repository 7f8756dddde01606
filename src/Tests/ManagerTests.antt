-- ===== src/Tests/ManagerTests.antt =====
-- The classifier's manager on concrete calls.
use agentic_autoscaler.Prelude.{◌≡◌, ◌↔◌, ◌≤◌, refl, some, true, false, length, arith}
use mathlib.Core.Path.{subst}
use agentic_autoscaler.Go.Channel.{make}
use agentic_autoscaler.Go.Map.{lookup, insert}
use agentic_autoscaler.Api.{name_key}
use agentic_autoscaler.Classifier.Manager.{
  WorkerHandle, Manager, new_manager, new_handle, ensure, stop_worker, observe_deployment_revision,
}
use agentic_autoscaler.Classifier.Manager.Triggers.{
  IsRollout, AllSignals, observe_deployment_revision-once,
}
use agentic_autoscaler.Prelude.{ℤ, All}
use agentic_autoscaler.Classifier.Manager.Running.{Reaches}
use agentic_autoscaler.Classifier.Manager.Single.{IsApart, reach-AllApart}
use agentic_autoscaler.Tests.Numbers.{Fixed}
use agentic_autoscaler.Tests.Resources.{shop, billing, shop_resource}

abbrev one_worker : Manager
one_worker = ensure shop_resource new_manager

abbrev seen_once : Manager
seen_once = (observe_deployment_revision false shop "1" one_worker).0

-- The worker after its start and one observation.
abbrev seen_handle : WorkerHandle
seen_handle = record (new_handle 0) { last_deployment_revision = "1"; revision_initialized = true }

seen_once-workers : lookup shop seen_once.workers ≡ some seen_handle
unfolding ensure observe_deployment_revision lookup insert new_manager
seen_once-workers = refl

seen_handle-only : (h : WorkerHandle) → lookup shop seen_once.workers ≡ some h → seen_handle ≡ h
seen_handle-only h held = cc (seen_once-workers, held)

seen_once-limit :
    (h : WorkerHandle) → lookup shop seen_once.workers ≡ some h → h.generation_ch.limit ≡ 1
unfolding new_handle make
seen_once-limit h held = subst (λ k. k.generation_ch.limit ≡ 1) (seen_handle-only h held) refl

seen_once-room :
    (h : WorkerHandle) → lookup shop seen_once.workers ≡ some h → length h.generation_ch.queue ≤ 1
unfolding new_handle make
seen_once-room h held =
    subst (λ k. length k.generation_ch.queue ≤ 1) (seen_handle-only h held) (omega arith)

observe_deployment_revision-once_example :
    let seen = observe_deployment_revision false shop "2" seen_once in
    let again = observe_deployment_revision false shop "2" seen.0 in
    ((seen.1 ≡ true) ↔ IsRollout "2" (lookup shop seen_once.workers))
    × AllSignals seen.1 (lookup shop seen_once.workers) (lookup shop seen.0.workers)
    × (again.1 ≡ false)
    × (lookup billing again.0.workers ≡ lookup billing seen.0.workers)
observe_deployment_revision-once_example =
    observe_deployment_revision-once false false shop billing "2" seen_once seen_once-limit
      seen_once-room

-- Started, observed, stopped and started again.
abbrev restarted : Manager
restarted = ensure shop_resource (stop_worker shop seen_once)

restarted-Reaches : Reaches Fixed ℤ restarted
restarted-Reaches = Reaches.ensures shop_resource _ (
    Reaches.stops shop _ (
      Reaches.observes false shop "1" _
        (Reaches.ensures shop_resource new_manager Reaches.at_start)))

reach-AllApart_example : All (λ x. All (IsApart restarted x) restarted.started) restarted.started
reach-AllApart_example = reach-AllApart restarted restarted-Reaches

-- ===== src/Tests/FleetTests.antt =====
-- The manager, its workers and the resources on concrete acts.
use agentic_autoscaler.Prelude.{ℤ, pos, some, ◌≡◌, refl, arith, List, [], ◌∷◌}
use agentic_autoscaler.Go.Map.{Map, insert}
use agentic_autoscaler.Api.{NamespacedName, name_key, AgenticAutoscaler}
use agentic_autoscaler.Classifier.Manager.{start_of, stop_worker, ensure}
use agentic_autoscaler.Classifier.Worker.Outcome.{IsAdmitted}
use agentic_autoscaler.Classifier.Worker.Loop.{Move, Phase}
use agentic_autoscaler.Classifier.Fleet.{Act, Crew, Fleet, setup_of, act, run_acts, new_fleet}
use agentic_autoscaler.Classifier.Fleet.Sound.{IsSound, run_acts-IsSound}
use agentic_autoscaler.Tests.Numbers.{Fixed, fixed_float, fixed_time}
use agentic_autoscaler.Tests.Resources.{shop, shop_resource}
use agentic_autoscaler.Tests.WorkerTests.{shop_setup, good_answers}

-- The resource with other replica bounds.
abbrev wider_resource : AgenticAutoscaler Fixed ℤ
wider_resource = record shop_resource {
  spec = record shop_resource.spec { max_replicas = some (pos 30) };
}

-- A worker starts and classifies; the resource is deleted, and created again with other bounds; the
-- old worker classifies once more, before the new one.
abbrev busy_acts : List (Act Fixed ℤ)
busy_acts =
    Act.ensures shop_resource
    ∷ Act.works 0 (Move.begin good_answers)
    ∷ Act.signals shop
    ∷ Act.stops shop
    ∷ Act.writes shop Move.remove
    ∷ Act.writes shop (Move.create wider_resource)
    ∷ Act.ensures wider_resource
    ∷ Act.works 0 (Move.tick good_answers)
    ∷ Act.works 0 Move.leave
    ∷ Act.works 1 (Move.begin good_answers)
    ∷ []

abbrev first_resources : Map NamespacedName (AgenticAutoscaler Fixed ℤ)
first_resources = (shop, shop_resource) ∷ []

shop-IsAdmitted : IsAdmitted (setup_of shop_setup (start_of 0 shop_resource))
unfolding setup_of start_of
shop-IsAdmitted = ((omega arith, omega arith), (omega arith, omega arith), omega arith, omega arith)

wider-IsAdmitted : IsAdmitted (setup_of shop_setup (start_of 0 wider_resource))
unfolding setup_of start_of
wider-IsAdmitted =
    ((omega arith, omega arith), (omega arith, omega arith), omega arith, omega arith)

run_acts-IsSound_example :
    IsSound shop_setup first_resources
      (run_acts (pos 1000) shop_setup busy_acts (new_fleet first_resources))
run_acts-IsSound_example =
    run_acts-IsSound (pos 1000) shop_setup first_resources busy_acts
      (shop-IsAdmitted, (tt, (tt, (tt, (tt, (tt, (wider-IsAdmitted, (tt, (tt, (tt, tt))))))))))

abbrev stale_fleet : Fleet Fixed ℤ
stale_fleet =
    run_acts (pos 1000) shop_setup
      (Act.ensures shop_resource
        ∷ Act.stops shop
        ∷ Act.ensures wider_resource
        ∷ Act.works 0 (Move.begin good_answers)
        ∷ Act.works 1 (Move.begin good_answers)
        ∷ Act.works 0 Move.leave
        ∷ [])
      (new_fleet first_resources)

abbrev phases_of : List (Crew Fixed ℤ) → List Phase
phases_of [] = []
phases_of (c ∷ cs) = c.loop.phase ∷ phases_of cs

-- A worker that is stopped before its first move makes none but to return.
stale_phases : phases_of stale_fleet.crews ≡ Phase.waiting ∷ Phase.returned ∷ []
unfolding run_acts act new_fleet stop_worker ensure insert
stale_phases = refl

-- ===== src/Tests/WorkerTests.antt =====
-- The classifier's worker on concrete moves.
use agentic_autoscaler.Prelude.{ℤ, pos, none, some, Option, ◌≡◌, refl, true, arith, List, [], ◌∷◌}
use agentic_autoscaler.Prelude.{ltb_ℤ, ◌-ℤ◌}
use agentic_autoscaler.Go.Time.{seconds}
use agentic_autoscaler.Api.{AgenticAutoscaler}
use agentic_autoscaler.Adapters.{ok}
use agentic_autoscaler.Classifier.Worker.{Setup, Answers, returns, panics, run_classification}
use agentic_autoscaler.Classifier.Worker.Outcome.{Ends, IsAdmitted, run_classification-Ends}
use agentic_autoscaler.Classifier.Worker.Stored.{OnSome}
use agentic_autoscaler.Classifier.Worker.Runs.{IsSafe, run_moves-IsSafe}
use agentic_autoscaler.Classifier.Worker.Served.{
  IsAnswered, last_success, serve_generation-IsDeduped, IsServed, serve_reclassify-IsServed,
}
use agentic_autoscaler.Classifier.Worker.Endings.{IsPending, signal_reclassify-IsPending}
use agentic_autoscaler.Classifier.Worker.Loop.{
  Phase, Loop, Move, Removal, new_loop, step, run_moves, serve_reclassify, serve_generation,
}
use agentic_autoscaler.Tests.Numbers.{Fixed, fixed_float, fixed_time}
use agentic_autoscaler.Tests.Resources.{shop, shop_resource, shop_reconciler}

abbrev pub shop_setup : Setup Fixed
shop_setup = record {
  key = shop;
  deployment_name = "front";
  min_replicas = pos 2;
  max_replicas = pos 10;
  config = record {
    interval = pos 3600000000000;
    history_hours = pos 86400000000000;
    min_points = pos 2;
    high_conf_points = pos 100;
    dedup_seconds = pos 60;
    resolution_min = pos 0;
    hourly_profile_min_hours = pos 12;
    cv_guard_mean_rps = pos 1000;
  };
  has_recorder = true;
  formats = shop_reconciler.formats;
}

shop_setup-IsAdmitted : IsAdmitted shop_setup
shop_setup-IsAdmitted =
    ((omega arith, omega arith), (omega arith, omega arith), omega arith, omega arith)

-- Three samples, and no failure.
abbrev pub good_answers : Answers Fixed ℤ
good_answers = record {
  now_query = pos 1700000000000000000;
  now_patch = pos 1700000001000000000;
  now_done = pos 1700000002000000000;
  range_query = λ q from to s. returns (
      ok (
        record { timestamp = pos 1; value = pos 100000 }
        ∷ record { timestamp = pos 2; value = pos 120000 }
        ∷ record { timestamp = pos 3; value = pos 90000 }
        ∷ []));
  get_for_patch = none;
  update_status = none;
  get_for_event = none;
}

abbrev crash_answers : Answers Fixed ℤ
crash_answers = record good_answers { range_query = λ q from to s. panics }

abbrev no_errors : Removal
no_errors = record { get_error = none; update_error = none }

abbrev pub fresh : Loop Fixed ℤ
fresh = new_loop (some shop_resource)

abbrev asked_resource : AgenticAutoscaler Fixed ℤ
asked_resource = record shop_resource {
  annotations = ("autoscaling.agentic.io/reclassify", "now") ∷ ("team", "shop") ∷ [];
}

abbrev waiting_loop : Loop Fixed ℤ
waiting_loop = record (new_loop (some asked_resource)) {
  phase = Phase.waiting;
  reclassify_ch = record { queue = tt ∷ []; limit = 1 };
}

run_classification-Ends_example :
    Ends shop_setup good_answers fresh.worker
      (run_classification (pos 1000) shop_setup good_answers fresh.worker)
run_classification-Ends_example =
    run_classification-Ends (pos 1000) shop_setup good_answers fresh.worker shop_setup-IsAdmitted

-- A first classification, a panic, the back-off, an edit, and a served signal.
abbrev busy_moves : List (Move Fixed ℤ)
busy_moves =
    Move.begin good_answers
    ∷ Move.tick crash_answers
    ∷ Move.resume
    ∷ Move.signal_reclassify
    ∷ Move.begin good_answers
    ∷ Move.reclassify good_answers no_errors
    ∷ Move.cancel
    ∷ Move.leave
    ∷ []

abbrev phase_of : Option (Loop Fixed ℤ) → Option Phase
phase_of none = none
phase_of (some l) = some l.phase

busy_moves-possible :
    phase_of (run_moves (pos 1000) shop_setup busy_moves fresh) ≡ some Phase.returned
unfolding run_moves step new_loop
busy_moves-possible = refl

run_moves-IsSafe_example :
    OnSome
      (IsSafe shop_setup)
      (run_moves (pos 1000) shop_setup busy_moves (new_loop (some shop_resource)))
run_moves-IsSafe_example =
    run_moves-IsSafe (pos 1000) shop_setup (some shop_resource) busy_moves shop_setup-IsAdmitted tt

signal_reclassify-IsPending_example : OnSome (IsPending (pos 1000) shop_setup) (
    run_moves
      (pos 1000)
      shop_setup
      (Move.signal_reclassify ∷ Move.begin crash_answers ∷ Move.resume ∷ [])
      fresh)
unfolding new_loop
signal_reclassify-IsPending_example =
    signal_reclassify-IsPending (pos 1000) shop_setup fresh
      (Move.begin crash_answers ∷ Move.resume ∷ []) (refl, omega arith) (tt, (tt, tt))

-- A signal half a minute after a success is within the window.
serve_generation-IsDeduped_example :
    let (flow, w) = run_classification (pos 1000) shop_setup good_answers fresh.worker in
    IsAnswered
      (pos 1000)
      shop_setup
      good_answers
      (record fresh { worker = w })
      (ltb_ℤ
        (seconds shop_setup.config.dedup_seconds)
        (pos 1700000032000000000 -ℤ last_success good_answers fresh.worker flow))
      (serve_generation
        (pos 1000)
        shop_setup
        (pos 1700000032000000000)
        good_answers
        (record fresh { worker = w }))
serve_generation-IsDeduped_example =
    serve_generation-IsDeduped (pos 1000) shop_setup good_answers good_answers
      (pos 1700000032000000000) fresh shop_setup-IsAdmitted

serve_reclassify-IsServed_example :
    (aas1 : AgenticAutoscaler Fixed ℤ) × ((serve_reclassify
        (pos 1000)
        shop_setup
        good_answers
        no_errors
        waiting_loop).worker.stored
      ≡ some aas1)
    × IsServed shop_setup good_answers asked_resource aas1
unfolding new_loop
serve_reclassify-IsServed_example =
    serve_reclassify-IsServed (pos 1000) shop_setup good_answers no_errors waiting_loop
      asked_resource shop_setup-IsAdmitted refl

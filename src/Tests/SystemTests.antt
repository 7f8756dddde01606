-- ===== src/Tests/SystemTests.antt =====
-- The clients, the metrics, the wiring, the explainer's worker and the target app on concrete values.
use agentic_autoscaler.Prelude.{
  All, ℤ, pos, String, str_eq, Option, some, none, List, [], ◌∷◌, ◌≡◌, ◌↔◌, refl, true,
  if◌then◌else◌,
}
use agentic_autoscaler.Go.Time.{minute}
use agentic_autoscaler.Adapters.{ok}
use agentic_autoscaler.Adapters.Http.{answered, number, text}
use agentic_autoscaler.Adapters.Prometheus.{Pair, AreSamples, samples_of, sample_at, samples_of_iff}
use agentic_autoscaler.Adapters.Ollama.{ChatError, Chatted}
use agentic_autoscaler.Explainer.Worker.{Setup, returns, panics, Done, Turn, run_turns}
use agentic_autoscaler.Explainer.Reports.{Adds, run_turns-Adds}
use agentic_autoscaler.Controller.Metrics.{Metrics, collect}
use agentic_autoscaler.Controller.Metrics.Once.{CountsOnce, run-CountsOnce}
use agentic_autoscaler.Wiring.Startup as Boots
use agentic_autoscaler.Wiring.Startup.{default_flags, main}
use agentic_autoscaler.Wiring.Startup.Health.{IsGuarded, main-IsGuarded}
use agentic_autoscaler.Classifier.Worker as Cold
use agentic_autoscaler.Config.{points_floor}
use agentic_autoscaler.Config.Load.{summary_lines, environ_of, load_from_env}
use agentic_autoscaler.Config.RoundTrip.{load_from_env-summary_lines}
use agentic_autoscaler.Tests.ConfigTests.{
  unary, unary-IsTexts, full_config, full_config-IsExpressible,
}
use agentic_autoscaler.Wiring.{classifier_config}
use agentic_autoscaler.Wiring.ColdPath.{IsPlain, run_classification-IsPlain}
use agentic_autoscaler.Wiring.HotPath.{Network, connected, IsFounded, run-AllFounded}
use agentic_autoscaler.Controller.Reconcile.{run}
use agentic_autoscaler.Tests.ControllerTests.{no_states, no_states-IsSound}
use agentic_autoscaler.Tests.ControllerTests.{shop-IsNamed}
use agentic_autoscaler.Tests.Numbers.{Fixed, fixed_float, fixed_time}
use agentic_autoscaler.Tests.Resources.{shop, shop_reconciler, busy_response, busy_env}
use agentic_autoscaler.Tests.ExplainerTests.{capped_request}
use agentic_autoscaler.Tests.WorkerTests.{shop_setup, good_answers, fresh}

-- A parser that knows one text.
abbrev parse_two : String → Option Fixed
parse_two s = if str_eq s "2" then some (pos 2000) else none

abbrev points : List (Pair Fixed)
points = (number (pos 60000), text "2") ∷ (number (pos 120000), text "2") ∷ []

samples_of_iff_example :
    (samples_of parse_two (λ n. n) points
      ≡ ok (sample_at parse_two (λ n. n) (pos 60000) (pos 2000) ∷ []))
    ↔ AreSamples parse_two
        (λ n. n)
        points
        (sample_at parse_two (λ n. n) (pos 60000) (pos 2000) ∷ [])
samples_of_iff_example =
    samples_of_iff parse_two (λ n. n) points
      (sample_at parse_two (λ n. n) (pos 60000) (pos 2000) ∷ [])

abbrev explain_setup : Setup Fixed
explain_setup = record {
  config = record { model = "llama3.2"; max_tokens = pos 150; timeout = pos 30000000000 };
  has_sinks = true;
  formats = shop_reconciler.formats;
}

abbrev nothing_done : Done
nothing_done = record { asked = []; logged = []; events = [] }

-- An answer, a refused connection, a panic, and the end of the context.
abbrev turns : List (Turn Fixed)
turns =
    Turn.received
      (record { chat = λ q. returns (Chatted.said (65 ∷ 66 ∷ [])); get_resource = true })
      capped_request
    ∷ Turn.received
        (record {
          chat = λ q. returns (Chatted.failed ChatError.connection_refused);
          get_resource = true;
        })
        capped_request
    ∷ Turn.received (record { chat = λ q. panics; get_resource = true }) capped_request
    ∷ Turn.cancelled
    ∷ []

run_turns-Adds_example : Adds 4 nothing_done (run_turns explain_setup turns nothing_done)
run_turns-Adds_example = run_turns-Adds explain_setup turns nothing_done

abbrev no_metrics : Metrics Fixed
no_metrics = record {
  predicted_rps = [];
  current_rps = [];
  rps_per_pod = [];
  events_total = [];
  classified_pattern = [];
  classified_confidence = [];
  forecast_failures_total = [];
  metrics_unavailable_total = [];
}

-- A reconcile that decides.
run-CountsOnce_example :
    let es =
      (run shop_reconciler busy_env shop (record { store = no_states; effects = [] })).1.effects in
    CountsOnce shop "scale_up" es no_metrics (collect es no_metrics)
run-CountsOnce_example =
    run-CountsOnce shop_reconciler busy_env shop "scale_up" no_states no_metrics shop-IsNamed

abbrev wired_setup : Cold.Setup Fixed
wired_setup = record shop_setup { config = classifier_config full_config }

run_classification-IsPlain_example :
    IsPlain
      (points_floor full_config.context_resolution_minutes)
      fresh.worker
      (Cold.run_classification (pos 1000) wired_setup good_answers fresh.worker).1
    × (Cold.query_step wired_setup.config ≡ minute)
run_classification-IsPlain_example =
    run_classification-IsPlain (pos 1000) unary (environ_of (summary_lines unary full_config))
      full_config wired_setup good_answers fresh.worker
      (load_from_env-summary_lines unary unary-IsTexts full_config full_config-IsExpressible) refl

-- Prometheus answers the rate 2 now and twice before, the service a busy forecast.
abbrev busy_network : Network Fixed ℤ
busy_network = record {
  parse_float = parse_two;
  unix = λ t. t;
  from_unix = λ n. n;
  instant = λ q.
      answered 200
        (ok (record { status = "success"; result = (number (pos 0), text "2") ∷ []; error = "" }));
  range = λ q a b c.
      answered 200 (ok (record { status = "success"; result = points ∷ []; error = "" }));
  forecast = λ q. answered 200 (ok busy_response);
}

run-AllFounded_example :
    All
      (IsFounded shop_reconciler (connected busy_network busy_env) shop no_states)
      (run shop_reconciler
        (connected busy_network busy_env)
        shop
        (record { store = no_states; effects = [] })).1.effects
run-AllFounded_example =
    run-AllFounded shop_reconciler busy_network busy_env shop no_states no_states-IsSound

-- The manager of controller-runtime cannot be made.
abbrev no_manager : Boots.Answers
no_manager = record {
  kube_config = none;
  manager = some "no route to the API server";
  webhook = none;
  controller = none;
  healthz = none;
  readyz = none;
  start = none;
}

main-IsGuarded_example :
    let env = environ_of (summary_lines unary full_config) in
    IsGuarded unary shop_reconciler.formats default_flags env no_manager
      (load_from_env unary env)
      (main unary shop_reconciler.formats default_flags env no_manager)
main-IsGuarded_example =
    main-IsGuarded unary shop_reconciler.formats default_flags
      (environ_of (summary_lines unary full_config)) no_manager

-- ===== src/Lib.antt =====
-- agentic-autoscaler: a Kubernetes controller that scales a Deployment from a forecast of its load.
--
-- The parts, and how they interact. A reconcile (internal/controller) reads the resource, the metrics and
-- a forecast, resolves its parameters and the replica count by the rules of internal/decision, keeps a
-- window of load per pod for each resource, patches the scale and writes the status. The webhook
-- (internal/webhook) admits the resources that the reconcile reads. The classifier (internal/classifier)
-- writes, from a longer history, the parameters that the rules prefer to the defaults.
--
-- The files:
--   Prelude        shared names, lists, signed and 32-bit integers, texts, keys
--   Go             float64 and time.Time as parameters, maps, buffered channels
--   Reasoning      internal/reasoning/tokens.go
--   Decision       internal/decision: Params (ResolveEffectiveParams), Cap (ComputeUnboundedRecommended,
--                  ClampRecommended, ClampRpsPerPod, ApplyCapAndCooldown), Estimate
--                  (ShouldUpdateRpsPerPod, InitializeFromStatus), Ring (RingBuffer), Store (StateStore)
--   Api            api/v1alpha1/agenticautoscaler_types.go
--   Webhook        internal/webhook/v1alpha1: ValidateSpec and the three admission calls
--   Promql         internal/promql/builder.go
--   Config         internal/config/config.go: Config and validate, Load (LoadFromEnv, Summary); Variables,
--                  RoundTrip, Checked and Faults are proofs
--   Adapters       internal/adapters: the data, Http (the exchange), Prometheus (InstantQuery, RangeQuery),
--                  Forecast (Recommend), Ollama (Chat)
--   Controller     internal/controller: World (the monad), Inputs, Decide, Steps, Reconcile
--                  (AgenticAutoscalerReconciler.Reconcile), Notifier (ChannelNotifier.Notify), Metrics
--                  (metrics.go); Calls is the order that a reconcile keeps to; Runs and Leads hold the
--                  rules for the monad, and Order, PreChecks, Reads, Stored, Safety,
--                  Promises, Histories, Outages, Grounds, Quiet, Carry and Scaling the proofs
--   Classifier     internal/classifier: Confidence, Classify, Features, Profile, Params, Pipeline,
--                  Manager (Ensure, Stop, SignalReclassify, ObserveDeploymentRevision), Worker
--                  (runClassification and its calls), Worker.Loop (Run, runOnce), Fleet (the manager
--                  with all its workers); Running, Single, Numbers and Triggers below Manager,
--                  Outcome, Stored, Runs, Endings and Served below Worker, and Starts, Kept, Acts,
--                  Contexts and Sound below Fleet are proofs
--   Explainer      internal/explainer: BuildPrompt and TrimContent, Worker (Run, handleRequest)
--   Wiring         cmd/controller/main.go: the configurations of the workers, and Startup (main); HotPath
--                  gives the reconciler the clients of main, ColdPath is about the worker under main's
--                  configuration, Steps and Health below Startup are proofs
--   TargetApp      target-app/internal/server: LoadConfig, New, handleWork and the probes
--   Tests          concrete numbers and resources, and the theorems at them
--
-- How the code is represented. A number of Go's int32 or int64 is an integer, and every 32-bit sum or
-- difference is wrapped around. float64 and time.Time are type parameters with the operations that the
-- code calls; what a theorem needs of IEEE 754 is the record IsOrdered, which Tests shows to hold of exact
-- thousandths. A pointer is an Option, an error a value, a panic an ending of its own. A reconcile is a
-- program of the monad M: it reads a fixed Env (the answers of the API server, of Prometheus, of the
-- Forecast Service and of the clock), threads the store, and records its calls in order. GetOrCreate
-- returns a pointer; the writes through it are the writes of `save`. One resource is reconciled by one
-- goroutine at a time, as controller-runtime promises. A classifier's worker is a step function: a move
-- is a case of one of its selects, with what follows it, or a move of its surroundings (a signal of the
-- manager, the end of the context, a write to the API server), and a run is a list of moves, so that every
-- interleaving is one. A fleet is the manager, its workers and the stored resources under a list of acts: a
-- call of the manager, which its mutex makes one step, a worker's move, or another client's write. The target app is the same, with a step for each atomic point of a request. The
-- explainer's worker serves one request at a time, and its run is a fold. What strconv, fmt, net/http and
-- encoding/json do is a parameter; Config.RoundTrip states the two laws of numbers that are printed and
-- read, and Tests gives them a concrete pair. No definition needs fuel: every loop is structural.
--
-- Not modelled: the texts that fmt formats beyond their parts, logs beyond their level, the transport below
-- the HTTP exchange, the packages that main calls (flag, zap, controller-runtime), the deep copies that are generated,
-- the tools that make test data and load (hack/synthetic, k6, test),
-- the duration of the target app's work, and the Forecast Service, which is a program of its own.
pub mod Prelude
pub mod Go
pub mod Reasoning
pub mod Decision
pub mod Api
pub mod Webhook
pub mod Promql
pub mod Config
pub mod Adapters
pub mod Controller
pub mod Classifier
pub mod Explainer
pub mod TargetApp
pub mod Wiring
pub mod Tests

-- ===== src/Wiring/Startup.antt =====
-- cmd/controller/main.go: main, from the parsed flags to the end of the manager. The package flag, zap,
-- controller-runtime and the operating system are parameters: what main asks of them is a list of calls,
-- and what they answer is given.
pub mod Steps
pub mod Health
use agentic_autoscaler.Prelude.{
  ℤ, pos, quot, String, str_eq, Option, none, some, List, [], ◌∷◌, ◌++◌, Bool, true, false, not,
  ◌⊎◌, inl, inr, if◌then◌else◌,
}
use agentic_autoscaler.Go.Float.{Float64}
use agentic_autoscaler.Config.{Config, ConfigError}
use agentic_autoscaler.Config.Load.{Texts, Environ, load_from_env, summary}
use agentic_autoscaler.Controller.World.{Formats}
use agentic_autoscaler.Controller.Steps.{Reconciler}
use agentic_autoscaler.Classifier.Worker as Cold
use agentic_autoscaler.Explainer.Worker as Explain
use agentic_autoscaler.Wiring.{classifier_config, explainer_config}

pub record Flags : Type 0 where
  pub metrics_addr : String
  pub probe_addr : String
  pub enable_leader_election : Bool
  pub secure_metrics : Bool
  pub enable_http2 : Bool

abbrev pub default_flags : Flags
default_flags = record {
  metrics_addr = "0";
  probe_addr = ":8081";
  enable_leader_election = false;
  secure_metrics = true;
  enable_http2 = false;
}

-- The options of controller-runtime that main sets. The protocols are NextProtos of the TLS
-- configuration, none where tlsOpts is empty; `metrics_filtered` says that FilterProvider is set.
pub record ManagerOptions : Type 0 where
  pub metrics_bind_address : String
  pub metrics_secure : Bool
  pub metrics_protocols : Option (List String)
  pub metrics_filtered : Bool
  pub webhook_protocols : Option (List String)
  pub probe_address : String
  pub leader_election : Bool
  pub leader_election_id : String

unfoldable pub protocols_of : Flags → Option (List String)
protocols_of flags = if not flags.enable_http2 then some ("http/1.1" ∷ []) else none

unfoldable pub manager_options : Flags → ManagerOptions
unfolding protocols_of
manager_options flags = record {
  metrics_bind_address = flags.metrics_addr;
  metrics_secure = flags.secure_metrics;
  metrics_protocols = protocols_of flags;
  metrics_filtered = flags.secure_metrics;
  webhook_protocols = protocols_of flags;
  probe_address = flags.probe_addr;
  leader_election = flags.enable_leader_election;
  leader_election_id = "39d01c48.agentic.io";
}

-- What main asks for, in its order. The texts are those of the log.
pub data Boot (F : Type 0) : Type 0 where
  print_config_error : List ConfigError → Boot F
  set_logger : Boot F
  log_config : String → Boot F
  get_kube_config : Boot F
  make_manager : ManagerOptions → Boot F
  setup_webhook : Boot F
  setup_signals : Boot F
  make_classifier : Cold.WorkerConfig F → Boot F
  setup_controller : Reconciler F → Boot F
  add_healthz add_readyz : Boot F
  log_error : String → Boot F
  log_starting : Boot F
  go_explainer : Explain.WorkerConfig → Boot F
  start_manager : Boot F

-- The errors of the calls, none where one succeeds. GetConfigOrDie ends the process with a code of its
-- own.
pub record Answers : Type 0 where
  pub kube_config : Option ℤ
  pub manager : Option String
  pub webhook : Option String
  pub controller : Option String
  pub healthz : Option String
  pub readyz : Option String
  pub start : Option String

-- Whether main goes on, or the process has ended with a code.
pub data Outcome (A : Type 0) : Type 0 where
  going : A → Outcome A
  exited : ℤ → Outcome A

abbrev pub Startup : Type 0 → Type 0 → Type 0
Startup F A = List (Boot F) × Outcome A

infixl 5 ◌>>=◌ ◌>>◌
unfoldable pub ◌>>=◌ : {F A B : Type 0} → Startup F A → (A → Startup F B) → Startup F B
(calls, going a) >>= g = let (more, end) = g a in (calls ++ more, end)
(calls, exited code) >>= g = (calls, exited code)

unfoldable pub ◌>>◌ : {F B : Type 0} → Startup F (Unit {0}) → Startup F B → Startup F B
unfolding ◌>>=◌
m >> k = m >>= λ _. k

module _ {F : Type 0} where
  unfoldable pub call : Boot F → Startup F (Unit {0})
  call c = (c ∷ [], going tt)

  -- os.Exit(1), after the error is logged.
  unfoldable pub or_exit : Option String → String → Startup F (Unit {0})
  or_exit none message = ([], going tt)
  or_exit (some e) message = (log_error message ∷ [], exited (pos 1))

  unfoldable pub or_die : Option ℤ → Startup F (Unit {0})
  or_die none = ([], going tt)
  or_die (some code) = ([], exited code)

  unfoldable pub when : Bool → Startup F (Unit {0}) → Startup F (Unit {0})
  when b m = elim b [ Bool.true ↦ m | Bool.false ↦ ([], going tt) ]

  unfoldable pub loaded : Config F ⊎ List ConfigError → Startup F (Config F)
  loaded (inl cfg) = ([], going cfg)
  loaded (inr errs) = (print_config_error errs ∷ [], exited (pos 1))

unfoldable pub webhooks_enabled : Environ → Bool
webhooks_enabled env = not (str_eq (env "ENABLE_WEBHOOKS") "false")

module _ {F : Type 0} ⦃f : Float64 F⦄ (formats : Formats F) where
  -- The reconciler that main builds: a classifier manager is always wired.
  unfoldable pub new_reconciler : Config F → Reconciler F
  new_reconciler cfg = record { config = cfg; has_classifier = true; formats = formats }

  -- From the manager's options to the readiness check.
  unfoldable pub set_up : Flags → Environ → Answers → Config F → Startup F (Unit {0})
  unfolding manager_options webhooks_enabled classifier_config new_reconciler ◌>>◌ call or_die
      or_exit when
  set_up flags env answers cfg = do
    call get_kube_config
    or_die answers.kube_config
    call (make_manager (manager_options flags))
    or_exit answers.manager "unable to start manager"
    when (webhooks_enabled env)
        (do call setup_webhook; or_exit answers.webhook "unable to create webhook")
    call setup_signals
    call (make_classifier (classifier_config cfg))
    call (setup_controller (new_reconciler cfg))
    or_exit answers.controller "unable to create controller"
    call add_healthz
    or_exit answers.healthz "unable to set up health check"
    call add_readyz
    or_exit answers.readyz "unable to set up ready check"

module _ {F : Type 0} ⦃f : Float64 F⦄ where
  -- The calls after the setup.
  unfoldable pub launch : Answers → Config F → Startup F (Unit {0})
  unfolding explainer_config ◌>>◌ call or_exit
  launch answers cfg = do
    call log_starting
    call (go_explainer (explainer_config cfg))
    call start_manager
    or_exit answers.start "problem running manager"

module _ {F : Type 0} ⦃f : Float64 F⦄ (x : Texts F) (formats : Formats F) where
  -- main with a configuration.
  unfoldable pub boot : Flags → Environ → Answers → Config F → Startup F (Unit {0})
  unfolding set_up launch summary ◌>>◌ call
  boot flags env answers cfg = do
    call set_logger
    call (log_config (summary x cfg))
    set_up formats flags env answers cfg
    launch answers cfg

  unfoldable pub main : Flags → Environ → Answers → Startup F (Unit {0})
  unfolding boot load_from_env ◌>>=◌ loaded
  main flags env answers = loaded (load_from_env x env) >>= boot flags env answers

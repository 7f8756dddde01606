-- ===== src/TargetApp.antt =====
-- target-app/internal/server: the server that is the load target. Requests are served at the same time,
-- each by the steps of handleWork; the steps of several requests may come in any order.
pub mod Balance
use agentic_autoscaler.Prelude.{
  ℕ, ◌+◌, ◌-◌, ◌*◌, ℤ, pos, negsuc, pos_part, String, str_eq, Option, some, none, List, [], ◌∷◌,
  Bool, true, false, ltb, ltb_ℤ, if◌then◌else◌, not, ◌||◌,
}
use agentic_autoscaler.Config.Load.{Environ}

pub record ServerConfig : Type 0 where
  pub concurrency : ℤ
  pub work_duration_ms : ℤ
  pub work_jitter_ms : ℤ
  pub deployment_name : String

unfoldable pub default_config : ServerConfig
default_config = record {
  concurrency = pos 8;
  work_duration_ms = pos 50;
  work_jitter_ms = pos 30;
  deployment_name = "unknown";
}

-- `atoi` is strconv.Atoi, none on an error.
unfoldable pub env_int_or_default : (String → Option ℤ) → Environ → String → ℤ → ℤ
env_int_or_default atoi env name def =
    if str_eq (env name) ""
    then def
    else elim (atoi (env name)) [ none ↦ def | some v ↦ if ltb_ℤ v (pos 0) then def else v ]

unfoldable pub load_config : (String → Option ℤ) → Environ → ServerConfig
unfolding default_config env_int_or_default
load_config atoi env = record {
  concurrency = env_int_or_default atoi env "TARGET_CONCURRENCY" default_config.concurrency;
  work_duration_ms =
      env_int_or_default atoi env "TARGET_WORK_DURATION_MS" default_config.work_duration_ms;
  work_jitter_ms =
      env_int_or_default atoi env "TARGET_WORK_JITTER_MS" default_config.work_jitter_ms;
  deployment_name =
      if str_eq (env "DEPLOYMENT_NAME") ""
      then default_config.deployment_name
      else env "DEPLOYMENT_NAME";
}

-- The server: the places of the semaphore that are taken and its capacity, the two counters and the
-- count of the histogram, and the number of requests at each point of handleWork: at work, counted with
-- the place still taken, and with the observation of the time still to come.
pub record Server : Type 0 where
  pub ready : Bool
  pub deployment_label : String
  pub capacity : ℕ
  pub taken : ℕ
  pub counted_200 : ℕ
  pub counted_503 : ℕ
  pub observed : ℕ
  pub working : ℕ
  pub answered : ℕ
  pub leaving : ℕ

-- The value of the const label of every collector.
abbrev pub label_of : ServerConfig → String
label_of cfg = if str_eq cfg.deployment_name "" then "unknown" else cfg.deployment_name

-- `accepts` is whether the registry accepts the collectors, for the value of the const label: `MustRegister` panics
-- where it does not, and make(chan struct{}, n) panics on a negative n.
unfoldable pub new_server : (String → Bool) → ServerConfig → Option Server
new_server accepts cfg =
    if not (accepts (label_of cfg)) || ltb_ℤ cfg.concurrency (pos 0)
    then none
    else some (record {
      ready = true;
      deployment_label = label_of cfg;
      capacity = pos_part cfg.concurrency;
      taken = 0;
      counted_200 = 0;
      counted_503 = 0;
      observed = 0;
      working = 0;
      answered = 0;
      leaving = 0;
    })

-- The steps: the select of a request that arrives, the answer after its work, the deferred release of
-- its place, the deferred observation, and SetReady.
pub data Step : Type 0 where
  arrive answer release observe : Step
  set_ready : Bool → Step

abbrev pub step_if : Bool → Server → Option Server
step_if b s = if b then some s else none

unfoldable pub step : Step → Server → Option Server
step Step.arrive s =
    if ltb s.taken s.capacity
    then some (record s { taken = s.taken + 1; working = s.working + 1 })
    else some (record s { counted_503 = s.counted_503 + 1; leaving = s.leaving + 1 })
step Step.answer s = step_if (ltb 0 s.working) (record s {
  working = s.working - 1;
  counted_200 = s.counted_200 + 1;
  answered = s.answered + 1;
})
step Step.release s =
    step_if (ltb 0 s.answered)
      (record s { answered = s.answered - 1; taken = s.taken - 1; leaving = s.leaving + 1 })
step Step.observe s =
    step_if (ltb 0 s.leaving) (record s { leaving = s.leaving - 1; observed = s.observed + 1 })
step (Step.set_ready b) s = some (record s { ready = b })

unfoldable pub run_steps : List Step → Server → Option Server
unfolding step
run_steps [] s = some s
run_steps (x ∷ xs) s = elim (step x s) [ none ↦ none | some s1 ↦ run_steps xs s1 ]

-- The status codes of the probes.
abbrev pub healthz : ℕ
healthz = 200

unfoldable pub readyz : Server → ℕ
readyz s = if s.ready then 200 else 503

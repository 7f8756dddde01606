-- ===== src/Wiring/HotPath.antt =====
-- The reconciler over the clients that main gives it: promClient and forecastClient.
use agentic_autoscaler.Prelude.{ℤ, String, Option, false, ◌≡◌, arith, All, []}
use mathlib.Core.Path.{subst}
use agentic_autoscaler.Go.Float.{Float64}
use agentic_autoscaler.Go.Time.{GoTime}
use agentic_autoscaler.Api.{NamespacedName, name_key}
use agentic_autoscaler.Adapters.{ok, RecommendRequest, RecommendResponse}
use agentic_autoscaler.Adapters.Http.{Exchange}
use agentic_autoscaler.Adapters.Prometheus.{
  InstantResponse, RangeResponse, instant_query, range_query,
}
use agentic_autoscaler.Adapters.Forecast.{IsUsable, recommend, recommend-IsUsable}
use agentic_autoscaler.Decision.Store.{StateStore}
use agentic_autoscaler.Controller.World.{Env, Effect}
use agentic_autoscaler.Controller.Steps.{Reconciler}
use agentic_autoscaler.Controller.Reconcile.{run}
use agentic_autoscaler.Controller.Reads.{is_patch}
use agentic_autoscaler.Controller.Stored.{IsSound}
use agentic_autoscaler.Controller.Grounds.{Grounds, run-Grounds}

-- What answers the requests of the clients, and strconv.ParseFloat, Time.Unix and time.Unix.
pub record Network (F T : Type 0) : Type 0 where
  pub parse_float : String → Option F
  pub unix : T → ℤ
  pub from_unix : ℤ → T
  pub instant : String → Exchange (InstantResponse F)
  pub range : String → ℤ → ℤ → ℤ → Exchange (RangeResponse F)
  pub forecast : RecommendRequest F → Exchange (RecommendResponse F)

module _ {F : Type 0} ⦃f : Float64 F⦄ {T : Type 0} ⦃t : GoTime T⦄ where
  -- The surroundings of a reconcile in which the clients ask the network.
  abbrev pub connected : Network F T → Env F T → Env F T
  connected n env = record env {
    instant_query = instant_query n.parse_float n.instant;
    range_query = range_query n.parse_float n.from_unix n.unix n.range;
    recommend = recommend n.forecast;
  }

  -- A patch, if there is one, rests on what the clients answered and on the store `s`, and the
  -- forecast is usable.
  abbrev pub IsFounded :
      Reconciler F → Env F T → NamespacedName → StateStore NamespacedName F T → Effect F T → Type 0
  IsFounded r env key s (Effect.patch_scale n) =
      (g : Grounds r env key s n) × IsUsable (ok g.response)
  IsFounded r env key s e = Unit {0}

  others-IsFounded :
      (r : Reconciler F) (env : Env F T) (key : NamespacedName) (s : StateStore NamespacedName F T)
      (e : Effect F T)
      → is_patch e ≡ false
      → IsFounded r env key s e
  others-IsFounded r env key s (Effect.patch_scale n) h = ground arith
  others-IsFounded r env key s _ h = tt

  -- Whatever the network answers, from a store whose buffers have capacity 10 and are within it, every
  -- count that a reconcile patches is the target of the plan for: the resource and its Deployment as
  -- they were read; the rate that Prometheus answered, with enough samples of history; the forecast
  -- that the client returned for the request with that history, which is finite, a number, not
  -- negative, and names its model; and the state that the store held for the resource (or a fresh
  -- one), seeded from the status and refreshed with that rate.
  pub run-AllFounded :
      (r : Reconciler F) (n : Network F T) (env : Env F T) (key : NamespacedName)
      (s : StateStore NamespacedName F T)
      → IsSound s
      → All
          (IsFounded r (connected n env) key s)
          (run r (connected n env) key (record { store = s; effects = [] })).1.effects
  run-AllFounded r n env key s sound =
      let at = connected n env in
      run-Grounds r at (IsFounded r at key s) (others-IsFounded r at key s) key s sound
        (λ c g. (g, subst IsUsable g.recommended (recommend-IsUsable n.forecast _).0))
